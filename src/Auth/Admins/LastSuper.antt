-- ===== src/Auth/Admins/LastSuper.antt =====
-- The status of administrators and the guard of the last active super administrator.
use slc_central_admin_cursor.Prelude.{
  ℕ, ◌≡◌, refl, ap, sym, ◌∙◌, ◌⊎◌, inl, inr, Bool, true, false, not, ◌&&◌, Option, none, some, List,
  [], ◌∷◌, ◌==◌, nat_eq, ==_iff, ltb, any, filter, length, find, All, arith, if◌then◌else◌,
  Bool-cases, Option-cases, err, state_of,
}
use slc_central_admin_cursor.Shared.{role_eq}
use slc_central_admin_cursor.Rows.{update_where}
use slc_central_admin_cursor.Auth.Db.{
  AdminUserStatus, active, disabled, is_disabled, AdminUser, World, has_id, find_admin,
  update_admin, role_keys_of, record_event,
}
use slc_central_admin_cursor.AppErrors.{AppError, app_error, other_error, last_super_admin}
use slc_central_admin_cursor.Auth.Sessions.{revoke_all_sessions}
use slc_central_admin_cursor.Auth.Admins.{
  is_active_super, active_super_admin_count, target_is_active_super, assert_not_last_super_admin,
  summary_of, to_summary, update_found, after_status, set_admin_user_status,
}

-- Each row is the one that its id finds.
abbrev pub IsDistinct : World → Type 0
IsDistinct w = All (λ (a : AdminUser). find (has_id a.id) w.admins ≡ some a) w.admins

abbrev pub has_super : World → Bool
has_super w = any (is_active_super w) w.admins

abbrev pub is_other_super : ℕ → World → AdminUser → Bool
is_other_super id w a = is_active_super w a && not (a.id == id)

module _ {A : Type 0} where
  count-any : (p : A → Bool) (xs : List A) → ltb (length (filter p xs)) 1 ≡ false → any p xs ≡ true
  count-any p [] h = cc
  count-any p (x ∷ xs) h = elim (Bool-cases (p x)) [
    | inl e ↦ rw e refl
    | inr e ↦ ground (arith, count-any p xs)
  ]

  any-update_where :
      (p r q : A → Bool) (f : A → A)
      → ((x : A) → p x ≡ true → r (if q x then f x else x) ≡ true)
      → (xs : List A) → any p xs ≡ true
      → any r (update_where q f xs) ≡ true
  unfolding update_where
  any-update_where p r q f keeps [] h = h
  any-update_where p r q f keeps (x ∷ xs) h =
      ground (arith, keeps x, any-update_where p r q f keeps xs)

  pub any-implies :
      (P : A → Type 0) (p r : A → Bool)
      → ((x : A) → P x → p x ≡ true → r x ≡ true)
      → (xs : List A) → All P xs
      → any p xs ≡ true
      → any r xs ≡ true
  any-implies P p r keeps [] a h = h
  any-implies P p r keeps (x ∷ xs) a h = ground (arith, keeps x a.0, any-implies P p r keeps xs a.1)

pub and_not : (a b : Bool) → a ≡ true → b ≡ false → (a && not b) ≡ true
and_not true true h k = cc
and_not true false h k = refl
and_not false b h k = cc

pub of_and_not : (a b : Bool) → (a && not b) ≡ true → (a ≡ true) × (b ≡ false)
of_and_not true true h = cc
of_and_not true false h = (refl, refl)
of_and_not false b h = cc

no_and : (a b : Bool) → a ≡ true → (a && b) ≡ false → b ≡ false
no_and true b h k = k
no_and false b h k = cc

pub and_right : (a b : Bool) → (a && b) ≡ true → b ≡ true
and_right true b h = h
and_right false b h = cc

-- What the guard leaves: another active super administrator.
pub others_remain :
    (id : ℕ) (w : World)
    → IsDistinct w
    → has_super w ≡ true
    → (target_is_active_super (find_admin (has_id id) w) w && ltb (active_super_admin_count id w) 1)
      ≡ false
    → any (is_other_super id w) w.admins ≡ true
unfolding active_super_admin_count find_admin
others_remain id w distinct h allowed =
    elim (Bool-cases (target_is_active_super (find (has_id id) w.admins) w)) [
      | inl e ↦ count-any (is_other_super id w) w.admins (no_and _ _ e allowed)
      | inr e ↦
          any-implies (λ (a : AdminUser). find (has_id a.id) w.admins ≡ some a) (is_active_super w)
            (is_other_super id w)
            (λ x own super. elim (Bool-cases (x.id == id)) [
              | inr far ↦ and_not (is_active_super w x) (x.id == id) super far
              | inl near ↦
                  let found : find (has_id id) w.admins ≡ some x =
                    ap (λ i. find (has_id i) w.admins) (sym ((==_iff x.id id).0 near)) ∙ own in
                  absurd (cc (super, e, ap (λ o. target_is_active_super o w) found))
            ])
            w.admins distinct h
    ]

kept_by_summary : (o : Option AdminUser) (w : World) → state_of (summary_of o w) ≡ w
unfolding summary_of
kept_by_summary none w = refl
kept_by_summary (some a) w = refl

pub state_of-to_summary : (id : ℕ) (w : World) → state_of (to_summary id w) ≡ w
unfolding to_summary
state_of-to_summary id w = kept_by_summary (find_admin (has_id id) w) w

abbrev pub is_last : ℕ → World → Bool
is_last id w =
    target_is_active_super (find_admin (has_id id) w) w && ltb (active_super_admin_count id w) 1

abbrev pub with_status : ℕ → AdminUserStatus → World → World
with_status id s w = after_status id s (update_admin id (λ r. record r { status = s }) w)

-- The call throws and leaves the database as it was, or leaves it with the status, which the guard
-- allowed.
pub status-ends :
    (id : ℕ) (s : AdminUserStatus) (w : World)
    → ((e : AppError) × (set_admin_user_status id s w ≡ err e w))
      ⊎ ((state_of (set_admin_user_status id s w) ≡ with_status id s w)
          × (is_disabled s ≡ true → is_last id w ≡ false))
unfolding set_admin_user_status assert_not_last_super_admin to_summary update_found
status-ends id active w = elim (Option-cases (find_admin (has_id id) w)) [
  | inl e ↦ inl (other_error, rw e refl)
  | inr (a, e) ↦ inr (rw e (kept_by_summary _ _), λ h. absurd (cc))
]
status-ends id disabled w = elim (Bool-cases (is_last id w)) [
  | inl last ↦ inl (app_error 409 last_super_admin, rw last refl)
  | inr free ↦ elim (Option-cases (find_admin (has_id id) w)) [
    | inl e ↦ inl (other_error, rw (free, e) refl)
    | inr (a, e) ↦ inr (rw (free, e) (kept_by_summary _ _), λ h. free)
  ]
]

enabled_super :
    (id : ℕ) (w : World) (x : AdminUser)
    → is_active_super w x ≡ true
    → is_active_super w (if has_id id x then record x { status = active } else x) ≡ true
enabled_super id w x h = elim (Bool-cases (has_id id x)) [
  | inr e ↦ rw e h
  | inl e ↦ rw e (and_right (not (is_disabled x.status)) _ h)
]

other_kept :
    (id : ℕ) (w : World) (x : AdminUser)
    → is_other_super id w x ≡ true
    → is_active_super w (if has_id id x then record x { status = disabled } else x) ≡ true
other_kept id w x h =
    let (super, far) = of_and_not (is_active_super w x) (x.id == id) h in rw far super

with_status-has_super :
    (id : ℕ) (s : AdminUserStatus) (w : World)
    → IsDistinct w
    → has_super w ≡ true
    → (is_disabled s ≡ true → is_last id w ≡ false)
    → has_super (with_status id s w) ≡ true
unfolding after_status update_admin record_event revoke_all_sessions role_keys_of
with_status-has_super id active w d h g =
    any-update_where (is_active_super w) (is_active_super w) (has_id id)
      (λ r. record r { status = active }) (enabled_super id w) w.admins h
with_status-has_super id disabled w d h g =
    any-update_where (is_other_super id w) (is_active_super w) (has_id id)
      (λ r. record r { status = disabled }) (other_kept id w) w.admins
      (others_remain id w d h (g refl))

-- Setting the status of an administrator, whether it succeeds or throws, leaves an active super
-- administrator, if there was one before and each row has its own id.
pub set_admin_user_status-has_super :
    (id : ℕ) (s : AdminUserStatus) (w : World)
    → IsDistinct w
    → has_super w ≡ true
    → has_super (state_of (set_admin_user_status id s w)) ≡ true
set_admin_user_status-has_super id s w d h = elim (status-ends id s w) [
  | inl (e, q) ↦ rw q h
  | inr (e, allowed) ↦ rw e (with_status-has_super id s w d h allowed)
]

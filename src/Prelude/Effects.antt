-- ===== src/Prelude/Effects.antt =====
-- Code that changes a state and returns or throws. What was written before a throw stays written,
-- so the state comes back in both cases.
use mathlib.Core.Path.{◌≡◌, refl, ap, ap₂}
use mathlib.Core.Logic.{◌⊎◌, inl, inr}
use mathlib.Core.Bool.{Bool, true, false}
use native.Mathlib.Omega.{arith}

pub data Outcome {ℓ} (S E A : Type ℓ) : Type ℓ where
  ok : A → S → Outcome S E A
  err : E → S → Outcome S E A

abbrev pub Exec {ℓ} : Type ℓ → Type ℓ → Type ℓ → Type ℓ
Exec S E A = S → Outcome S E A

module _ {ℓ} {S E A : Type ℓ} where
  -- The state after the call, whichever way it ended.
  abbrev pub state_of : Outcome S E A → S
  state_of (ok a s) = s
  state_of (err e s) = s

  pub Outcome-cases :
      (r : Outcome S E A) → ((a : A) × (s : S) × (r ≡ ok a s)) ⊎ ((e : E) × (s : S) × (r ≡ err e s))
  Outcome-cases (ok a s) = inl (a, s, refl)
  Outcome-cases (err e s) = inr (e, s, refl)

  pub ok-injective :
      {a b : A} {s t : S} → ◌≡◌ {A = Outcome S E A} (ok a s) (ok b t) → (a ≡ b) × (s ≡ t)
  ok-injective h = (ground arith, ground arith)

  err_value : E → Outcome S E A → E
  err_value d (ok a s) = d
  err_value d (err e s) = e

  err_state : S → Outcome S E A → S
  err_state d (ok a s) = d
  err_state d (err e s) = s

  pub err-injective :
      {d e : E} {s t : S} → ◌≡◌ {A = Outcome S E A} (err d s) (err e t) → (d ≡ e) × (s ≡ t)
  unfolding err_value err_state
  err-injective {d = d} {s = s} h = (ap (err_value d) h, ap (err_state s) h)

  pub ok-not_err :
      {o : Outcome S E A} {a : A} {v : S} {e : E} {w : S} → o ≡ ok a v → o ≡ err e w → ⊥
  ok-not_err p q = cc

  abbrev pub pure : A → Exec S E A
  pure a s = ok a s

  abbrev pub throw : E → Exec S E A
  throw e s = err e s

  abbrev pub gets : (S → A) → Exec S E A
  gets f s = ok (f s) s

module _ {ℓ} {S E A B : Type ℓ} where
  abbrev pub and_then : Outcome S E A → (A → Exec S E B) → Outcome S E B
  and_then (ok a s) f = f a s
  and_then (err e s) f = err e s

  -- A sequence that returns is made of parts that return.
  pub and_then-ok :
      (o : Outcome S E A) (f : A → Exec S E B) {b : B} {v : S}
      → and_then o f ≡ ok b v
      → (a : A) × (u : S) × (o ≡ ok a u) × (f a u ≡ ok b v)
  and_then-ok (ok a u) f h = (a, u, refl, h)
  and_then-ok (err e u) f h = cc

  -- A sequence throws where its first part does, or where the rest does.
  pub and_then-err :
      (o : Outcome S E A) (f : A → Exec S E B) {e : E} {v : S}
      → and_then o f ≡ err e v
      → (o ≡ err e v) ⊎ ((a : A) × (u : S) × (o ≡ ok a u) × (f a u ≡ err e v))
  and_then-err (ok a u) f h = inr (a, u, refl, h)
  and_then-err (err e u) f h = let (x, y) = err-injective h in inl (ap₂ err x y)

  infixl 5 ◌>>=◌ ◌>>◌
  abbrev pub ◌>>=◌ : Exec S E A → (A → Exec S E B) → Exec S E B
  ◌>>=◌ m f s = and_then (m s) f

  abbrev pub ◌>>◌ : Exec S E A → Exec S E B → Exec S E B
  ◌>>◌ m k s = and_then (m s) (λ _. k)

-- `if (!test) throw e`.
abbrev pub guard : {S E : Type 0} → Bool → E → Exec S E (Unit {0})
guard true e s = ok tt s
guard false e s = err e s

abbrev pub modify : {S E : Type 0} → (S → S) → Exec S E (Unit {0})
modify f s = ok tt (f s)

module _ {ℓ} {S E A B C : Type ℓ} where
  pub and_then_assoc :
      (o : Outcome S E A) (f : A → Exec S E B) (g : B → Exec S E C)
      → and_then (and_then o f) g ≡ and_then o (λ a s. and_then (f a s) g)
  and_then_assoc (ok a s) f g = refl
  and_then_assoc (err e s) f g = refl

-- ===== src/Registry/Pages/Partition.antt =====
-- The pages of a list together are the list.
use native.Mathlib.Nat.{suc-mul, div-add-mod', mod-lt}
use slc_central_admin_cursor.Prelude.{
  ℕ, zero, suc, ◌+◌, ◌-◌, ◌*◌, ◌/◌, ◌≤◌, ◌<◌, ◌≡◌, refl, ap, sym, ◌∙◌, ◌⊎◌, inl, inr, max, Option,
  List, [], ◌∷◌, ◌++◌, length, arith,
}
use slc_central_admin_cursor.Registry.Pages.{take, drop, page_size_of, page_count, page_of}

zero_plus : (b : ℕ) → 0 + b ≡ b
zero_plus b = omega arith

suc_plus : (a b : ℕ) → suc a + b ≡ suc (a + b)
suc_plus a b = omega arith

zero_times : (b : ℕ) → 0 * b ≡ 0
zero_times b = omega arith

before_suc : (n : ℕ) → suc n - 1 ≡ n
before_suc n = omega arith

suc_times : (n size : ℕ) → suc n * size ≡ size + n * size
suc_times n size = suc-mul n size ∙ omega arith

module _ {A : Type 0} where
  take-nil : (b : ℕ) → take {A = A} b [] ≡ []
  take-nil zero = refl
  take-nil (suc b) = refl

  drop-nil : (b : ℕ) → drop {A = A} b [] ≡ []
  drop-nil zero = refl
  drop-nil (suc b) = refl

  take-drop : (a b : ℕ) (xs : List A) → take a xs ++ take b (drop a xs) ≡ take (a + b) xs
  take-drop zero b xs = ap (λ n. take n xs) (sym (zero_plus b))
  take-drop (suc a) b [] = take-nil b ∙ sym (take-nil (suc a + b))
  take-drop (suc a) b (x ∷ xs) =
      ap (λ l. x ∷ l) (take-drop a b xs) ∙ ap (λ n. take n (x ∷ xs)) (sym (suc_plus a b))

  drop-drop : (a b : ℕ) (xs : List A) → drop b (drop a xs) ≡ drop (a + b) xs
  drop-drop zero b xs = ap (λ n. drop n xs) (sym (zero_plus b))
  drop-drop (suc a) b [] = drop-nil b ∙ sym (drop-nil (suc a + b))
  drop-drop (suc a) b (x ∷ xs) = drop-drop a b xs ∙ ap (λ n. drop n (x ∷ xs)) (sym (suc_plus a b))

  take_all : (n : ℕ) (xs : List A) → length xs ≤ n → take n xs ≡ xs
  take_all zero [] h = refl
  take_all zero (x ∷ xs) h = absurd (omega arith)
  take_all (suc n) [] h = refl
  take_all (suc n) (x ∷ xs) h = ap (λ l. x ∷ l) (take_all n xs (omega arith))

  length-take : (n : ℕ) (xs : List A) → length (take n xs) ≤ n
  length-take zero xs = omega arith
  length-take (suc n) [] = omega arith
  length-take (suc n) (x ∷ xs) = omega (arith, length-take n xs)

  -- The items of pages that follow each other.
  unfoldable pub joined : ℕ → List A → ℕ → ℕ → List A
  joined size rows page zero = []
  joined size rows page (suc n) =
      (page_of page size rows (length rows)).items ++ joined size rows (suc page) n

  joined-take :
      (size : ℕ) (rows : List A) (start n : ℕ)
      → joined size rows (suc start) n ≡ take (n * size) (drop (start * size) rows)
  unfolding joined page_of
  joined-take size rows start zero =
      ap (λ k. take k (drop (start * size) rows)) (sym (zero_times size))
  joined-take size rows start (suc n) =
      let D = drop (start * size) rows in
      ap (λ k. take size (drop (k * size) rows) ++ joined size rows (suc (suc start)) n)
        (before_suc start)
      ∙ ap (λ l. take size D ++ l)
          (joined-take size rows (suc start) n
            ∙ ap (λ k. take (n * size) (drop k rows)) (suc-mul start size)
            ∙ ap (take (n * size)) (sym (drop-drop (start * size) size rows)))
      ∙ take-drop size (n * size) D
      ∙ ap (λ k. take k D) (sym (suc_times n size))

at_least_one : (q : ℕ) → (q ≡ 0) ⊎ (max 1 q ≡ q)
at_least_one zero = inl refl
at_least_one (suc q) = inr (omega arith)

pub count-covers : (total size : ℕ) → 1 ≤ size → total ≤ page_count total size * size
unfolding page_count
count-covers total size h =
    let q = (total + (size - 1)) / size in
    let parts = div-add-mod' (total + (size - 1)) size in
    let positive : zero < size = omega arith in
    let rest = mod-lt (total + (size - 1)) positive in
    let enough : total ≤ q * size = omega (arith, parts, rest) in
    elim (at_least_one q) [
      | inl e ↦
          let nothing : q * size ≡ 0 = ap (λ n. n * size) e ∙ zero_times size in
          omega (arith, nothing, enough)
      | inr e ↦ rw e enough
    ]

pub page_size_of-positive :
    (limit default : ℕ) (size : Option ℕ) → 1 ≤ limit → 1 ≤ page_size_of limit default size
unfolding page_size_of
page_size_of-positive limit default size h = omega arith

pub page_size_of-le :
    (limit default : ℕ) (size : Option ℕ) → page_size_of limit default size ≤ limit
unfolding page_size_of
page_size_of-le limit default size = omega arith

-- The pages of a list, from the first to the last that is announced, hold its rows in their order,
-- each once, and none has more rows than its size.
pub pages-partition :
    {A : Type 0} (size : ℕ) (rows : List A)
    → 1 ≤ size
    → (joined size rows 1 (page_count (length rows) size) ≡ rows)
      × ((page : ℕ) → length (page_of page size rows (length rows)).items ≤ size)
unfolding page_of
pages-partition size rows h = (
  joined-take size rows 0 (page_count (length rows) size)
      ∙ ap (λ k. take (page_count (length rows) size * size) (drop k rows)) (zero_times size)
      ∙ take_all (page_count (length rows) size * size) rows (count-covers (length rows) size h),
  λ page. length-take size (drop ((page - 1) * size) rows),
)

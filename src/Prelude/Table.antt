-- ===== src/Prelude/Table.antt =====
-- A database table as a list of rows: lookup and deletion of the row that a unique key selects,
-- and the weight of a table, of which each row contributes a number.
use Prim.Native.Nat.{ℕ, ◌+◌}
use mathlib.Core.Path.{◌≡◌, refl}
use mathlib.Core.Logic.{inl, inr}
use mathlib.Core.Bool.{Bool, true, false, not, ◌||◌}
use mathlib.Core.List.Memᴰ.{head, tail}
use mathlib.Core.List.{Memᴰ, List, [], ◌∷◌, ◌++◌}
use mathlib.Core.Option.{Option, none, some}
use native.Mathlib.Omega.{arith}
use infra_lightwight_s3_serv.Prelude.Tests.{if◌then◌else◌, Bool-cases}
use infra_lightwight_s3_serv.Prelude.Lists.{keep, any}

module _ {ℓ} {A : Type ℓ} where
  -- The row that the test selects.
  unfoldable pub find : (A → Bool) → List A → Option A
  find p [] = none
  find p (x ∷ xs) = if p x then some x else find p xs

  -- The table without that row.
  unfoldable pub remove : (A → Bool) → List A → List A
  remove p [] = []
  remove p (x ∷ xs) = if p x then xs else x ∷ remove p xs

  unfoldable pub weight : (A → ℕ) → List A → ℕ
  weight w [] = 0
  weight w (x ∷ xs) = w x + weight w xs

  abbrev pub weight? : (A → ℕ) → Option A → ℕ
  weight? w none = 0
  weight? w (some x) = w x

  pub weight-append : (w : A → ℕ) (xs ys : List A) → weight w (xs ++ ys) ≡ weight w xs + weight w ys
  unfolding weight
  weight-append w [] ys = omega arith
  weight-append w (x ∷ xs) ys = omega (arith, weight-append w xs ys)

  pub weight-remove :
      (w : A → ℕ) (p : A → Bool) (xs : List A)
      → weight w (remove p xs) + weight? w (find p xs) ≡ weight w xs
  unfolding weight remove find
  weight-remove w p [] = refl
  weight-remove w p (x ∷ xs) = elim (Bool-cases (p x)) [
    | inl e ↦ rw e (omega arith)
    | inr e ↦ rw e (omega (arith, weight-remove w p xs))
  ]

  pub weight-keep :
      (w : A → ℕ) (p : A → Bool) (xs : List A)
      → weight w (keep p xs) + weight w (keep (λ x. not (p x)) xs) ≡ weight w xs
  unfolding weight
  weight-keep w p [] = refl
  weight-keep w p (x ∷ xs) = ground (arith, weight-keep w p xs)

  pub find_passes : (p : A → Bool) (xs : List A) (x : A) → find p xs ≡ some x → p x ≡ true
  unfolding find
  find_passes p [] x h = absurd (cc)
  find_passes p (y ∷ ys) x h = ground (arith, find_passes p ys x)

  pub find_mem : (p : A → Bool) (xs : List A) (x : A) → find p xs ≡ some x → Memᴰ x xs
  unfolding find
  find_mem p [] x h = absurd (cc)
  find_mem p (y ∷ ys) x h = elim (Bool-cases (p y)) [
    | inl e ↦ head (cc (rw e at h))
    | inr e ↦ tail (find_mem p ys x (rw e at h))
  ]

  pub find-cons :
      (p : A → Bool) (x : A) (xs : List A) → find p (x ∷ xs) ≡ (if p x then some x else find p xs)
  unfolding find
  find-cons p x xs = refl

  pub weight-cons : (w : A → ℕ) (x : A) (xs : List A) → weight w (x ∷ xs) ≡ w x + weight w xs
  unfolding weight
  weight-cons w x xs = refl

  -- Removing one row leaves the others to be found.
  pub find-remove_other :
      (p q : A → Bool) (xs : List A)
      → ((x : A) → p x ≡ true → q x ≡ false)
      → find p (remove q xs) ≡ find p xs
  unfolding find remove
  find-remove_other p q [] h = refl
  find-remove_other p q (x ∷ xs) h = elim (Bool-cases (q x)) [
    | inl e ↦ elim (Bool-cases (p x)) [ inl k ↦ absurd (cc (h x k)) | inr k ↦ rw (e, k) ]
    | inr e ↦ rw e (ground (arith, find-remove_other p q xs h))
  ]

module _ {ℓ} {A : Type ℓ} where
  -- INSERT … ON CONFLICT DO UPDATE: the row that the test selects is updated, or a row is added.
  unfoldable pub upsert : (A → Bool) → A → (A → A) → List A → List A
  upsert p row change [] = row ∷ []
  upsert p row change (x ∷ xs) = if p x then change x ∷ xs else x ∷ upsert p row change xs

  -- UPDATE of the row that the test selects.
  unfoldable pub update : (A → Bool) → (A → A) → List A → List A
  update p change [] = []
  update p change (x ∷ xs) = if p x then change x ∷ xs else x ∷ update p change xs

  -- What an upsert leaves in the place of the row that it found.
  abbrev pub upserted : A → (A → A) → Option A → A
  upserted row change none = row
  upserted row change (some x) = change x

  pub weight-upsert :
      (w : A → ℕ) (p : A → Bool) (row : A) (change : A → A) (xs : List A)
      → weight w (upsert p row change xs) + weight? w (find p xs)
        ≡ weight w xs + w (upserted row change (find p xs))
  unfolding weight upsert find
  weight-upsert w p row change [] = omega arith
  weight-upsert w p row change (x ∷ xs) = elim (Bool-cases (p x)) [
    | inl e ↦ rw e (omega arith)
    | inr e ↦ rw e (omega (arith, weight-upsert w p row change xs))
  ]

  pub find-upsert :
      (p : A → Bool) (row : A) (change : A → A) (xs : List A)
      → p row ≡ true
      → ((x : A) → p (change x) ≡ p x)
      → find p (upsert p row change xs) ≡ some (upserted row change (find p xs))
  unfolding upsert find
  find-upsert p row change [] h k = rw h
  find-upsert p row change (x ∷ xs) h k = elim (Bool-cases (p x)) [
    | inl e ↦ ground (arith, k x)
    | inr e ↦ ground (arith, find-upsert p row change xs h k)
  ]

  pub find-upsert_other :
      (p q : A → Bool) (row : A) (change : A → A) (xs : List A)
      → q row ≡ false
      → ((x : A) → p x ≡ true → (q x ≡ false) × (q (change x) ≡ false))
      → find q (upsert p row change xs) ≡ find q xs
  unfolding upsert find
  find-upsert_other p q row change [] h k = rw h
  find-upsert_other p q row change (x ∷ xs) h k = elim (Bool-cases (p x)) [
    | inl e ↦ ground (arith, k x e)
    | inr e ↦ ground (arith, find-upsert_other p q row change xs h k)
  ]

module _ {ℓ} {A : Type ℓ} where
  pub any-remove : (p q : A → Bool) (xs : List A) → any p xs ≡ false → any p (remove q xs) ≡ false
  unfolding remove
  any-remove p q [] h = refl
  any-remove p q (x ∷ xs) h = ground (arith, any-remove p q xs)

  pub any-keep : (p q : A → Bool) (xs : List A) → any p xs ≡ false → any p (keep q xs) ≡ false
  any-keep p q [] h = refl
  any-keep p q (x ∷ xs) h = ground (arith, any-keep p q xs)

  -- A row that is found fails every test that no row passes.
  pub find-any :
      (p q : A → Bool) (xs : List A) (x : A) → find p xs ≡ some x → any q xs ≡ false → q x ≡ false
  unfolding find
  find-any p q [] x h k = absurd (cc)
  find-any p q (y ∷ ys) x h k = ground (arith, find-any p q ys x)

  pub any-or : (p q : A → Bool) (xs : List A) → any (λ x. p x || q x) xs ≡ false → any p xs ≡ false
  any-or p q [] h = refl
  any-or p q (x ∷ xs) h = ground (arith, any-or p q xs)

  pub find-none-any : (p : A → Bool) (xs : List A) → find p xs ≡ none → any p xs ≡ false
  unfolding find
  find-none-any p [] h = refl
  find-none-any p (x ∷ xs) h = ground (arith, find-none-any p xs)

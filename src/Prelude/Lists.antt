-- ===== src/Prelude/Lists.antt =====
-- Lists measured and indexed by native numbers, and tests over their elements.
use Prim.Native.Nat.{ℕ, zero, suc, ◌+◌}
use mathlib.Core.Path.{◌≡◌, refl, ap, subst, sym}
use mathlib.Core.Logic.{inl, inr}
use mathlib.Core.List.Memᴰ.{head, tail, not-nil}
use mathlib.Core.Bool.{Bool, true, false, ◌&&◌, ◌||◌}
use mathlib.Core.List.{Memᴰ, List, [], ◌∷◌, ◌++◌}
use mathlib.Core.Option.{Option, none, some}
use native.Mathlib.Omega.{arith}
use infra_lightwight_s3_serv.Prelude.Tests.{if◌then◌else◌, Bool-cases}

module _ {ℓ} {A : Type ℓ} where
  abbrev pub length : List A → ℕ
  length [] = 0
  length (x ∷ xs) = suc (length xs)

  abbrev pub get_elem? : List A → ℕ → Option A
  get_elem? [] i = none
  get_elem? (x ∷ xs) zero = some x
  get_elem? (x ∷ xs) (suc i) = get_elem? xs i

  abbrev pub set : List A → ℕ → A → List A
  set [] i v = []
  set (x ∷ xs) zero v = v ∷ xs
  set (x ∷ xs) (suc i) v = x ∷ set xs i v

  abbrev pub take : ℕ → List A → List A
  take zero xs = []
  take (suc n) [] = []
  take (suc n) (x ∷ xs) = x ∷ take n xs

  abbrev pub drop : ℕ → List A → List A
  drop zero xs = xs
  drop (suc n) [] = []
  drop (suc n) (x ∷ xs) = drop n xs

  pub length-append : (xs ys : List A) → length (xs ++ ys) ≡ length xs + length ys
  length-append [] ys = omega arith
  length-append (x ∷ xs) ys = omega (arith, length-append xs ys)

  pub drop-append : (xs ys : List A) → drop (length xs) (xs ++ ys) ≡ ys
  drop-append [] ys = refl
  drop-append (x ∷ xs) ys = drop-append xs ys

  pub take-append : (xs ys : List A) → take (length xs) (xs ++ ys) ≡ xs
  take-append [] ys = refl
  take-append (x ∷ xs) ys = ap (◌∷◌ x) (take-append xs ys)

  abbrev pub last : List A → Option A
  last [] = none
  last (x ∷ []) = some x
  last (x ∷ y ∷ ys) = last (y ∷ ys)

  -- Some element passes the test.
  abbrev pub any : (A → Bool) → List A → Bool
  any p [] = false
  any p (x ∷ xs) = p x || any p xs

  -- Every element passes the test.
  abbrev pub all : (A → Bool) → List A → Bool
  all p [] = true
  all p (x ∷ xs) = p x && all p xs

  -- The elements that pass the test, in order.
  abbrev pub keep : (A → Bool) → List A → List A
  keep p [] = []
  keep p (x ∷ xs) = if p x then x ∷ keep p xs else keep p xs

  -- A witness of `any`: the element, its place by a split of the list, and the test.
  abbrev pub Has : (A → Bool) → List A → Type ℓ
  Has p xs = (ys : List A) × (x : A) × (zs : List A) × (xs ≡ ys ++ (x ∷ zs)) × (p x ≡ true)

  pub any-Has : (p : A → Bool) (xs : List A) → any p xs ≡ true → Has p xs
  any-Has p [] h = absurd (cc)
  any-Has p (x ∷ xs) h = elim (Bool-cases (p x)) [
    | inl e ↦ ([], x, xs, refl, e)
    | inr e ↦
        let (ys, y, zs, at, ok) = any-Has p xs (ground arith) in (x ∷ ys, y, zs, ap (◌∷◌ x) at, ok)
  ]

  pub Has_any_at :
      (p : A → Bool) (ys : List A) (x : A) (zs : List A)
      → p x ≡ true
      → any p (ys ++ (x ∷ zs)) ≡ true
  Has_any_at p [] x zs h = ground arith
  Has_any_at p (y ∷ ys) x zs h = ground (arith, Has_any_at p ys x zs h)

  pub mem-keep : (a : A) (p : A → Bool) (xs : List A) → Memᴰ a xs → p a ≡ true → Memᴰ a (keep p xs)
  mem-keep a p [] m h = absurd (not-nil m)
  mem-keep a p (x ∷ xs) (head e) h = rw (subst (λ y. p y ≡ true) e h) (head e)
  mem-keep a p (x ∷ xs) (tail m) h = elim (Bool-cases (p x)) [
    | inl e ↦ rw e (tail (mem-keep a p xs m h))
    | inr e ↦ rw e (mem-keep a p xs m h)
  ]

  pub all_mem : (a : A) (p : A → Bool) (xs : List A) → all p xs ≡ true → Memᴰ a xs → p a ≡ true
  all_mem a p [] h m = absurd (not-nil m)
  all_mem a p (x ∷ xs) h (head e) = subst (λ y. p y ≡ true) (sym e) (ground arith)
  all_mem a p (x ∷ xs) h (tail m) = all_mem a p xs (ground arith) m

  pub take-drop : (n : ℕ) (xs : List A) → take n xs ++ drop n xs ≡ xs
  take-drop zero xs = refl
  take-drop (suc n) [] = refl
  take-drop (suc n) (x ∷ xs) = ap (◌∷◌ x) (take-drop n xs)

  pub any-append : (p : A → Bool) (xs ys : List A) → any p (xs ++ ys) ≡ (any p xs || any p ys)
  any-append p [] ys = refl
  any-append p (x ∷ xs) ys = ground (arith, any-append p xs ys)

  pub all-append : (p : A → Bool) (xs ys : List A) → all p (xs ++ ys) ≡ (all p xs && all p ys)
  all-append p [] ys = refl
  all-append p (x ∷ xs) ys = ground (arith, all-append p xs ys)

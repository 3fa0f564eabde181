-- ===== src/Prelude/Text.antt =====
-- Go strings as lists of bytes: the comparisons and searches of the `strings` package that the
-- source calls.
use Prim.Native.Char.{code}
use Prim.Native.String.{String}
use Prim.Native.Nat.{ℕ, suc}
use mathlib.Core.Path.{◌≡◌, refl}
use mathlib.Core.Logic.{◌↔◌}
use mathlib.Core.Bool.{Bool, true, false, ◌&&◌, ◌||◌}
use mathlib.Core.List.{List, [], ◌∷◌, ◌++◌, reverse}
use mathlib.Core.Option.{Option, none, some}
use native.Mathlib.Omega.{arith}
use infra_lightwight_s3_serv.Prelude.Tests.{◌==◌, ltb, if◌then◌else◌}
use infra_lightwight_s3_serv.Prelude.Lists.{drop, length}

abbrev pub Bytes : Type 0
Bytes = List ℕ

-- The bytes of an ASCII literal.
abbrev pub codes : String → Bytes
codes String.[] = []
codes (String.◌∷◌ c s) = code c ∷ codes s

-- Go's == on strings.
unfoldable pub bytes_eq : Bytes → Bytes → Bool
bytes_eq [] [] = true
bytes_eq [] (y ∷ ys) = false
bytes_eq (x ∷ xs) [] = false
bytes_eq (x ∷ xs) (y ∷ ys) = x == y && bytes_eq xs ys

pub bytes_eq_iff : (a b : Bytes) → (bytes_eq a b ≡ true) ↔ (a ≡ b)
unfolding bytes_eq
bytes_eq_iff [] [] = ground arith
bytes_eq_iff [] (y ∷ ys) = ground arith
bytes_eq_iff (x ∷ xs) [] = ground arith
bytes_eq_iff (x ∷ xs) (y ∷ ys) = ground (arith, bytes_eq_iff xs ys)

pub bytes_eq_refl : (a : Bytes) → bytes_eq a a ≡ true
bytes_eq_refl a = (bytes_eq_iff a a).1 refl

-- strings.HasPrefix s p.
unfoldable pub has_prefix : Bytes → Bytes → Bool
has_prefix s [] = true
has_prefix [] (p ∷ ps) = false
has_prefix (c ∷ cs) (p ∷ ps) = c == p && has_prefix cs ps

-- strings.HasSuffix s p.
unfoldable pub has_suffix : Bytes → Bytes → Bool
unfolding has_prefix
has_suffix s p = has_prefix (reverse s) (reverse p)

-- strings.Contains s p.
unfoldable pub contains : Bytes → Bytes → Bool
unfolding has_prefix
contains [] p = has_prefix [] p
contains (c ∷ cs) p = has_prefix (c ∷ cs) p || contains cs p

-- strings.Index s p.
unfoldable pub index_of : Bytes → Bytes → Option ℕ
unfolding has_prefix
index_of [] p = if has_prefix [] p then some 0 else none
index_of (c ∷ cs) p =
    if has_prefix (c ∷ cs) p
    then some 0
    else elim (index_of cs p) [ none ↦ none | some i ↦ some (suc i) ]

-- The byte order of Go's < and of the C collation.
unfoldable pub bytes_lt : Bytes → Bytes → Bool
bytes_lt [] [] = false
bytes_lt [] (y ∷ ys) = true
bytes_lt (x ∷ xs) [] = false
bytes_lt (x ∷ xs) (y ∷ ys) = ltb x y || (x == y && bytes_lt xs ys)

-- strings.TrimPrefix.
unfoldable pub trim_prefix : Bytes → Bytes → Bytes
unfolding has_prefix
trim_prefix s p = if has_prefix s p then drop (length p) s else s

pub has_prefix-append : (p s : Bytes) → has_prefix (p ++ s) p ≡ true
unfolding has_prefix
has_prefix-append [] s = refl
has_prefix-append (c ∷ p) s = ground (arith, has_prefix-append p s)

pub has_prefix_split : (s p : Bytes) → has_prefix s p ≡ true → (r : Bytes) × (s ≡ p ++ r)
unfolding has_prefix
has_prefix_split s [] h = (s, refl)
has_prefix_split [] (p ∷ ps) h = absurd (cc)
has_prefix_split (c ∷ cs) (p ∷ ps) h =
    let (r, e) = has_prefix_split cs ps (ground arith) in (r, ground arith)

pub has_prefix_trans :
    (s p q : Bytes) → has_prefix s p ≡ true → has_prefix p q ≡ true → has_prefix s q ≡ true
unfolding has_prefix
has_prefix_trans s p [] h k = refl
has_prefix_trans s [] (q ∷ qs) h k = absurd (cc)
has_prefix_trans [] (p ∷ ps) (q ∷ qs) h k = absurd (cc)
has_prefix_trans (c ∷ cs) (p ∷ ps) (q ∷ qs) h k = ground (arith, has_prefix_trans cs ps qs)

-- Two prefixes of one string: one is a prefix of the other.
pub has_prefix_linear :
    (s p q : Bytes)
    → has_prefix s p ≡ true
    → has_prefix s q ≡ true
    → (has_prefix p q || has_prefix q p) ≡ true
unfolding has_prefix
has_prefix_linear s p [] h k = ground arith
has_prefix_linear s [] (q ∷ qs) h k = refl
has_prefix_linear [] (p ∷ ps) (q ∷ qs) h k = absurd (cc)
has_prefix_linear (c ∷ cs) (p ∷ ps) (q ∷ qs) h k = ground (arith, has_prefix_linear cs ps qs)

-- strings.Split at one byte: always at least one field.
unfoldable pub split : ℕ → Bytes → List Bytes
split c [] = [] ∷ []
split c (b ∷ bs) =
    if b == c
    then [] ∷ split c bs
    else elim (split c bs) [ [] ↦ (b ∷ []) ∷ [] | f ∷ fs ↦ (b ∷ f) ∷ fs ]

-- The white space of ASCII.
unfoldable pub is_space : ℕ → Bool
is_space c = c == 32 || (ltb 8 c && ltb c 14)

-- The other white space of Unicode, in the two or three bytes of its UTF-8.
abbrev pub is_space2 : ℕ → ℕ → Bool
is_space2 c d = c == 194 && (d == 133 || d == 160)

abbrev pub is_space3 : ℕ → ℕ → ℕ → Bool
is_space3 c d e =
    (c == 225 && (d == 154 && e == 128))
    || ((c == 226
          && ((d == 128 && ((ltb 127 e && ltb e 139) || (e == 168 || (e == 169 || e == 175))))
              || (d == 129 && e == 159)))
        || (c == 227 && (d == 128 && e == 128)))

-- The string without the white space at its start, given the tests of the wider white space.
unfoldable pub trim_by : (ℕ → ℕ → Bool) → (ℕ → ℕ → ℕ → Bool) → Bytes → Bytes
unfolding is_space
trim_by two three [] = []
trim_by two three (c ∷ []) = if is_space c then [] else c ∷ []
trim_by two three (c ∷ d ∷ []) = elim (is_space c) [
  | true ↦ trim_by two three (d ∷ [])
  | false ↦ if two c d then [] else c ∷ d ∷ []
]
trim_by two three (c ∷ d ∷ e ∷ s) = elim (is_space c) [
  | true ↦ trim_by two three (d ∷ e ∷ s)
  | false ↦ elim (two c d) [
    | true ↦ trim_by two three (e ∷ s)
    | false ↦ elim (three c d e) [ true ↦ trim_by two three s | false ↦ c ∷ d ∷ e ∷ s ]
  ]
]

unfoldable pub trim_left : Bytes → Bytes
unfolding trim_by
trim_left s = trim_by is_space2 is_space3 s

-- The same from the end, where the bytes come in the other order.
unfoldable pub trim_right : Bytes → Bytes
unfolding trim_by
trim_right s = reverse (trim_by (λ d c. is_space2 c d) (λ e d c. is_space3 c d e) (reverse s))

-- strings.TrimSpace.
unfoldable pub trim_space : Bytes → Bytes
unfolding trim_left trim_right
trim_space s = trim_right (trim_left s)

-- ===== src/S3Api/Authorization/Spaces.antt =====
-- strings.TrimSpace on a string without white space, in the bytes of UTF-8.
use mathlib.Core.List.{reverse-reverse, reverse-cons}
use infra_lightwight_s3_serv.Prelude.{
  ℕ, ltb, Bool, true, false, ◌&&◌, ◌||◌, Bytes, [], ◌∷◌, ◌++◌, all, reverse, append_assoc, is_space,
  is_space2, is_space3, trim_by, trim_left, trim_right, trim_space, ◌≡◌, refl, ap, sym, ◌∙◌, arith,
}

-- White space stands at the start of the string.
abbrev pub starts_by : (ℕ → ℕ → Bool) → (ℕ → ℕ → ℕ → Bool) → Bytes → Bool
starts_by two three [] = false
starts_by two three (c ∷ []) = is_space c
starts_by two three (c ∷ d ∷ []) = is_space c || two c d
starts_by two three (c ∷ d ∷ e ∷ s) = is_space c || (two c d || three c d e)

abbrev pub starts_with_space : Bytes → Bool
starts_with_space s = starts_by is_space2 is_space3 s

-- White space stands somewhere in the string.
abbrev pub has_space : Bytes → Bool
has_space [] = false
has_space (c ∷ s) = starts_with_space (c ∷ s) || has_space s

trim_by_nil : (two : ℕ → ℕ → Bool) (three : ℕ → ℕ → ℕ → Bool) → trim_by two three [] ≡ []
unfolding trim_by
trim_by_nil two three = refl

trim_by-unstarted :
    (two : ℕ → ℕ → Bool) (three : ℕ → ℕ → ℕ → Bool) (s : Bytes)
    → starts_by two three s ≡ false
    → trim_by two three s ≡ s
unfolding trim_by
trim_by-unstarted two three [] h = trim_by_nil two three
trim_by-unstarted two three (c ∷ []) h = ground arith
trim_by-unstarted two three (c ∷ d ∷ []) h =
    let e1 : is_space c ≡ false = ground arith in
    let e2 : two c d ≡ false = ground arith in rw (e1, e2, trim_by) refl
trim_by-unstarted two three (c ∷ d ∷ e ∷ s) h =
    let e1 : is_space c ≡ false = ground arith in
    let e2 : two c d ≡ false = ground arith in
    let e3 : three c d e ≡ false = ground arith in rw (e1, e2, e3, trim_by) refl

has_space-append : (r s : Bytes) → has_space (r ++ s) ≡ false → has_space s ≡ false
has_space-append [] s h = h
has_space-append (c ∷ r) s h = has_space-append r s (ground arith)

-- The tests from the end.
abbrev ends_with_space : Bytes → Bool
ends_with_space r = starts_by (λ d c. is_space2 c d) (λ e d c. is_space3 c d e) r

unended : (r : Bytes) → has_space (reverse r) ≡ false → ends_with_space r ≡ false
unended [] h = refl
unended (c ∷ []) h = ground arith
unended (c ∷ d ∷ []) h = ground arith
unended (c ∷ d ∷ e ∷ r) h =
    let split : reverse (c ∷ d ∷ e ∷ r) ≡ reverse r ++ (e ∷ d ∷ c ∷ []) =
      reverse-cons c (d ∷ e ∷ r)
      ∙ ap (λ x. x ++ (c ∷ []))
          (reverse-cons d (e ∷ r) ∙ ap (λ x. x ++ (d ∷ [])) (reverse-cons e r))
      ∙ ap (λ x. x ++ (c ∷ [])) (append_assoc (reverse r) (e ∷ []) (d ∷ []))
      ∙ append_assoc (reverse r) (e ∷ d ∷ []) (c ∷ []) in
    let last = has_space-append (reverse r) (e ∷ d ∷ c ∷ []) (sym (ap has_space split) ∙ h) in
    ground arith

unstarted : (s : Bytes) → has_space s ≡ false → starts_with_space s ≡ false
unstarted [] h = refl
unstarted (c ∷ s) h = ground arith

pub trim_space-solid : (s : Bytes) → has_space s ≡ false → trim_space s ≡ s
unfolding trim_space trim_left trim_right
trim_space-solid s h =
    ap trim_right (trim_by-unstarted is_space2 is_space3 s (unstarted s h))
    ∙ ap reverse (
        trim_by-unstarted (λ d c. is_space2 c d) (λ e d c. is_space3 c d e) (reverse s)
          (unended (reverse s) (ap has_space (reverse-reverse s) ∙ h)))
    ∙ reverse-reverse s

pub trim_space-blank : (s : Bytes) → trim_space (32 ∷ s) ≡ trim_space s
unfolding trim_space trim_left trim_by is_space
trim_space-blank [] = refl
trim_space-blank (c ∷ []) = refl
trim_space-blank (c ∷ d ∷ s) = refl

-- A visible byte of ASCII.
abbrev pub visible : ℕ → Bool
visible c = ltb 32 c && ltb c 128

visible-first : (c : ℕ) (s : Bytes) → visible c ≡ true → starts_with_space (c ∷ s) ≡ false
unfolding is_space
visible-first c [] h = ground arith
visible-first c (d ∷ []) h = ground arith
visible-first c (d ∷ e ∷ s) h = ground arith

pub has_space-visible :
    (name s : Bytes) → all visible name ≡ true → has_space (name ++ s) ≡ has_space s
has_space-visible [] s h = refl
has_space-visible (c ∷ name) s h =
    ground (arith, visible-first c (name ++ s), has_space-visible name s)

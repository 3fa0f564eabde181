-- ===== src/Db/Listing/Groups.antt =====
-- internal/db/listing.go: the common prefix of a key.
use infra_lightwight_s3_serv.Prelude.{
  ◌≤◌, ◌==◌, length-append, ℕ, suc, ◌+◌, true, false, ◌&&◌, Bytes, [], ◌∷◌, ◌++◌, bytes_eq,
  has_prefix, trim_prefix, index_of, contains, take, length, none, some, ◌≡◌, refl, arith,
  Bool-cases, Option-cases, ◌⊎◌, inl, inr, has_prefix_split, has_prefix-append, drop-append,
  take-append, append_assoc, ap, ◌∙◌, sym, subst,
}
use infra_lightwight_s3_serv.Db.Listing.{group_of}

trim_prefix-append : (p r : Bytes) → trim_prefix (p ++ r) p ≡ r
unfolding trim_prefix
trim_prefix-append p r = rw (has_prefix-append p r) (drop-append p r)

take_prefix : (d t : Bytes) → take (0 + length d) (d ++ t) ≡ d
take_prefix d t = subst (λ n. take n (d ++ t) ≡ d) (omega arith) (take-append d t)

take-suc : (i n c : ℕ) (s : Bytes) → take (suc i + n) (c ∷ s) ≡ c ∷ take (i + n) s
take-suc i n c s =
    subst (λ m. take m (c ∷ s) ≡ c ∷ take (i + n) s) {x = suc (i + n)} (omega arith) refl

-- The first occurrence, if there is one.
index_of_cases :
    (s d : Bytes)
    → ((r : Bytes) × (t : Bytes) × (index_of s d ≡ some (length r))
        × (s ≡ (r ++ d) ++ t)
        × (take (length r + length d) s ≡ r ++ d))
      ⊎ ((index_of s d ≡ none) × (contains s d ≡ false))
unfolding index_of contains has_prefix
index_of_cases [] [] = inl ([], [], refl, refl, refl)
index_of_cases [] (x ∷ d) = inr (refl, refl)
index_of_cases (c ∷ s) d = elim (Bool-cases (has_prefix (c ∷ s) d)) [
  | inl e ↦
      let (t, at) = has_prefix_split (c ∷ s) d e in
      inl ([], t, rw e refl, at, rw at (take_prefix d t))
  | inr e ↦ elim (index_of_cases s d) [
    | inl (r, t, f, at, g) ↦
        inl (
          c ∷ r,
          t,
          rw (e, f) refl,
          ap (◌∷◌ c) at,
          take-suc (length r) (length d) c s ∙ ap (◌∷◌ c) g,
        )
    | inr (f, g) ↦ inr (rw (e, f) refl, rw (e, g) refl)
  ]
]

-- Where the delimiter is not empty, a key that has the requested prefix either rolls up into a group
-- or stays an entry of its own. The group is the prefix, some bytes and the delimiter, and the key
-- starts with it; the bytes that follow the prefix in a key that stays do not contain the delimiter.
pub group_of_cases :
    (key prefix delimiter : Bytes)
    → has_prefix key prefix ≡ true
    → bytes_eq delimiter [] ≡ false
    → ((g : Bytes) × (r : Bytes) × (t : Bytes) × (group_of key prefix delimiter ≡ some g)
        × (g ≡ prefix ++ (r ++ delimiter))
        × (key ≡ g ++ t))
      ⊎ ((r : Bytes) × (group_of key prefix delimiter ≡ none)
          × (key ≡ prefix ++ r)
          × (contains r delimiter ≡ false))
unfolding group_of
group_of_cases key prefix delimiter h d =
    let (rest, e) = has_prefix_split key prefix h in
    let trimmed : trim_prefix key prefix ≡ rest =
      ap (λ k. trim_prefix k prefix) e ∙ trim_prefix-append prefix rest in
    elim (index_of_cases rest delimiter) [
      | inl (r, t, f, at, g) ↦ inl (
        prefix ++ (r ++ delimiter),
        r,
        t,
        rw (d, trimmed, f, trimmed, g) refl,
        refl,
        e ∙ ap (◌++◌ prefix) at ∙ sym (append_assoc prefix (r ++ delimiter) t),
      )
      | inr (f, g) ↦ inr (rest, rw (d, trimmed, f) refl, e, g)
    ]

-- A test of a prefix reads no further than the prefix is long.
has_prefix_cut :
    (x t u d : Bytes) → length d ≤ length x → has_prefix (x ++ t) d ≡ has_prefix (x ++ u) d
unfolding has_prefix
has_prefix_cut x t u [] h = refl
has_prefix_cut [] t u (e ∷ d) h = absurd (omega arith)
has_prefix_cut (c ∷ x) t u (e ∷ d) h = ap (λ b. c == e && b) (has_prefix_cut x t u d (omega arith))

index_of_here : (s d : Bytes) → has_prefix s d ≡ true → index_of s d ≡ some 0
unfolding index_of
index_of_here [] d h = rw h
index_of_here (c ∷ s) d h = rw h

-- Where the delimiter first stands does not depend on what follows it.
index_of_again :
    (r d t u : Bytes)
    → index_of ((r ++ d) ++ t) d ≡ some (length r)
    → index_of ((r ++ d) ++ u) d ≡ some (length r)
unfolding index_of
index_of_again [] d t u h = index_of_here (d ++ u) d (has_prefix-append d u)
index_of_again (c ∷ r) d t u h =
    let same = has_prefix_cut (c ∷ (r ++ d)) t u d (omega (arith, length-append r d)) in
    elim (Bool-cases (has_prefix (c ∷ ((r ++ d) ++ u)) d)) [
      | inl e ↦ absurd (cc (rw (same ∙ e) at h))
      | inr e ↦ elim (Option-cases (index_of ((r ++ d) ++ t) d)) [
        | inl n ↦ absurd (cc (rw (same ∙ e, n) at h))
        | inr (i, n) ↦
            let at : index_of ((r ++ d) ++ t) d ≡ some (length r) =
              n ∙ cc (rw (same ∙ e, n) at h) in
            rw (e, index_of_again r d t u at)
      ]
    ]

group_of-append :
    (prefix rest delimiter r : Bytes)
    → bytes_eq delimiter [] ≡ false
    → index_of rest delimiter ≡ some (length r)
    → take (length r + length delimiter) rest ≡ r ++ delimiter
    → group_of (prefix ++ rest) prefix delimiter ≡ some (prefix ++ (r ++ delimiter))
unfolding group_of
group_of-append prefix rest delimiter r d f g =
    let trimmed = trim_prefix-append prefix rest in rw (d, trimmed, f, trimmed, g) refl

take_both : (r d u : Bytes) → take (length r + length d) ((r ++ d) ++ u) ≡ r ++ d
take_both r d u =
    subst (λ n. take n ((r ++ d) ++ u) ≡ r ++ d) (length-append r d) (take-append (r ++ d) u)

-- Every key that starts with a group rolls up into it.
pub group_of-extend :
    (k m prefix delimiter g : Bytes)
    → has_prefix k prefix ≡ true
    → group_of k prefix delimiter ≡ some g
    → has_prefix m g ≡ true
    → group_of m prefix delimiter ≡ some g
unfolding group_of
group_of-extend k m prefix delimiter g h e p =
    let (rest, ek) = has_prefix_split k prefix h in
    let e' = subst (λ x. group_of x prefix delimiter ≡ some g) ek e in
    let (u, em) = has_prefix_split m g p in
    elim (Bool-cases (bytes_eq delimiter [])) [
      | inl d ↦ absurd (cc (rw (d, group_of) at e))
      | inr d ↦ elim (index_of_cases rest delimiter) [
        | inr (n, f) ↦ absurd (cc (rw (d, trim_prefix-append prefix rest, n, group_of) at e'))
        | inl (r, t, f, at, q) ↦
            let same : prefix ++ (r ++ delimiter) ≡ g =
              cc (group_of-append prefix rest delimiter r d f q, e') in
            let split_m : m ≡ prefix ++ ((r ++ delimiter) ++ u) =
              em ∙ ap (λ x. x ++ u) (sym same) ∙ append_assoc prefix (r ++ delimiter) u in
            let found =
              index_of_again r delimiter t u
                (subst (λ x. index_of x delimiter ≡ some (length r)) at f) in
            subst (λ x. group_of x prefix delimiter ≡ some g) (sym split_m)
              (group_of-append prefix ((r ++ delimiter) ++ u) delimiter r d found
                  (take_both r delimiter u)
                ∙ ap some same)
      ]
    ]

pub group_of-has_prefix :
    (k prefix delimiter g : Bytes)
    → has_prefix k prefix ≡ true
    → group_of k prefix delimiter ≡ some g
    → has_prefix k g ≡ true
unfolding group_of
group_of-has_prefix k prefix delimiter g h e = elim (Bool-cases (bytes_eq delimiter [])) [
  | inl d ↦ absurd (cc (rw d at e))
  | inr d ↦ elim (group_of_cases k prefix delimiter h d) [
    | inr (r, n, at, f) ↦ absurd (cc (e, n))
    | inl (g', r, t, n, at, f) ↦
        let same : g' ≡ g = cc (e, n) in
        subst (λ x. has_prefix k x ≡ true) same
          (subst (λ x. has_prefix x g' ≡ true) (sym f) (has_prefix-append g' t))
  ]
]

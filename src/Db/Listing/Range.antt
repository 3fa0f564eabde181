-- ===== src/Db/Listing/Range.antt =====
-- internal/db/listing.go: the range of keys of a batch.
use infra_lightwight_s3_serv.Prelude.{
  ℕ, suc, ltb, true, false, not, ◌&&◌, Bytes, [], ◌∷◌, ◌++◌, bytes_eq, bytes_lt, has_prefix, all,
  any, Option, none, some, ◌≡◌, ◌↔◌, refl, arith, Bool-cases, Option-cases, ◌⊎◌, inl, inr, ap,
}
use infra_lightwight_s3_serv.Db.Rows.{Object}
use infra_lightwight_s3_serv.Db.Listing.{
  highest_rune, raised_head, raise_last, prefix_upper_bound, selected,
}

pub bytes_lt_nil : (s : Bytes) → bytes_lt s [] ≡ false
unfolding bytes_lt
bytes_lt_nil [] = refl
bytes_lt_nil (c ∷ s) = refl

raised_head-none :
    (c : ℕ) (o : Option Bytes) → raised_head c o ≡ none → (o ≡ none) × (ltb c 255 ≡ false)
unfolding raised_head
raised_head-none c (some t) h = absurd (cc)
raised_head-none c none h = (refl, ground arith)

raised_head-some :
    (c : ℕ) (o : Option Bytes) (bound : Bytes)
    → raised_head c o ≡ some bound
    → ((t : Bytes) × (o ≡ some t) × (bound ≡ c ∷ t))
      ⊎ ((o ≡ none) × (ltb c 255 ≡ true) × (bound ≡ suc c ∷ []))
unfolding raised_head
raised_head-some c (some t) bound h = inl (t, refl, cc)
raised_head-some c none bound h = elim (Bool-cases (ltb c 255)) [
  | inl e ↦ inr (refl, e, ground arith)
  | inr e ↦ absurd (ground arith)
]

-- No byte can be raised: what is not below the prefix starts with it.
unraised_prefix :
    (p key : Bytes)
    → raise_last p ≡ none
    → all (λ c. ltb c 256) key ≡ true
    → (has_prefix key p ≡ true) ↔ (bytes_lt key p ≡ false)
unfolding has_prefix bytes_lt raise_last
unraised_prefix [] key h k = ((λ _. bytes_lt_nil key), (λ _. refl))
unraised_prefix (c ∷ s) [] h k = ground arith
unraised_prefix (c ∷ s) (d ∷ t) h k =
    let (h1, h2) = raised_head-none c (raise_last s) h in ground (arith, unraised_prefix s t h1)

raised_prefix :
    (p key bound : Bytes)
    → raise_last p ≡ some bound
    → all (λ c. ltb c 256) key ≡ true
    → (has_prefix key p ≡ true) ↔ ((bytes_lt key p ≡ false) × (bytes_lt key bound ≡ true))
unfolding has_prefix bytes_lt raise_last
raised_prefix [] key bound h k = absurd (cc)
raised_prefix (c ∷ s) [] bound h k = ground arith
raised_prefix (c ∷ s) (d ∷ t) bound h k = elim (raised_head-some c (raise_last s) bound h) [
  | inl (u, e, b) ↦ rw b (ground (arith, raised_prefix s t u e))
  | inr (e, l, b) ↦ rw b (ground (arith, unraised_prefix s t e, bytes_lt_nil t))
]

raise_last-any : (p : Bytes) → raise_last p ≡ none → any (λ c. ltb c 255) p ≡ false
unfolding raise_last
raise_last-any [] h = refl
raise_last-any (c ∷ s) h =
    let (h1, h2) = raised_head-none c (raise_last s) h in ground (arith, raise_last-any s h1)

prefix_upper_bound-some :
    (p bound : Bytes) → raise_last p ≡ some bound → prefix_upper_bound p ≡ bound
unfolding prefix_upper_bound
prefix_upper_bound-some p bound h =
    ap (λ o. elim o as (λ _. Bytes) [ some b ↦ b | none ↦ p ++ highest_rune ]) h

in_range :
    (prefix key : Bytes)
    → any (λ c. ltb c 255) prefix ≡ true
    → all (λ c. ltb c 256) key ≡ true
    → (not (bytes_lt key prefix) && bytes_lt key (prefix_upper_bound prefix))
      ≡ has_prefix key prefix
in_range prefix key h k = elim (Option-cases (raise_last prefix)) [
  | inl e ↦ absurd (cc (h, raise_last-any prefix e))
  | inr (bound, e) ↦
      rw (prefix_upper_bound-some prefix bound e)
        (ground (arith, raised_prefix prefix key bound e k))
]

-- The range comparison selects just the keys with the prefix, for a prefix with a byte below 255 and
-- a key of bytes.
pub selected-has_prefix :
    (bucket prefix after : Bytes) (o : Object)
    → any (λ c. ltb c 255) prefix ≡ true
    → all (λ c. ltb c 256) o.key ≡ true
    → selected bucket prefix after o
      ≡ (bytes_eq o.bucket_id bucket && bytes_lt after o.key && has_prefix o.key prefix)
unfolding selected bytes_eq
selected-has_prefix bucket [] after o h k = absurd (cc)
selected-has_prefix bucket (c ∷ s) after o h k = rw (in_range (c ∷ s) o.key h k) refl

-- ===== src/S3Api/Authorize/Listings.antt =====
-- What a listing shows against what a read allows.
use infra_lightwight_s3_serv.Prelude.{
  Bool, true, false, not, ◌&&◌, ◌||◌, Bytes, List, [], ◌∷◌, ◌++◌, bytes_eq, bytes_eq_iff,
  has_prefix, any, Option, none, some, ◌≡◌, refl, arith, Bool-cases, inl, inr, has_prefix_linear,
  has_prefix_trans, ◌∙◌, ap,
}
use infra_lightwight_s3_serv.Db.Grants.{
  read, Grant, GrantRule, allows, grants, covers, collect_prefixes, readable_prefixes,
}
use infra_lightwight_s3_serv.S3Api.Authorize.{
  ListingLimit, limit_of, listing_limit_for, allows_key, allows_common_prefix, narrow, narrow_to,
}

any-append :
    {A : Type 0} (p : A → Bool) (xs ys : List A) → any p (xs ++ ys) ≡ (any p xs || any p ys)
any-append p [] ys = refl
any-append p (x ∷ xs) ys = ground (arith, any-append p xs ys)

any_listed :
    (key p : Bytes) (ps : List Bytes)
    → any (λ q. bytes_eq q p) ps ≡ true
    → has_prefix key p ≡ true
    → any (λ q. has_prefix key q) ps ≡ true
any_listed key p [] h k = h
any_listed key p (q ∷ qs) h k = ground (arith, bytes_eq_iff q p, any_listed key p qs)

shows : Option (List Bytes) → Bytes → Bool
unfolding limit_of allows_key
shows o key = allows_key (limit_of o) key

shows-none : (key : Bytes) → shows none key ≡ true
unfolding shows
shows-none key = refl

shows-some : (ps : List Bytes) (key : Bytes) → shows (some ps) key ≡ any (λ p. has_prefix key p) ps
unfolding shows
shows-some ps key = refl

covers_empty :
    (r : GrantRule) (key : Bytes) → bytes_eq r.prefix [] ≡ true → has_prefix key r.prefix ≡ true
unfolding has_prefix
covers_empty r key h = rw ((bytes_eq_iff r.prefix []).0 h)

abbrev rule_shows : Bytes → Bytes → GrantRule → Bool
rule_shows bucket key r = bytes_eq r.bucket bucket && covers r key && grants r read

-- One rule of the loop, by its four branches.
module _ (bucket key : Bytes) (r : GrantRule) (rs : List GrantRule) (ps : List Bytes) where
  collect_skip :
      not (bytes_eq r.bucket bucket) || not (grants r read) ≡ true
      → collect_prefixes bucket (r ∷ rs) ps ≡ collect_prefixes bucket rs ps
  unfolding collect_prefixes
  collect_skip h = rw h

  collect_all :
      not (bytes_eq r.bucket bucket) || not (grants r read) ≡ false
      → bytes_eq r.prefix [] ≡ true
      → collect_prefixes bucket (r ∷ rs) ps ≡ none
  unfolding collect_prefixes
  collect_all h e = rw (h, e)

  collect_new :
      not (bytes_eq r.bucket bucket) || not (grants r read) ≡ false
      → bytes_eq r.prefix [] ≡ false
      → any (λ p. bytes_eq p r.prefix) ps ≡ false
      → collect_prefixes bucket (r ∷ rs) ps ≡ collect_prefixes bucket rs (ps ++ r.prefix ∷ [])
  unfolding collect_prefixes
  collect_new h e m = rw (h, e, m)

  collect_old :
      not (bytes_eq r.bucket bucket) || not (grants r read) ≡ false
      → bytes_eq r.prefix [] ≡ false
      → any (λ p. bytes_eq p r.prefix) ps ≡ true
      → collect_prefixes bucket (r ∷ rs) ps ≡ collect_prefixes bucket rs ps
  unfolding collect_prefixes
  collect_old h e m = rw (h, e, m)

-- The prefixes collected so far, or the rules still to come, let the key through.
shows-collect :
    (bucket key : Bytes) (rs : List GrantRule) (ps : List Bytes)
    → shows (collect_prefixes bucket rs ps) key
      ≡ (any (λ p. has_prefix key p) ps || any (rule_shows bucket key) rs)
shows-collect bucket key [] ps = unfold collect_prefixes in (shows-some ps key ∙ ground arith)
shows-collect bucket key (r ∷ rs) ps =
    elim (Bool-cases (not (bytes_eq r.bucket bucket) || not (grants r read))) [
      | inl h ↦
          ap (λ o. shows o key) (collect_skip bucket key r rs ps h)
          ∙ shows-collect bucket key rs ps
          ∙ ground arith
      | inr h ↦ elim (Bool-cases (bytes_eq r.prefix [])) [
        | inl e ↦
            let c : covers r key ≡ true = unfold covers in covers_empty r key e in
            ap (λ o. shows o key) (collect_all bucket key r rs ps h e)
            ∙ shows-none key
            ∙ ground arith
        | inr e ↦ elim (Bool-cases (any (λ p. bytes_eq p r.prefix) ps)) [
          | inl m ↦
              ap (λ o. shows o key) (collect_old bucket key r rs ps h e m)
              ∙ shows-collect bucket key rs ps
              ∙ unfold covers in ground (arith, any_listed key r.prefix ps m)
          | inr m ↦
              ap (λ o. shows o key) (collect_new bucket key r rs ps h e m)
              ∙ shows-collect bucket key rs (ps ++ r.prefix ∷ [])
              ∙ unfold covers in
                ground (arith, any-append (λ p. has_prefix key p) ps (r.prefix ∷ []))
        ]
      ]
    ]

limit_shows : (o : Option (List Bytes)) (key : Bytes) → allows_key (limit_of o) key ≡ shows o key
unfolding shows
limit_shows o key = refl

grant_shows :
    (g : Grant) (bucket key : Bytes)
    → shows (readable_prefixes g bucket) key ≡ allows g bucket key read
unfolding readable_prefixes allows
grant_shows g bucket key = elim (Bool-cases g.unrestricted) [
  | inl e ↦ rw e (shows-none key)
  | inr e ↦ rw e (shows-collect bucket key g.rules [])
]

-- A key is shown in a listing exactly when the caller may read it: with an identity, when its grant
-- allows the read; without one, always.
pub allows_key-allows :
    (g : Grant) (bucket key : Bytes)
    → (allows_key (listing_limit_for (some g) bucket) key ≡ allows g bucket key read)
      × (allows_key (listing_limit_for none bucket) key ≡ true)
unfolding listing_limit_for allows_key
allows_key-allows g bucket key =
    (limit_shows (readable_prefixes g bucket) key ∙ grant_shows g bucket key, refl)

common_any :
    (key common : Bytes) (ps : List Bytes)
    → has_prefix key common ≡ true
    → any (λ p. has_prefix key p) ps ≡ true
    → any (λ p. has_prefix common p || has_prefix p common) ps ≡ true
common_any key common [] h k = k
common_any key common (p ∷ ps) h k = elim (Bool-cases (has_prefix key p)) [
  | inl e ↦ rw (has_prefix_linear key common p h e)
  | inr e ↦ ground (arith, common_any key common ps h)
]

-- A rolled-up prefix is shown whenever some key under it would be.
pub allows_common_prefix-allows_key :
    (l : ListingLimit) (common key : Bytes)
    → has_prefix key common ≡ true
    → allows_key l key ≡ true
    → allows_common_prefix l common ≡ true
unfolding allows_common_prefix allows_key
allows_common_prefix-allows_key l common key h k = elim (Bool-cases l.unrestricted) [
  | inl e ↦ rw e
  | inr e ↦ rw e (common_any key common l.prefixes h (rw e at k))
]

narrow_to_sound :
    (ps : List Bytes) (requested key : Bytes)
    → (any (λ p. has_prefix key p) ps && has_prefix key requested)
      ≡ (any (λ p. has_prefix key p) ps && has_prefix key (narrow_to ps requested))
unfolding narrow_to
narrow_to_sound [] requested key = refl
narrow_to_sound (only ∷ []) requested key = ground (arith, has_prefix_trans key only requested)
narrow_to_sound (p ∷ q ∷ ps) requested key = refl

-- Scanning the narrowed prefix and filtering shows the same keys as scanning the requested one and
-- filtering.
pub narrow_sound :
    (l : ListingLimit) (requested key : Bytes)
    → (allows_key l key && has_prefix key requested)
      ≡ (allows_key l key && has_prefix key (narrow l requested))
unfolding narrow allows_key
narrow_sound l requested key = elim (Bool-cases l.unrestricted) [
  | inl e ↦ rw e
  | inr e ↦ rw e (narrow_to_sound l.prefixes requested key)
]

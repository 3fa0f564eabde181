-- ===== src/S3Api/Authorize/Levels.antt =====
-- How the three checks of a grant relate.
use infra_lightwight_s3_serv.Prelude.{
  Bool, implies, implies-true, true, ◌&&◌, Bytes, List, [], ◌∷◌, bytes_eq, bytes_eq_iff, has_prefix,
  any, ltb, length, ◌≡◌, refl, arith, Bool-cases, inl, inr,
}
use infra_lightwight_s3_serv.Db.Grants.{
  Permission, Grant, GrantRule, allows, allows_anywhere_in, allows_whole_bucket, visible, grants,
  covers, same_permission,
}

any_mono {ℓ} :
    {A : Type ℓ} (p q : A → Bool) (xs : List A)
    → ((x : A) → p x ≡ true → q x ≡ true)
    → any p xs ≡ true
    → any q xs ≡ true
any_mono p q [] h k = k
any_mono p q (x ∷ xs) h k = elim (Bool-cases (p x)) [
  | inl e ↦ rw (h x e)
  | inr e ↦ ground (arith, any_mono p q xs h)
]

covers_whole : (r : GrantRule) (key : Bytes) → bytes_eq r.prefix [] ≡ true → covers r key ≡ true
unfolding covers has_prefix
covers_whole r key h = rw ((bytes_eq_iff r.prefix []).0 h)

any_nonempty :
    {A : Type 0} (p : A → Bool) (xs : List A) → any p xs ≡ true → ltb 0 (length xs) ≡ true
any_nonempty p [] h = absurd (cc)
any_nonempty p (x ∷ xs) h = ground arith

grants_some :
    (r : GrantRule) (perm : Permission) → grants r perm ≡ true → ltb 0 (length r.permissions) ≡ true
unfolding grants
grants_some r perm h = any_nonempty (λ q. same_permission q perm) r.permissions h

-- The three checks are nested: what a grant allows on a whole bucket it allows on each of its keys,
-- what it allows on some key it allows somewhere in the bucket, and a bucket in which it allows
-- anything is visible.
pub grant_levels :
    (g : Grant) (bucket key : Bytes) (perm : Permission)
    → (implies (allows_whole_bucket g bucket perm) (allows g bucket key perm) ≡ true)
      × (implies (allows g bucket key perm) (allows_anywhere_in g bucket perm) ≡ true)
      × (implies (allows_anywhere_in g bucket perm) (visible g bucket) ≡ true)
unfolding allows_whole_bucket allows allows_anywhere_in visible
grant_levels g bucket key perm = elim (Bool-cases g.unrestricted) [
  | inl e ↦ rw e (refl, refl, refl)
  | inr e ↦ rw e (
    implies-true _ _ (
        any_mono
          (λ (r : GrantRule). bytes_eq r.bucket bucket && bytes_eq r.prefix [] && grants r perm)
          (λ (r : GrantRule). bytes_eq r.bucket bucket && covers r key && grants r perm) g.rules
          (λ r h. ground (arith, covers_whole r key))),
    implies-true _ _ (
        any_mono (λ (r : GrantRule). bytes_eq r.bucket bucket && covers r key && grants r perm)
          (λ (r : GrantRule). bytes_eq r.bucket bucket && grants r perm) g.rules
          (λ r h. ground arith)),
    implies-true _ _ (
        any_mono (λ (r : GrantRule). bytes_eq r.bucket bucket && grants r perm)
          (λ (r : GrantRule). bytes_eq r.bucket bucket && ltb 0 (length r.permissions)) g.rules
          (λ r h. ground (arith, grants_some r perm))),
  )
]

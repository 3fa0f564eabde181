-- ===== src/Db/Grants/Validation.antt =====
-- grants.go: which grants Validate accepts.
use infra_lightwight_s3_serv.Prelude.{
  ℕ, ◌+◌, ltb, ◌==◌, Bool, true, false, not, ◌&&◌, List, [], ◌∷◌, bytes_eq, all, length, ◌≡◌, refl,
  Result, ok, err, if◌then◌else◌, Bool-cases, inl, inr, ◌∙◌,
}
use infra_lightwight_s3_serv.Db.Grants.{
  Permission, valid_permission, GrantRule, Grant, GrantError, first_invalid, validate_rule,
  validate_rules, validate,
}

-- A rule names a bucket of at most 63 bytes and some permissions, each a known one.
abbrev pub sound_rule : GrantRule → Bool
sound_rule r =
    not (bytes_eq r.bucket [])
    && not (ltb 63 (length r.bucket))
    && not (length r.permissions == 0)
    && all valid_permission r.permissions

abbrev pub accepted : Result GrantError (Unit {0}) → Bool
accepted (ok u) = true
accepted (err e) = false

accepted-first_invalid :
    (i : ℕ) (ps : List Permission) → accepted (first_invalid i ps) ≡ all valid_permission ps
unfolding first_invalid
accepted-first_invalid i [] = refl
accepted-first_invalid i (p ∷ ps) = elim (Bool-cases (valid_permission p)) [
  | inl e ↦ rw e (accepted-first_invalid i ps)
  | inr e ↦ rw e refl
]

accepted-validate_rule : (i : ℕ) (r : GrantRule) → accepted (validate_rule i r) ≡ sound_rule r
unfolding validate_rule
accepted-validate_rule i r = elim (Bool-cases (bytes_eq r.bucket [])) [
  | inl e ↦ rw e refl
  | inr e ↦ elim (Bool-cases (ltb 63 (length r.bucket))) [
    | inl k ↦ rw (e, k) refl
    | inr k ↦ elim (Bool-cases (length r.permissions == 0)) [
      | inl l ↦ rw (e, k, l) refl
      | inr l ↦ rw (e, k, l) (accepted-first_invalid i r.permissions)
    ]
  ]
]

accepted_both :
    (m rest : Result GrantError (Unit {0}))
    → accepted (elim m as (λ _. Result GrantError (Unit {0})) [ ok u ↦ rest | err e ↦ err e ])
      ≡ (accepted m && accepted rest)
accepted_both (ok u) rest = refl
accepted_both (err e) rest = refl

accepted-validate_rules :
    (i : ℕ) (rs : List GrantRule) → accepted (validate_rules i rs) ≡ all sound_rule rs
unfolding validate_rules
accepted-validate_rules i [] = refl
accepted-validate_rules i (r ∷ rs) =
    accepted_both (validate_rule i r) (validate_rules (i + 1) rs)
    ∙ rw (accepted-validate_rule i r, accepted-validate_rules (i + 1) rs) refl

-- A grant is accepted just if it is unrestricted and has no rules, or is not and each of its rules
-- names a bucket of at most 63 bytes and at least one permission, all of them known ones.
pub accepted-validate :
    (g : Grant)
    → accepted (validate g)
      ≡ (if g.unrestricted then not (ltb 0 (length g.rules)) else all sound_rule g.rules)
unfolding validate
accepted-validate g = elim (Bool-cases g.unrestricted) [
  | inl e ↦ elim (Bool-cases (ltb 0 (length g.rules))) [
    | inl k ↦ rw (e, k) refl
    | inr k ↦ rw (e, k) refl
  ]
  | inr e ↦ rw e (accepted-validate_rules 1 g.rules)
]

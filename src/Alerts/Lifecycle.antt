-- ===== src/Alerts/Lifecycle.antt =====
-- internal/db/alerts.go: one live alert for a rule, and how an alert comes and goes.
use infra_lightwight_s3_serv.Prelude.{
  ℕ, ◌≤◌, ◌==◌, Bool, true, false, Bytes, List, [], ◌∷◌, map, bytes_eq, bytes_eq_iff, any, find,
  find-none-any, upsert, update, weight, weight-upsert, some, Result, ok, err, if◌then◌else◌, ◌≡◌,
  refl, arith, Bool-cases, Option-cases, inl, inr, subst,
}
use infra_lightwight_s3_serv.Alerts.{
  AlertState, firing, acknowledged, resolved, Alert, AlertTables, AlertError, Draft, is_resolved,
  is_firing, live_for, with_id, raised_alert, seen_again, raise_alert, close_alert, resolve_alert,
  is_open, acknowledge_alert, mark_alert_notified, tables_after,
}

-- 1 where the alert is a live one of the rule.
abbrev pub live_weight : Bytes → Alert → ℕ
live_weight rule_id a = if live_for rule_id a then 1 else 0

-- No rule has two live alerts.
abbrev pub OneLive : AlertTables → Type 0
OneLive t = (rule_id : Bytes) → weight (live_weight rule_id) t.alerts ≤ 1

module _ (w : Alert → ℕ) (f : Alert → Alert) where
  weight-map-le :
      (as' : List Alert) → ((a : Alert) → w (f a) ≤ w a) → weight w (map f as') ≤ weight w as'
  unfolding weight
  weight-map-le [] h = omega arith
  weight-map-le (a ∷ as') h = omega (arith, h a, weight-map-le as' h)

  weight-update :
      (p : Alert → Bool) (as' : List Alert)
      → ((a : Alert) → p a ≡ true → w (f a) ≡ w a)
      → weight w (update p f as') ≡ weight w as'
  unfolding weight update
  weight-update p [] h = refl
  weight-update p (a ∷ as') h = elim (Bool-cases (p a)) [
    | inl e ↦ rw e (omega (arith, h a e))
    | inr e ↦ rw e (omega (arith, weight-update p as' h))
  ]

none_live :
    (rule_id : Bytes) (as' : List Alert)
    → any (live_for rule_id) as' ≡ false
    → weight (live_weight rule_id) as' ≡ 0
unfolding weight
none_live rule_id [] h = refl
none_live rule_id (a ∷ as') h = ground (arith, none_live rule_id as')

weight_live_le : (rule_id : Bytes) (a : Alert) → live_weight rule_id a ≤ 1
weight_live_le rule_id a = ground arith

other_rule :
    (now id : ℕ) (rule_id q : Bytes) (d : Draft)
    → bytes_eq rule_id q ≡ false
    → live_weight q (raised_alert now id rule_id d) ≡ 0
unfolding raised_alert
other_rule now id rule_id q d h = rw h refl

raised_weight :
    (now id : ℕ) (rule_id q : Bytes) (d : Draft) (as' : List Alert)
    → weight (live_weight q) as' ≤ 1
    → weight
        (live_weight q)
        (upsert (live_for rule_id) (raised_alert now id rule_id d) (seen_again now d) as')
      ≤ 1
unfolding seen_again
raised_weight now id rule_id q d as' h =
    let total =
      weight-upsert (live_weight q) (live_for rule_id) (raised_alert now id rule_id d)
        (seen_again now d) as' in
    elim (Option-cases (find (live_for rule_id) as')) [
      | inr (a, e) ↦ omega (arith, (rw e at total))
      | inl e ↦ elim (Bool-cases (bytes_eq rule_id q)) [
        | inr k ↦ omega (arith, (rw e at total), other_rule now id rule_id q d k)
        | inl k ↦
            let absent : weight (live_weight q) as' ≡ 0 =
              subst (λ x. weight (live_weight x) as' ≡ 0) ((bytes_eq_iff rule_id q).0 k)
                (none_live rule_id as' (find-none-any (live_for rule_id) as' e)) in
            omega (arith, (rw e at total), absent, weight_live_le q (raised_alert now id rule_id d))
      ]
    ]

pub raise_alert-OneLive :
    (now : ℕ) (rule_id : Bytes) (d : Draft) (t : AlertTables)
    → OneLive t
    → OneLive (tables_after t (raise_alert now rule_id d t))
unfolding raise_alert tables_after
raise_alert-OneLive now rule_id d t one q = elim (Bool-cases (any (with_id rule_id) t.rules)) [
  | inr e ↦ rw e (one q)
  | inl e ↦ rw e (raised_weight now t.next_id rule_id q d t.alerts (one q))
]

closed_weight :
    (now : ℕ) (rule_id q : Bytes) (a : Alert)
    → live_weight q (close_alert now rule_id a) ≤ live_weight q a
closed_weight now rule_id q a = elim (Bool-cases (live_for rule_id a)) [
  | inl e ↦ rw e (ground arith)
  | inr e ↦ rw e (omega arith)
]

pub resolve_alert-OneLive :
    (now : ℕ) (rule_id : Bytes) (t : AlertTables)
    → OneLive t
    → OneLive (resolve_alert now rule_id t).1
unfolding resolve_alert
resolve_alert-OneLive now rule_id t one q = omega (
  arith,
  weight-map-le (live_weight q) (close_alert now rule_id) t.alerts (closed_weight now rule_id q),
  one q,
)

firing_is_live : (s : AlertState) → is_firing s ≡ true → is_resolved s ≡ false
firing_is_live firing h = refl
firing_is_live acknowledged h = absurd (cc)
firing_is_live resolved h = absurd (cc)

-- The tables after a call that may fail.
abbrev pub kept : AlertTables → Result AlertError AlertTables → AlertTables
kept t (ok t') = t'
kept t (err e) = t

pub acknowledge_alert-OneLive :
    (now id : ℕ) (who : Bytes) (t : AlertTables)
    → OneLive t
    → OneLive (kept t (acknowledge_alert now id who t))
unfolding acknowledge_alert
acknowledge_alert-OneLive now id who t one q = elim (Bool-cases (any (is_open id) t.alerts)) [
  | inr e ↦ rw e (one q)
  | inl e ↦ rw e (
      omega (
        arith,
        one q,
        weight-update (live_weight q)
            (λ (a : Alert). record a {
              state = acknowledged;
              acknowledged_at = some now;
              acknowledged_by = some who;
            })
            (is_open id) t.alerts (λ a h. still_live a h),
      ))
]
  where
    still_live :
        (a : Alert)
        → is_open id a ≡ true
        → live_weight q (record a {
          state = acknowledged;
          acknowledged_at = some now;
          acknowledged_by = some who;
        })
          ≡ live_weight q a
    still_live a h =
        let e : is_resolved a.state ≡ false = firing_is_live a.state (ground arith) in rw e refl

pub mark_alert_notified-OneLive :
    (now id : ℕ) (t : AlertTables) → OneLive t → OneLive (mark_alert_notified now id t)
unfolding mark_alert_notified
mark_alert_notified-OneLive now id t one q = omega (
  arith,
  one q,
  weight-update (live_weight q) (λ (a : Alert). record a { notified_at = some now })
      (λ (a : Alert). a.id == id) t.alerts (λ a h. refl),
)

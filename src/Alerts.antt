-- ===== src/Alerts.antt =====
-- internal/db/alerts.go and internal/alerts/engine.go: the table of alerts, and a cycle of the engine
-- over the rules. What a rule measures, and whether a message goes out, are arguments. The lock of the
-- engine orders the cycles.
pub mod Lifecycle
pub mod Cycle
mod Tests
use infra_lightwight_s3_serv.Prelude.{
  ℕ, ◌+◌, ◌==◌, ltb, Bool, true, false, not, ◌&&◌, ◌||◌, Bytes, List, [], ◌∷◌, map, bytes_eq, codes,
  any, keep, upsert, update, Option, none, some, Result, ok, err, if◌then◌else◌,
}

pub data AlertState : Type 0 where
  firing acknowledged resolved : AlertState

pub data Severity : Type 0 where
  info warning critical : Severity

pub record Alert : Type 0 where
  pub id : ℕ
  pub rule_id : Bytes
  pub state : AlertState
  pub severity : Severity
  pub summary : Bytes
  pub guidance : Bytes
  pub detail : Bytes
  pub fired_at : ℕ
  pub last_seen_at : ℕ
  pub acknowledged_at : Option ℕ
  pub acknowledged_by : Option Bytes
  pub resolved_at : Option ℕ
  pub notified_at : Option ℕ

pub record AlertRule : Type 0 where
  pub id : Bytes
  pub name : Bytes
  pub description : Bytes
  pub enabled : Bool
  pub severity : Severity
  pub settings : Bytes
  pub updated_at : ℕ

pub record AlertTables : Type 0 where
  pub rules : List AlertRule
  pub alerts : List Alert
  pub next_id : ℕ

pub data AlertError : Type 0 where
  alert_not_found foreign_key : AlertError

-- What a check reports of a condition that holds.
pub record Draft : Type 0 where
  pub severity : Severity
  pub summary : Bytes
  pub guidance : Bytes
  pub detail : Bytes

abbrev pub is_resolved : AlertState → Bool
is_resolved resolved = true
is_resolved firing = false
is_resolved acknowledged = false

abbrev pub is_firing : AlertState → Bool
is_firing firing = true
is_firing resolved = false
is_firing acknowledged = false

-- Alert.Live.
abbrev pub live : Alert → Bool
live a = not (is_resolved a.state)

abbrev pub live_for : Bytes → Alert → Bool
live_for rule_id a = bytes_eq a.rule_id rule_id && live a

abbrev pub with_id : Bytes → AlertRule → Bool
with_id id r = bytes_eq r.id id

-- UpsertAlertRule: the name and the description of a rule that is there.
unfoldable pub upsert_alert_rule : ℕ → AlertRule → AlertTables → AlertTables
upsert_alert_rule now rule t = record t {
  rules =
      upsert (with_id rule.id) (record rule { updated_at = now })
        (λ (r : AlertRule). record r { name = rule.name; description = rule.description }) t.rules;
}

-- ORDER BY name; `before` is the collation of the database.
unfoldable pub insert_rule : (Bytes → Bytes → Bool) → AlertRule → List AlertRule → List AlertRule
insert_rule before r [] = r ∷ []
insert_rule before r (q ∷ qs) =
    if before q.name r.name then q ∷ insert_rule before r qs else r ∷ q ∷ qs

unfoldable pub rules_by_name : (Bytes → Bytes → Bool) → List AlertRule → List AlertRule
unfolding insert_rule
rules_by_name before [] = []
rules_by_name before (r ∷ rs) = insert_rule before r (rules_by_name before rs)

unfoldable pub list_alert_rules : (Bytes → Bytes → Bool) → AlertTables → List AlertRule
unfolding rules_by_name
list_alert_rules before t = rules_by_name before t.rules

unfoldable pub update_alert_rule :
    ℕ → Bytes → Bool → Severity → Bytes → AlertTables → Result AlertError AlertTables
update_alert_rule now id enabled severity settings t =
    if any (with_id id) t.rules
    then ok (record t {
      rules =
          update (with_id id)
            (λ (r : AlertRule). record r {
              enabled = enabled;
              severity = severity;
              settings = settings;
              updated_at = now;
            })
            t.rules;
    })
    else err alert_not_found

unfoldable pub raised_alert : ℕ → ℕ → Bytes → Draft → Alert
raised_alert now id rule_id d = record {
  id = id;
  rule_id = rule_id;
  state = firing;
  severity = d.severity;
  summary = d.summary;
  guidance = d.guidance;
  detail = d.detail;
  fired_at = now;
  last_seen_at = now;
  acknowledged_at = none;
  acknowledged_by = none;
  resolved_at = none;
  notified_at = none;
}

-- DO UPDATE SET: the state stays, and so does the guidance.
unfoldable pub seen_again : ℕ → Draft → Alert → Alert
seen_again now d a = record a {
  last_seen_at = now;
  summary = d.summary;
  detail = d.detail;
  severity = d.severity;
}

-- RaiseAlert, with whether the row is new. The id is drawn in either case.
unfoldable pub raise_alert :
    ℕ → Bytes → Draft → AlertTables → Result AlertError (Bool × AlertTables)
unfolding raised_alert seen_again
raise_alert now rule_id d t =
    if not (any (with_id rule_id) t.rules)
    then err foreign_key
    else ok (
      not (any (live_for rule_id) t.alerts),
      record t {
        alerts =
            upsert (live_for rule_id) (raised_alert now t.next_id rule_id d) (seen_again now d)
              t.alerts;
        next_id = t.next_id + 1;
      },
    )

abbrev pub close_alert : ℕ → Bytes → Alert → Alert
close_alert now rule_id a = record a {
  state = if live_for rule_id a then resolved else a.state;
  resolved_at = if live_for rule_id a then some now else a.resolved_at;
}

-- ResolveAlert, with whether there was an alert to close.
unfoldable pub resolve_alert : ℕ → Bytes → AlertTables → Bool × AlertTables
resolve_alert now rule_id t =
    (any (live_for rule_id) t.alerts, record t { alerts = map (close_alert now rule_id) t.alerts })

abbrev pub is_open : ℕ → Alert → Bool
is_open id a = a.id == id && is_firing a.state

unfoldable pub acknowledge_alert : ℕ → ℕ → Bytes → AlertTables → Result AlertError AlertTables
acknowledge_alert now id who t =
    if any (is_open id) t.alerts
    then ok (record t {
      alerts =
          update (is_open id)
            (λ (a : Alert). record a {
              state = acknowledged;
              acknowledged_at = some now;
              acknowledged_by = some who;
            })
            t.alerts;
    })
    else err alert_not_found

abbrev pub is_quiet : ℕ → ℕ → Option ℕ → Bool
is_quiet now quiet none = true
is_quiet now quiet (some at) = ltb (at + quiet) now

-- The condition of AlertsAwaitingNotification.
abbrev pub awaits : ℕ → ℕ → Alert → Bool
awaits now quiet a = is_firing a.state && is_quiet now quiet a.notified_at

unfoldable pub alerts_awaiting_notification : ℕ → ℕ → AlertTables → List Alert
alerts_awaiting_notification now quiet t = keep (awaits now quiet) t.alerts

unfoldable pub mark_alert_notified : ℕ → ℕ → AlertTables → AlertTables
mark_alert_notified now id t = record t {
  alerts =
      update (λ (a : Alert). a.id == id) (λ (a : Alert). record a { notified_at = some now })
        t.alerts;
}

-- What a check says of its rule.
pub data Finding : Type 0 where
  unmeasured clear : Finding
  holds : Draft → Finding

abbrev pub known_rules : List Bytes
known_rules =
    codes "error_rate"
    ∷ codes "disk_space"
    ∷ codes "auth_failures"
    ∷ codes "write_failures"
    ∷ codes "no_credentials"
    ∷ []

unfoldable pub tables_after : AlertTables → Result AlertError (Bool × AlertTables) → AlertTables
tables_after t (ok (raised, t')) = t'
tables_after t (err e) = t

unfoldable pub act_on : ℕ → Bytes → Finding → AlertTables → AlertTables
unfolding resolve_alert raise_alert tables_after
act_on now rule_id unmeasured t = t
act_on now rule_id clear t = (resolve_alert now rule_id t).1
act_on now rule_id (holds d) t = tables_after t (raise_alert now rule_id d t)

-- Engine.evaluate, and the branch of evaluateAll for a rule that is disabled.
unfoldable pub evaluate : ℕ → (AlertRule → Finding) → AlertRule → AlertTables → AlertTables
unfolding act_on resolve_alert
evaluate now check rule t =
    if not rule.enabled
    then (resolve_alert now rule.id t).1
    else if any (bytes_eq rule.id) known_rules
    then act_on now rule.id (check rule) t
    else t

unfoldable pub evaluate_each :
    ℕ → (AlertRule → Finding) → List AlertRule → AlertTables → AlertTables
unfolding evaluate
evaluate_each now check [] t = t
evaluate_each now check (r ∷ rs) t = evaluate_each now check rs (evaluate now check r t)

-- NotifyQuiet, in seconds.
abbrev pub notify_quiet : ℕ
notify_quiet = 21600

abbrev pub is_info : Severity → Bool
is_info info = true
is_info warning = false
is_info critical = false

-- The loop of notify; `send` says whether the message of an alert goes out.
unfoldable pub notify_each : ℕ → (Alert → Bool) → List Alert → AlertTables → AlertTables
unfolding mark_alert_notified
notify_each now send [] t = t
notify_each now send (a ∷ as') t =
    notify_each now send as'
      (if not (is_info a.severity) && send a then mark_alert_notified now a.id t else t)

-- evaluateAll; without a notifier nothing is sent.
unfoldable pub evaluate_all :
    (Bytes → Bytes → Bool)
    → ℕ
    → (AlertRule → Finding)
    → Option (Alert → Bool)
    → AlertTables
    → AlertTables
unfolding list_alert_rules evaluate_each alerts_awaiting_notification notify_each
evaluate_all before now check notifier t =
    let t' = evaluate_each now check (list_alert_rules before t) t in
    elim notifier [
      | none ↦ t'
      | some send ↦ notify_each now send (alerts_awaiting_notification now notify_quiet t') t'
    ]

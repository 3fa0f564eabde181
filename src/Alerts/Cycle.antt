-- ===== src/Alerts/Cycle.antt =====
-- internal/alerts/engine.go: what a cycle over the rules leaves, and sequences of cycles and calls.
use infra_lightwight_s3_serv.Prelude.{
  ℕ, ◌==◌, Bool, true, false, not, ◌&&◌, ◌||◌, Bytes, List, [], ◌∷◌, map, bytes_eq, bytes_eq_iff,
  bytes_eq_refl, any, upsert, update, Option, none, some, if◌then◌else◌, ◌≡◌, refl, arith,
  Bool-cases, inl, inr, sym, ap, ◌∙◌, subst, Memᴰ, head, tail, not-nil,
}
use infra_lightwight_s3_serv.Alerts.{
  Alert, AlertRule, AlertTables, Draft, Severity, live_for, with_id, list_alert_rules,
  upsert_alert_rule, update_alert_rule, raised_alert, seen_again, raise_alert, close_alert,
  resolve_alert, acknowledge_alert, mark_alert_notified, alerts_awaiting_notification, notify_quiet,
  is_info, Finding, unmeasured, clear, holds, tables_after, act_on, known_rules, evaluate,
  evaluate_each, notify_each, evaluate_all,
}
use infra_lightwight_s3_serv.Alerts.Lifecycle.{
  OneLive, kept, raise_alert-OneLive, resolve_alert-OneLive, acknowledge_alert-OneLive,
  mark_alert_notified-OneLive,
}

if-OneLive : (b : Bool) (t u : AlertTables) → OneLive t → OneLive u → OneLive (if b then t else u)
if-OneLive true t u one two = one
if-OneLive false t u one two = two

act_on-OneLive :
    (now : ℕ) (rule_id : Bytes) (f : Finding) (t : AlertTables)
    → OneLive t
    → OneLive (act_on now rule_id f t)
unfolding act_on
act_on-OneLive now rule_id unmeasured t one = one
act_on-OneLive now rule_id clear t one = resolve_alert-OneLive now rule_id t one
act_on-OneLive now rule_id (holds d) t one = raise_alert-OneLive now rule_id d t one

evaluate-OneLive :
    (now : ℕ) (check : AlertRule → Finding) (r : AlertRule) (t : AlertTables)
    → OneLive t
    → OneLive (evaluate now check r t)
unfolding evaluate
evaluate-OneLive now check r t one =
    if-OneLive (not r.enabled) _ _ (resolve_alert-OneLive now r.id t one) (
      if-OneLive (any (bytes_eq r.id) known_rules) _ _ (act_on-OneLive now r.id (check r) t one)
        one)

evaluate_each-OneLive :
    (now : ℕ) (check : AlertRule → Finding) (rs : List AlertRule) (t : AlertTables)
    → OneLive t
    → OneLive (evaluate_each now check rs t)
unfolding evaluate_each
evaluate_each-OneLive now check [] t one = one
evaluate_each-OneLive now check (r ∷ rs) t one =
    evaluate_each-OneLive now check rs (evaluate now check r t) (evaluate-OneLive now check r t one)

notify_each-OneLive :
    (now : ℕ) (send : Alert → Bool) (as' : List Alert) (t : AlertTables)
    → OneLive t
    → OneLive (notify_each now send as' t)
unfolding notify_each
notify_each-OneLive now send [] t one = one
notify_each-OneLive now send (a ∷ as') t one =
    notify_each-OneLive now send as'
      (if not (is_info a.severity) && send a then mark_alert_notified now a.id t else t)
      (if-OneLive (not (is_info a.severity) && send a) _ _
        (mark_alert_notified-OneLive now a.id t one) one)

evaluate_all-OneLive :
    (before : Bytes → Bytes → Bool) (now : ℕ) (check : AlertRule → Finding)
    (notifier : Option (Alert → Bool)) (t : AlertTables)
    → OneLive t
    → OneLive (evaluate_all before now check notifier t)
unfolding evaluate_all
evaluate_all-OneLive before now check none t one =
    evaluate_each-OneLive now check (list_alert_rules before t) t one
evaluate_all-OneLive before now check (some send) t one =
    let t' : AlertTables = evaluate_each now check (list_alert_rules before t) t in
    notify_each-OneLive now send (alerts_awaiting_notification now notify_quiet t') t'
      (evaluate_each-OneLive now check (list_alert_rules before t) t one)

-- What happens to the tables: a cycle of the engine, or a call of the console or of the start-up.
pub data Event : Type 0 where
  cycles : ℕ → (AlertRule → Finding) → Option (Alert → Bool) → Event
  acknowledges : ℕ → ℕ → Bytes → Event
  seeds : ℕ → AlertRule → Event
  configures : ℕ → Bytes → Bool → Severity → Bytes → Event

unfoldable pub happen : (Bytes → Bytes → Bool) → Event → AlertTables → AlertTables
unfolding evaluate_all acknowledge_alert upsert_alert_rule update_alert_rule
happen before (cycles now check notifier) t = evaluate_all before now check notifier t
happen before (acknowledges now id who) t = kept t (acknowledge_alert now id who t)
happen before (seeds now rule) t = upsert_alert_rule now rule t
happen before (configures now id enabled severity settings) t =
    kept t (update_alert_rule now id enabled severity settings t)

unfoldable pub happen_each : (Bytes → Bytes → Bool) → List Event → AlertTables → AlertTables
unfolding happen
happen_each before [] t = t
happen_each before (e ∷ es) t = happen_each before es (happen before e t)

happen-OneLive :
    (before : Bytes → Bytes → Bool) (e : Event) (t : AlertTables)
    → OneLive t
    → OneLive (happen before e t)
unfolding happen
happen-OneLive before (cycles now check notifier) t one =
    evaluate_all-OneLive before now check notifier t one
happen-OneLive before (acknowledges now id who) t one = acknowledge_alert-OneLive now id who t one
happen-OneLive before (seeds now rule) t one = seeded
  where
    seeded : OneLive (upsert_alert_rule now rule t)
    seeded q = one q
happen-OneLive before (configures now id enabled severity settings) t one =
    elim (Bool-cases (any (with_id id) t.rules)) [
      | inl e ↦ rw (update_alert_rule, e) one
      | inr e ↦ rw (update_alert_rule, e) one
    ]

-- A rule never has two live alerts, through any sequence of cycles, acknowledgements and changes of
-- the rules from tables where none has.
pub happen_each-OneLive :
    (before : Bytes → Bytes → Bool) (es : List Event) (t : AlertTables)
    → OneLive t
    → OneLive (happen_each before es t)
unfolding happen_each
happen_each-OneLive before [] t one = one
happen_each-OneLive before (e ∷ es) t one =
    happen_each-OneLive before es (happen before e t) (happen-OneLive before e t one)

-- Whether a rule has a live alert.
abbrev pub alerted : Bytes → AlertTables → Bool
alerted rule_id t = any (live_for rule_id) t.alerts

-- What a rule makes of it.
abbrev pub outcome : Bool → Finding → Bool
outcome before unmeasured = before
outcome before clear = false
outcome before (holds d) = true

abbrev pub verdict : Bool → AlertRule → Finding → Bool
verdict before r f =
    if not r.enabled
    then false
    else if any (bytes_eq r.id) known_rules
    then outcome before f
    else before

row_closed :
    (now : ℕ) (r q : Bytes) (a : Alert)
    → live_for q (close_alert now r a) ≡ (not (bytes_eq r q) && live_for q a)
row_closed now r q a = elim (Bool-cases (live_for r a)) [
  | inl e ↦
      let same : a.rule_id ≡ r = (bytes_eq_iff a.rule_id r).0 (ground arith) in
      let found : bytes_eq a.rule_id q ≡ bytes_eq r q = ap (λ x. bytes_eq x q) same in
      rw e (ground (arith, found))
  | inr e ↦ elim (Bool-cases (bytes_eq r q)) [
    | inl k ↦
        let same : r ≡ q = (bytes_eq_iff r q).0 k in
        let absent : live_for q a ≡ false = subst (λ x. live_for x a ≡ false) same e in
        rw (e, k) absent
    | inr k ↦ rw (e, k) refl
  ]
]

alerted-closed :
    (now : ℕ) (r q : Bytes) (as' : List Alert)
    → any (live_for q) (map (close_alert now r) as') ≡ (not (bytes_eq r q) && any (live_for q) as')
alerted-closed now r q [] = ground arith
alerted-closed now r q (a ∷ as') =
    rw (row_closed now r q a, alerted-closed now r q as')
      (spread (bytes_eq r q) (live_for q a) (any (live_for q) as'))
  where
    spread : (b x y : Bool) → ((not b && x) || (not b && y)) ≡ (not b && (x || y))
    spread true x y = refl
    spread false x y = refl

alerted-raised :
    (now id : ℕ) (r q : Bytes) (d : Draft) (as' : List Alert)
    → any (live_for q) (upsert (live_for r) (raised_alert now id r d) (seen_again now d) as')
      ≡ (bytes_eq r q || any (live_for q) as')
unfolding upsert raised_alert seen_again
alerted-raised now id r q d [] = ground arith
alerted-raised now id r q d (a ∷ as') = elim (Bool-cases (live_for r a)) [
  | inl e ↦ elim (Bool-cases (bytes_eq r q)) [
    | inl k ↦
        let here : live_for q a ≡ true =
          subst (λ x. live_for x a ≡ true) ((bytes_eq_iff r q).0 k) e in
        rw (e, k) (ground (arith, here))
    | inr k ↦ rw (e, k) refl
  ]
  | inr e ↦ rw e (ground (arith, alerted-raised now id r q d as'))
]

as_if : (b before : Bool) → (not b && before) ≡ (if b then false else before)
as_if true before = refl
as_if false before = refl

or_if : (b before : Bool) → (b || before) ≡ (if b then true else before)
or_if true before = refl
or_if false before = refl

same_if : (b before : Bool) → before ≡ (if b then before else before)
same_if true before = refl
same_if false before = refl

act_on-alerted :
    (now : ℕ) (r q : Bytes) (f : Finding) (t : AlertTables)
    → any (with_id r) t.rules ≡ true
    → alerted q (act_on now r f t) ≡ (if bytes_eq r q then outcome (alerted q t) f else alerted q t)
unfolding act_on resolve_alert raise_alert tables_after
act_on-alerted now r q unmeasured t there = same_if (bytes_eq r q) (alerted q t)
act_on-alerted now r q clear t there =
    alerted-closed now r q t.alerts ∙ as_if (bytes_eq r q) (alerted q t)
act_on-alerted now r q (holds d) t there =
    rw (there, raise_alert)
      (alerted-raised now t.next_id r q d t.alerts ∙ or_if (bytes_eq r q) (alerted q t))

branches :
    (enabled known b before o : Bool) (q : Bytes) (t x y : AlertTables)
    → alerted q t ≡ before
    → alerted q x ≡ (not b && before)
    → alerted q y ≡ (if b then o else before)
    → alerted q (if not enabled then x else if known then y else t)
      ≡ (if b then (if not enabled then false else if known then o else before) else before)
branches true true b before o q t x y h k l = l
branches true false b before o q t x y h k l = h ∙ same_if b before
branches false known b before o q t x y h k l = k ∙ as_if b before

-- One rule's evaluation: its own alert is as the check says, and no other rule's changes.
evaluate-alerted :
    (now : ℕ) (check : AlertRule → Finding) (r : AlertRule) (q : Bytes) (t : AlertTables)
    → any (with_id r.id) t.rules ≡ true
    → alerted q (evaluate now check r t)
      ≡ (if bytes_eq r.id q then verdict (alerted q t) r (check r) else alerted q t)
unfolding evaluate resolve_alert
evaluate-alerted now check r q t there =
    branches r.enabled (any (bytes_eq r.id) known_rules) (bytes_eq r.id q) (alerted q t)
      (outcome (alerted q t) (check r)) q t (resolve_alert now r.id t).1
      (act_on now r.id (check r) t) refl (alerted-closed now r.id q t.alerts)
      (act_on-alerted now r.id q (check r) t there)

if_rules :
    (b : Bool) (rs : List AlertRule) (t u : AlertTables)
    → t.rules ≡ rs
    → u.rules ≡ rs
    → (if b then t else u).rules ≡ rs
if_rules true rs t u h k = h
if_rules false rs t u h k = k

act_on_rules :
    (now : ℕ) (r : Bytes) (f : Finding) (t : AlertTables) → (act_on now r f t).rules ≡ t.rules
unfolding act_on resolve_alert raise_alert tables_after
act_on_rules now r unmeasured t = refl
act_on_rules now r clear t = refl
act_on_rules now r (holds d) t = elim (Bool-cases (any (with_id r) t.rules)) [
  | inl e ↦ rw e refl
  | inr e ↦ rw e refl
]

evaluate_rules :
    (now : ℕ) (check : AlertRule → Finding) (r : AlertRule) (t : AlertTables)
    → (evaluate now check r t).rules ≡ t.rules
unfolding evaluate resolve_alert
evaluate_rules now check r t = if_rules (not r.enabled) t.rules _ _ refl (
    if_rules (any (bytes_eq r.id) known_rules) t.rules _ _ (act_on_rules now r.id (check r) t) refl)

-- The rules have different ids, and each is in the table.
abbrev pub IsListed : List AlertRule → List AlertRule → Type 0
IsListed all_rules [] = Unit
IsListed all_rules (r ∷ rs) =
    (any (with_id r.id) all_rules ≡ true) × (any (with_id r.id) rs ≡ false) × IsListed all_rules rs

swapped : (a b : Bytes) → bytes_eq b a ≡ false → bytes_eq a b ≡ false
swapped a b h = elim (Bool-cases (bytes_eq a b)) [
  | inr e ↦ e
  | inl e ↦
      absurd
        (cc (h, subst (λ x. bytes_eq b x ≡ true) (sym ((bytes_eq_iff a b).0 e)) (bytes_eq_refl b)))
]

others :
    (now : ℕ) (check : AlertRule → Finding) (q : Bytes) (rs : List AlertRule) (t : AlertTables)
    → IsListed t.rules rs
    → any (with_id q) rs ≡ false
    → alerted q (evaluate_each now check rs t) ≡ alerted q t
unfolding evaluate_each
others now check q [] t l h = refl
others now check q (r ∷ rs) t (there, apart, l) h =
    let unlike : bytes_eq r.id q ≡ false = ground arith in
    others now check q rs (evaluate now check r t)
      (subst (λ x. IsListed x rs) (sym (evaluate_rules now check r t)) l) (ground arith)
    ∙ (evaluate-alerted now check r q t there ∙ rw unlike refl)

member_id :
    (q : Bytes) (r : AlertRule) (rs : List AlertRule)
    → any (with_id q) rs ≡ false
    → Memᴰ r rs
    → with_id q r ≡ false
member_id q r [] h m = absurd (not-nil m)
member_id q r (x ∷ rs) h (head e) =
    subst (λ (y : AlertRule). with_id q y ≡ false) (sym e) (ground arith)
member_id q r (x ∷ rs) h (tail m) = member_id q r rs (ground arith) m

evaluate_each-alerted :
    (now : ℕ) (check : AlertRule → Finding) (r : AlertRule) (rs : List AlertRule) (t : AlertTables)
    → IsListed t.rules rs
    → Memᴰ r rs
    → alerted r.id (evaluate_each now check rs t) ≡ verdict (alerted r.id t) r (check r)
unfolding evaluate_each
evaluate_each-alerted now check r [] t l m = absurd (not-nil m)
evaluate_each-alerted now check r (x ∷ rs) t (there, apart, l) (head e) =
    let at_rule = evaluate-alerted now check x x.id t there ∙ rw (bytes_eq_refl x.id) refl in
    subst
      (λ (y : AlertRule).
        alerted y.id (evaluate_each now check rs (evaluate now check x t))
        ≡ verdict (alerted y.id t) y (check y))
      (sym e)
      (others now check x.id rs (evaluate now check x t)
          (subst (λ y. IsListed y rs) (sym (evaluate_rules now check x t)) l) apart
        ∙ at_rule)
evaluate_each-alerted now check r (x ∷ rs) t (there, apart, l) (tail m) =
    let unlike : bytes_eq x.id r.id ≡ false = swapped x.id r.id (member_id x.id r rs apart m) in
    let before : alerted r.id (evaluate now check x t) ≡ alerted r.id t =
      evaluate-alerted now check x r.id t there ∙ rw unlike refl in
    evaluate_each-alerted now check r rs (evaluate now check x t)
      (subst (λ y. IsListed y rs) (sym (evaluate_rules now check x t)) l) m
    ∙ ap (λ b. verdict b r (check r)) before

marked :
    (now id : ℕ) (q : Bytes) (as' : List Alert)
    → any (live_for q) (
        update (λ (a : Alert). a.id == id) (λ (a : Alert). record a { notified_at = some now }) as')
      ≡ any (live_for q) as'
unfolding update
marked now id q [] = refl
marked now id q (a ∷ as') = ground (arith, marked now id q as')

notify_each-alerted :
    (now : ℕ) (send : Alert → Bool) (q : Bytes) (as' : List Alert) (t : AlertTables)
    → alerted q (notify_each now send as' t) ≡ alerted q t
unfolding notify_each mark_alert_notified
notify_each-alerted now send q [] t = refl
notify_each-alerted now send q (a ∷ as') t =
    elim (Bool-cases (not (is_info a.severity) && send a)) [
      | inl e ↦ notify_each-alerted now send q as' _ ∙ rw e (marked now a.id q t.alerts)
      | inr e ↦ notify_each-alerted now send q as' _ ∙ rw e refl
    ]

-- After a cycle a rule has a live alert exactly as its check says: none if it is disabled or its
-- condition is clear, one if the condition holds, and what it had before if the check failed or its
-- id is unknown. The rules have different ids.
pub evaluate_all-alerted :
    (before : Bytes → Bytes → Bool) (now : ℕ) (check : AlertRule → Finding)
    (notifier : Option (Alert → Bool)) (r : AlertRule) (t : AlertTables)
    → IsListed t.rules (list_alert_rules before t)
    → Memᴰ r (list_alert_rules before t)
    → alerted r.id (evaluate_all before now check notifier t) ≡ verdict (alerted r.id t) r (check r)
unfolding evaluate_all
evaluate_all-alerted before now check none r t l m =
    evaluate_each-alerted now check r (list_alert_rules before t) t l m
evaluate_all-alerted before now check (some send) r t l m =
    let t' : AlertTables = evaluate_each now check (list_alert_rules before t) t in
    notify_each-alerted now send r.id (alerts_awaiting_notification now notify_quiet t') t'
    ∙ evaluate_each-alerted now check r (list_alert_rules before t) t l m

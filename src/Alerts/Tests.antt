-- ===== src/Alerts/Tests.antt =====
-- Small tables of alerts.
use infra_lightwight_s3_serv.Prelude.{
  Bool, true, false, List, [], ◌∷◌, codes, none, some, ◌≡◌, refl, map, bytes_lt, bytes_eq, upsert,
  update, head, weight, arith,
}
use infra_lightwight_s3_serv.Alerts.{
  AlertRule, AlertTables, Alert, Finding, clear, holds, warning, rules_by_name, insert_rule,
  list_alert_rules, evaluate_all,
}
use infra_lightwight_s3_serv.Alerts.Lifecycle.{OneLive}
use infra_lightwight_s3_serv.Alerts.Cycle.{
  Event, cycles, acknowledges, happen_each, happen_each-OneLive, evaluate_all-alerted, alerted,
  verdict,
}

abbrev disk_rule : AlertRule
disk_rule = record {
  id = codes "disk_space";
  name = codes "Disk space";
  description = [];
  enabled = true;
  severity = warning;
  settings = [];
  updated_at = 0;
}

abbrev error_rule : AlertRule
error_rule = record {
  id = codes "error_rate";
  name = codes "Error rate";
  description = [];
  enabled = false;
  severity = warning;
  settings = [];
  updated_at = 0;
}

abbrev seeded : AlertTables
seeded = record { rules = error_rule ∷ disk_rule ∷ []; alerts = []; next_id = 1 }

abbrev full_disk : AlertRule → Finding
full_disk r =
    holds (record { severity = warning; summary = codes "full"; guidance = []; detail = [] })

abbrev delivered : Alert → Bool
delivered a = true

seeded_listed : list_alert_rules bytes_lt seeded ≡ (disk_rule ∷ error_rule ∷ [])
unfolding list_alert_rules rules_by_name insert_rule bytes_lt
seeded_listed = refl

abbrev happenings : List Event
happenings =
    cycles 100 full_disk (some delivered)
    ∷ acknowledges 150 1 (codes "owner")
    ∷ cycles 160 full_disk (some delivered)
    ∷ cycles 220 (λ r. clear) none
    ∷ cycles 280 full_disk none
    ∷ []

-- The first alert is closed in the fourth event, and the fifth raises another.
happenings_left :
    map (λ (a : Alert). a.id) (happen_each bytes_lt happenings seeded).alerts ≡ (1 ∷ 3 ∷ [])
unfolding happen_each bytes_lt bytes_eq upsert update
happenings_left = refl

nothing_live : OneLive seeded
unfolding weight
nothing_live rule_id = omega arith

happen_each-OneLive_example : OneLive (happen_each bytes_lt happenings seeded)
happen_each-OneLive_example = happen_each-OneLive bytes_lt happenings seeded nothing_live

evaluate_all-alerted_example :
    alerted (codes "disk_space") (evaluate_all bytes_lt 100 full_disk (some delivered) seeded)
    ≡ verdict (alerted (codes "disk_space") seeded) disk_rule (full_disk disk_rule)
unfolding list_alert_rules rules_by_name insert_rule bytes_lt bytes_eq
evaluate_all-alerted_example =
    evaluate_all-alerted bytes_lt 100 full_disk (some delivered) disk_rule seeded
      (refl, refl, (refl, refl, tt)) (head refl)

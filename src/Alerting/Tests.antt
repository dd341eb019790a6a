-- ===== src/Alerting/Tests.antt =====
-- A processor rule on two devices: one breach, then samples that stop.
use arx_mdm.Prelude.{
  ℕ, ◌+◌, ◌≡◌, refl, inl, inr, Bool, true, false, Option, none, some, List, [], ◌∷◌, Text, bytes,
  text_eq, ltb, leb, ◌==◌, trim_space, to_lower, any, In, Any, if◌then◌else◌, arith,
}
use arx_mdm.Prelude.Sort.{distinct}
use arx_mdm.Alerting.Table.{
  rule_metric, Firing, find_alert, update_alerts, upsert_unresolved_alert,
  close_alerts_kinds_except, opened,
}
use arx_mdm.Alerting.Engine.{
  Floats, AlertRule, EngineState, dedupe_fingerprints, sanitize_metric_sample, compare_float, fire,
  fire_all, is_offline_breach, is_metric_breach, offline_firings, metric_firings, rules_loop,
  evaluate_device_rules,
}
use arx_mdm.Alerting.Cadence.{upsert_unresolved_alert-cooldown}
use arx_mdm.Alerting.Closing.{IsMetricBreach, evaluate_device_rules-open}

abbrev numbers : Floats
numbers = record {
  Float = ℕ;
  lt = ltb;
  le = leb;
  zero_float = 0;
  is_finite = λ v. true;
  almost_equal = ◌==◌;
}

-- Device 1 averages 97 over three samples, device 2 averages 20.
abbrev sample : ℕ → Text → ℕ → Option (ℕ × ℕ)
sample d metric window = if d == 1 then some (97, 3) else some (20, 3)

abbrev silence : ℕ → Text → ℕ → Option (ℕ × ℕ)
silence d metric window = some (0, 0)

abbrev seen : ℕ → Option ℕ
seen d = some 5

abbrev devices : Option ℕ → List ℕ
devices target = 1 ∷ 2 ∷ []

abbrev print : Text → ℕ → ℕ → Text
print prefix rule d = if d == 1 then bytes "m-1" else bytes "m-2"

abbrev describe : AlertRule ℕ → ℕ → Text × Text
describe rule d = (rule.name, [])

abbrev busy : AlertRule ℕ
busy = record {
  id = 1;
  name = bytes "busy";
  metric = bytes "cpu_usage";
  operator = bytes ">";
  threshold = 90;
  duration_seconds = 300;
  severity = bytes "critical";
  target_device_id = none;
}

abbrev quiet : EngineState
quiet = record {
  alerts = record { rows = []; now = 1000 };
  notified = [];
  critical = [];
  resolved = [];
}

abbrev firing : Firing
firing = record {
  fingerprint = bytes "m-1";
  kind = rule_metric;
  device_id = some 1;
  rule_id = some 1;
  severity = bytes "critical";
  title = bytes "busy";
  message = [];
}

open_all : Unit {0}
unfolding text_eq trim_space to_lower distinct find_alert update_alerts upsert_unresolved_alert
    close_alerts_kinds_except dedupe_fingerprints sanitize_metric_sample compare_float fire fire_all
    is_offline_breach is_metric_breach offline_firings metric_firings rules_loop
    evaluate_device_rules arx_mdm.Prelude.Sort.distinct_from
open_all = tt

abbrev first_round : EngineState
first_round = evaluate_device_rules numbers sample seen devices print describe quiet (busy ∷ [])

-- One alert is opened, notified, and given to the incident hooks.
first_alert : first_round.alerts.rows ≡ opened 1000 firing ∷ []
unfolding open_all
first_alert = refl

first_notified : first_round.notified ≡ bytes "m-1" ∷ []
unfolding open_all
first_notified = refl

-- When the samples stop, the alert is reported as resolved.
silence_resolves :
    (evaluate_device_rules numbers silence seen devices print describe first_round
      (busy ∷ [])).resolved
    ≡ bytes "m-1" ∷ []
unfolding open_all
silence_resolves = refl

upsert_unresolved_alert-cooldown_example :
    (let t = (upsert_unresolved_alert quiet.alerts firing 3600).1 in
      (upsert_unresolved_alert (record t { now = 1000 + 60 }) firing 3600).0)
    ≡ false
unfolding open_all
upsert_unresolved_alert-cooldown_example =
    upsert_unresolved_alert-cooldown quiet.alerts firing firing 3600 60 refl refl (omega arith)

evaluate_device_rules-open_example :
    Any (IsMetricBreach numbers sample seen devices print describe (bytes "m-1")) (busy ∷ [])
unfolding open_all
evaluate_device_rules-open_example =
    evaluate_device_rules-open numbers sample seen devices print describe quiet (busy ∷ [])
      (opened 1000 firing) (inl refl) refl refl

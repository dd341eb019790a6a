-- ===== src/Alerting/Engine.antt =====
-- internal/alerting/engine.go: one evaluation of the rules. What the dispatcher and the incident hooks
-- are given is kept in lists.
use arx_mdm.Prelude.{
  ℕ, Bool, false, ◌&&◌, not, Option, none, some, List, [], ◌∷◌, ◌++◌, map, Text, text_eq, any, keep,
  ◌==◌, bytes, if◌then◌else◌, trim_space, to_lower,
}
use arx_mdm.Prelude.Sort.{distinct}
use arx_mdm.Alerting.Table.{
  AlertKind, builtin_offline, rule_offline, rule_metric, Alerts, Firing, upsert_unresolved_alert,
  close_alerts_kinds_except,
}

-- float64, with the tests of Go that the engine uses: `lt` and `le` are false at NaN.
pub record Floats : Type 1 where
  pub Float : Type 0
  pub lt : Float → Float → Bool
  pub le : Float → Float → Bool
  pub zero_float : Float
  pub is_finite : Float → Bool
  pub almost_equal : Float → Float → Bool

pub record AlertRule (F : Type 0) : Type 0 where
  pub id : ℕ
  pub name : Text
  pub metric : Text
  pub operator : Text
  pub threshold : F
  pub duration_seconds : ℕ
  pub severity : Text
  pub target_device_id : Option ℕ

-- The alerts, and what was notified, opened as an incident and reported as resolved so far.
pub record EngineState : Type 0 where
  pub alerts : Alerts
  pub notified : List Text
  pub critical : List Text
  pub resolved : List Text

-- dedupeFingerprints
unfoldable pub dedupe_fingerprints : List Text → List Text
dedupe_fingerprints fps = distinct text_eq (keep (λ fp. not (text_eq fp [])) (map trim_space fps))

module _ (N : Floats) where
  open N use {Float, lt, le, zero_float, is_finite, almost_equal}

  -- sanitizeMetricSample
  unfoldable pub sanitize_metric_sample : Text → Float → Float
  sanitize_metric_sample metric v =
      if not (is_finite v)
      then zero_float
      else if any (text_eq (trim_space metric))
            (bytes "cpu_usage" ∷ bytes "ram_usage_percent" ∷ bytes "disk_usage_percent" ∷ [])
          && lt v zero_float
      then zero_float
      else v

  -- compareFloat
  unfoldable pub compare_float : Text → Float → Float → Bool
  compare_float operator value threshold =
      if text_eq operator (bytes ">")
      then lt threshold value
      else if text_eq operator (bytes "<")
      then lt value threshold
      else if text_eq operator (bytes ">=")
      then le threshold value
      else if text_eq operator (bytes "<=")
      then le value threshold
      else if text_eq operator (bytes "==")
      then almost_equal value threshold
      else false

-- UpsertUnresolvedAlert, the notification and maybeOpenIncidentForCritical, as each rule does them.
unfoldable pub fire : EngineState → Firing → EngineState
fire s f =
    let r = upsert_unresolved_alert s.alerts f 3600 in
    record s {
      alerts = r.1;
      notified = if r.0 then s.notified ++ f.fingerprint ∷ [] else s.notified;
      critical =
          if text_eq (trim_space (to_lower f.severity)) (bytes "critical")
          then s.critical ++ trim_space f.fingerprint ∷ []
          else s.critical;
    }

-- The firing for each device that meets a condition, and the fingerprints wanted.
unfoldable pub fire_all : EngineState → List Firing → EngineState
unfolding fire
fire_all s [] = s
fire_all s (f ∷ fs) = fire_all (fire s f) fs

-- CloseAlertsKindsExceptReturning, with its fingerprints kept for submitResolvedFingerprints.
abbrev pub close : AlertKind → List Text → EngineState → List Text × EngineState
close kind desired s =
    let r = close_alerts_kinds_except s.alerts kind desired in (r.0, record s { alerts = r.1 })

abbrev pub wanted : List Firing → List Text
wanted = map λ f. f.fingerprint

-- submitResolvedFingerprints
abbrev pub submit_resolved : List Text → EngineState → EngineState
submit_resolved fps s = record s { resolved = s.resolved ++ dedupe_fingerprints fps }

-- The calls out of the engine: `sample` is LoadAggregatedMetricInWindow with its average and its count
-- of rows, `seen` the seconds of LoadAssetHeartbeatMeta and SecondsSinceLastSeen, each none for an error;
-- `devices` is ListAssetsForAlerting; the last two write the fingerprint, and the title and message.
module _ (N : Floats) (sample : ℕ → Text → ℕ → Option (Floats.Float N × ℕ))
    (seen : ℕ → Option (Floats.Float N)) (devices : Option ℕ → List ℕ) (print : Text → ℕ → ℕ → Text)
    (describe : AlertRule (Floats.Float N) → ℕ → Text × Text) where
  open N use {Float}

  abbrev pub firing_of : AlertKind → Text → AlertRule Float → ℕ → Firing
  firing_of kind prefix rule asset = record {
    fingerprint = print prefix rule.id asset;
    kind = kind;
    device_id = some asset;
    rule_id = some rule.id;
    severity = trim_space rule.severity;
    title = (describe rule asset).0;
    message = (describe rule asset).1;
  }

  -- The condition of handleOfflineRule.
  unfoldable pub is_offline_breach : AlertRule Float → ℕ → Bool
  is_offline_breach rule asset = elim (seen asset) [
    | none ↦ false
    | some sec ↦ compare_float N (trim_space rule.operator) sec rule.threshold
  ]

  abbrev pub window_of : AlertRule Float → ℕ
  window_of rule = if rule.duration_seconds == 0 then 60 else rule.duration_seconds

  -- The condition of handleTelemetryRule.
  unfoldable pub is_metric_breach : AlertRule Float → ℕ → Bool
  is_metric_breach rule asset = elim (sample asset rule.metric (window_of rule)) [
    | none ↦ false
    | some (average, count) ↦
        not (count == 0)
        && compare_float N (trim_space rule.operator) (sanitize_metric_sample N rule.metric average)
            rule.threshold
  ]

  abbrev pub is_offline_rule : AlertRule Float → Bool
  is_offline_rule rule = text_eq (trim_space rule.metric) (bytes "offline_status")

  -- The firings of one rule of each kind, in the order of the devices.
  unfoldable pub offline_firings : AlertRule Float → List Firing
  unfolding is_offline_breach
  offline_firings rule =
      if is_offline_rule rule
      then map (firing_of rule_offline (bytes "rule-offline") rule)
          (keep (is_offline_breach rule) (devices rule.target_device_id))
      else []

  unfoldable pub metric_firings : AlertRule Float → List Firing
  unfolding is_metric_breach
  metric_firings rule =
      if is_offline_rule rule
      then []
      else map (firing_of rule_metric (bytes "rule-metric") rule)
          (keep (is_metric_breach rule) (devices rule.target_device_id))

  -- The loop of evaluateDeviceRules, with the two sets of wanted fingerprints.
  unfoldable pub rules_loop :
      EngineState
      → List (AlertRule Float)
      → List Text
      → List Text
      → EngineState × List Text × List Text
  unfolding fire_all offline_firings metric_firings
  rules_loop s [] offline metric = (s, offline, metric)
  rules_loop s (rule ∷ rules) offline metric =
      rules_loop (fire_all s (offline_firings rule ++ metric_firings rule)) rules
        (offline ++ wanted (offline_firings rule)) (metric ++ wanted (metric_firings rule))

  -- evaluateDeviceRules
  unfoldable pub evaluate_device_rules : EngineState → List (AlertRule Float) → EngineState
  unfolding rules_loop
  evaluate_device_rules s rules =
      let r = rules_loop s rules [] [] in
      let first = close rule_offline r.1 r.0 in
      let second = close rule_metric r.2 first.1 in
      submit_resolved (dedupe_fingerprints (first.0 ++ second.0)) second.1

  -- evaluateBuiltinOffline; `offline` are the firings of ScanAssetsOfflineBefore.
  unfoldable pub evaluate_builtin_offline : EngineState → List Firing → EngineState
  unfolding fire_all
  evaluate_builtin_offline s offline =
      let r = close builtin_offline (wanted offline) (fire_all s offline) in submit_resolved r.0 r.1

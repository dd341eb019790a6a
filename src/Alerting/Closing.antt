-- ===== src/Alerting/Closing.antt =====
-- Which alerts are open after an evaluation.
use arx_mdm.Prelude.{
  ℕ, ◌≡◌, refl, sym, ap, ◌⊎◌, inl, inr, Bool, true, false, ◌&&◌, not, Option, none, List, [], ◌∷◌,
  ◌++◌, map, Text, text_eq, text_eq_iff, any, keep, keep-In, trim_space, Bool-cases, is_none, In,
  Any, Any-append, Any-map, bytes, arith,
}
use arx_mdm.Alerting.Table.{
  AlertKind, rule_offline, rule_metric, kind_eq, Alert, Alerts, Firing, update_alerts, unwanted,
  close_alerts_kinds_except,
}
use arx_mdm.Alerting.Engine.{
  Floats, AlertRule, EngineState, fire_all, wanted, close, firing_of, is_metric_breach,
  is_offline_rule, offline_firings, metric_firings, rules_loop, evaluate_device_rules,
}

-- What a row was before an update.
update_alerts-In :
    (test : Alert → Bool) (change : Alert → Alert) (rows : List Alert) (a : Alert)
    → In a (update_alerts test change rows)
    → (b : Alert) × (((test b ≡ true) × (change b ≡ a)) ⊎ ((test b ≡ false) × (b ≡ a)))
unfolding update_alerts
update_alerts-In test change [] a h = elim h [ ]
update_alerts-In test change (b ∷ rows) a (inr m) = update_alerts-In test change rows a m
update_alerts-In test change (b ∷ rows) a (inl e) = elim (Bool-cases (test b)) [
  | inl t ↦ (b, inl (t, rw t at e))
  | inr t ↦ (b, inr (t, rw t at e))
]

any-In : (x : Text) (fps : List Text) → any (text_eq x) fps ≡ true → In x fps
any-In x [] h = cc h
any-In x (fp ∷ fps) h = elim (Bool-cases (text_eq x fp)) [
  | inl e ↦ inl (sym ((text_eq_iff x fp).0 e))
  | inr e ↦ inr (any-In x fps (rw e at h))
]

Any-found : {A : Type 0} (P : A → Type 0) (xs : List A) → Any P xs → (a : A) × In a xs × P a
Any-found P [] h = elim h [ ]
Any-found P (x ∷ xs) (inl p) = (x, inl refl, p)
Any-found P (x ∷ xs) (inr h) = let (a, m, p) = Any-found P xs h in (a, inr m, p)

-- The trimmed form of a fingerprint of the list.
abbrev pub IsTrimmedIn : Text → List Text → Type 0
IsTrimmedIn x = Any (λ fp. trim_space fp ≡ x)

wanted_any :
    (x : Text) (desired : List Text)
    → any (text_eq x) (keep (λ fp. not (text_eq fp [])) (map trim_space desired)) ≡ true
    → IsTrimmedIn x desired
wanted_any x desired h =
    (Any-map (λ fp. fp ≡ x) trim_space desired).0
      ((keep-In (λ fp. not (text_eq fp [])) x (map trim_space desired)).0 (any-In x _ h)).0

-- Every alert of the kind that is open after the closing has a wanted fingerprint.
close_alerts_kinds_except-open :
    (s : Alerts) (kind : AlertKind) (desired : List Text) (a : Alert)
    → In a (close_alerts_kinds_except s kind desired).1.rows
    → a.resolved_at ≡ none
    → kind_eq a.kind kind ≡ true
    → IsTrimmedIn a.fingerprint desired
unfolding close_alerts_kinds_except
close_alerts_kinds_except-open s kind desired a m r k =
    let (b, before) = update_alerts-In (unwanted kind desired) _ s.rows a m in
    elim before [
      | inl (t, e) ↦ cc (ap (λ x. x.resolved_at) e, r)
      | inr (t, e) ↦
          wanted_any a.fingerprint desired
            (still (is_none a.resolved_at) (kind_eq a.kind kind) _ (rw r refl) k (rw e at t))
    ]
  where
    still : (u v w : Bool) → u ≡ true → v ≡ true → (u && v && not w) ≡ false → w ≡ true
    still u v w h k t = ground arith

module _ (N : Floats) (sample : ℕ → Text → ℕ → Option (Floats.Float N × ℕ))
    (seen : ℕ → Option (Floats.Float N)) (devices : Option ℕ → List ℕ) (print : Text → ℕ → ℕ → Text)
    (describe : AlertRule (Floats.Float N) → ℕ → Text × Text) where
  open N use {Float}

  -- The fingerprint is that of the rule and of a device that breaches it.
  abbrev pub IsMetricBreach : Text → AlertRule Float → Type 0
  IsMetricBreach x rule =
      (is_offline_rule N sample seen devices print describe rule ≡ false)
      × ((d : ℕ) × In d (devices rule.target_device_id)
          × (is_metric_breach N sample seen devices print describe rule d ≡ true)
          × (trim_space (print (bytes "rule-metric") rule.id d) ≡ x))

  metric_firings-IsMetricBreach :
      (x : Text) (rule : AlertRule Float)
      → IsTrimmedIn x (wanted (metric_firings N sample seen devices print describe rule))
      → IsMetricBreach x rule
  unfolding metric_firings
  metric_firings-IsMetricBreach x rule m =
      elim (Bool-cases (is_offline_rule N sample seen devices print describe rule)) [
        | inl e ↦ elim (let none_left : ⊥ = rw (metric_firings, e) at m in none_left) [ ]
        | inr e ↦
            let breaching =
              keep (is_metric_breach N sample seen devices print describe rule)
                (devices rule.target_device_id) in
            let firing =
              firing_of N sample seen devices print describe rule_metric (bytes "rule-metric")
                rule in
            let n : IsTrimmedIn x (wanted (map firing breaching)) = rw (metric_firings, e) at m in
            let (d, i, t) = Any-found _ breaching (
              (Any-map (λ (f : Firing). trim_space f.fingerprint ≡ x) firing breaching).0 (
                (Any-map (λ fp. trim_space fp ≡ x) (λ (f : Firing). f.fingerprint)
                    (map firing breaching)).0
                  n)) in
            let (j, b) = (keep-In _ d (devices rule.target_device_id)).0 i in (e, (d, j, b, t))
      ]

  rules_loop-metric :
      (s : EngineState) (rules : List (AlertRule Float)) (offline metric : List Text) (x : Text)
      → IsTrimmedIn x (rules_loop N sample seen devices print describe s rules offline metric).2
      → IsTrimmedIn x metric ⊎ Any (IsMetricBreach x) rules
  unfolding rules_loop
  rules_loop-metric s [] offline metric x m = inl m
  rules_loop-metric s (rule ∷ rules) offline metric x m =
      let fired =
        offline_firings N sample seen devices print describe rule
        ++ metric_firings N sample seen devices print describe rule in
      let more = wanted (metric_firings N sample seen devices print describe rule) in
      elim (rules_loop-metric (fire_all s fired) rules
        (offline ++ wanted (offline_firings N sample seen devices print describe rule))
        (metric ++ more) x m) [
          | inr h ↦ inr (inr h)
          | inl h ↦ elim (Any-append (λ fp. trim_space fp ≡ x) metric more h) [
            | inl k ↦ inl k
            | inr k ↦ inr (inl (metric_firings-IsMetricBreach x rule k))
          ]
        ]

  -- Every metric alert that is open after an evaluation of the rules is that of a rule and a device whose
  -- samples breach the rule at that evaluation.
  pub evaluate_device_rules-open :
      (s : EngineState) (rules : List (AlertRule Float)) (a : Alert)
      → In a (evaluate_device_rules N sample seen devices print describe s rules).alerts.rows
      → a.resolved_at ≡ none
      → a.kind ≡ rule_metric
      → Any (IsMetricBreach a.fingerprint) rules
  unfolding evaluate_device_rules
  evaluate_device_rules-open s rules a m r k =
      let run = rules_loop N sample seen devices print describe s rules [] [] in
      elim (rules_loop-metric s rules [] [] a.fingerprint (
        close_alerts_kinds_except-open (close rule_offline run.1 run.0).1.alerts rule_metric run.2 a
          m r (rw k refl))) [ inl h ↦ elim h [ ] | inr h ↦ h ]

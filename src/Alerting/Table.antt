-- ===== src/Alerting/Table.antt =====
-- internal/database/alerting.go: the rows of `active_alerts`. The JSON details are left out.
use arx_mdm.Prelude.{
  ℕ, ◌-◌, Bool, true, false, ◌&&◌, not, Option, none, some, List, [], ◌∷◌, ◌++◌, map, Text, text_eq,
  any, keep, leb, ◌==◌, if◌then◌else◌, trim_space, is_none,
}

-- AlertKindBuiltinOffline and so on.
pub data AlertKind : Type 0 where
  builtin_offline rule_offline rule_metric : AlertKind

abbrev pub kind_eq : AlertKind → AlertKind → Bool
kind_eq builtin_offline builtin_offline = true
kind_eq rule_offline rule_offline = true
kind_eq rule_metric rule_metric = true
kind_eq _ _ = false

pub record Alert : Type 0 where
  pub fingerprint : Text
  pub kind : AlertKind
  pub device_id : Option ℕ
  pub rule_id : Option ℕ
  pub severity : Text
  pub title : Text
  pub message : Text
  pub triggered_at : ℕ
  pub last_notified_at : Option ℕ
  pub resolved_at : Option ℕ

-- `now` is the clock of the database and of the server, in seconds.
pub record Alerts : Type 0 where
  pub rows : List Alert
  pub now : ℕ

-- The arguments of UpsertUnresolvedAlert.
pub record Firing : Type 0 where
  pub fingerprint : Text
  pub kind : AlertKind
  pub device_id : Option ℕ
  pub rule_id : Option ℕ
  pub severity : Text
  pub title : Text
  pub message : Text

unfoldable pub find_alert : Text → List Alert → Option Alert
find_alert fp [] = none
find_alert fp (a ∷ rows) = if text_eq a.fingerprint fp then some a else find_alert fp rows

-- `UPDATE active_alerts SET … WHERE …`
unfoldable pub update_alerts : (Alert → Bool) → (Alert → Alert) → List Alert → List Alert
update_alerts test change [] = []
update_alerts test change (a ∷ rows) =
    (if test a then change a else a) ∷ update_alerts test change rows

-- decideNotifyOnOpen
abbrev pub decide_notify : ℕ → ℕ → Bool → Option ℕ → Bool
decide_notify now cooldown true last = true
decide_notify now cooldown false none = true
decide_notify now cooldown false (some last) = leb cooldown (now - last)

abbrev pub coalesce : Option ℕ → Option ℕ → Option ℕ
coalesce (some x) y = some x
coalesce none y = y

abbrev pub opened : ℕ → Firing → Alert
opened now f = record {
  fingerprint = f.fingerprint;
  kind = f.kind;
  device_id = f.device_id;
  rule_id = f.rule_id;
  severity = trim_space f.severity;
  title = trim_space f.title;
  message = trim_space f.message;
  triggered_at = now;
  last_notified_at = some now;
  resolved_at = none;
}

-- The two updates of a row that is there: it is opened again, or refreshed.
abbrev pub reopen : ℕ → Firing → Alert → Alert
reopen now f a = record a {
  rule_id = f.rule_id;
  kind = f.kind;
  device_id = f.device_id;
  severity = trim_space f.severity;
  title = trim_space f.title;
  message = trim_space f.message;
  resolved_at = none;
  triggered_at = now;
  last_notified_at = none;
}

abbrev pub refresh : Firing → Alert → Alert
refresh f a = record a {
  rule_id = coalesce f.rule_id a.rule_id;
  device_id = coalesce f.device_id a.device_id;
  severity = trim_space f.severity;
  title = trim_space f.title;
  message = trim_space f.message;
}

abbrev pub stamp : ℕ → Bool → Alert → Alert
stamp now notify a = if notify then record a { last_notified_at = some now } else a

abbrev pub touch : ℕ → ℕ → Firing → Alert → Alert
touch now cooldown f a =
    if is_none a.resolved_at
    then stamp now (decide_notify now cooldown false a.last_notified_at) (refresh f a)
    else stamp now true (reopen now f a)

abbrev pub should_notify : ℕ → ℕ → Alert → Bool
should_notify now cooldown a =
    decide_notify now cooldown (not (is_none a.resolved_at)) a.last_notified_at

-- UpsertUnresolvedAlert: whether to notify, and the rows. The fingerprint is the table's key.
unfoldable pub upsert_unresolved_alert : Alerts → Firing → ℕ → Bool × Alerts
unfolding find_alert update_alerts
upsert_unresolved_alert s f cooldown =
    let wait = if cooldown == 0 then 3600 else cooldown in
    elim (find_alert f.fingerprint s.rows) [
      | none ↦ (true, record s { rows = s.rows ++ opened s.now f ∷ [] })
      | some a ↦ (
        should_notify s.now wait a,
        record s {
          rows =
              update_alerts (λ b. text_eq b.fingerprint f.fingerprint) (touch s.now wait f) s.rows;
        },
      )
    ]

-- What the UPDATE of CloseAlertsKindsExceptReturning matches.
abbrev pub unwanted : AlertKind → List Text → Alert → Bool
unwanted kind desired a =
    is_none a.resolved_at
    && kind_eq a.kind kind
    && not (any (text_eq a.fingerprint) (keep (λ fp. not (text_eq fp [])) (map trim_space desired)))

-- The fingerprints that a RETURNING clause gives, trimmed and not blank.
abbrev pub returned : (Alert → Bool) → List Alert → List Text
returned test rows =
    keep (λ fp. not (text_eq fp [])) (map (λ a. trim_space a.fingerprint) (keep test rows))

-- CloseAlertsKindsExceptReturning
unfoldable pub close_alerts_kinds_except : Alerts → AlertKind → List Text → List Text × Alerts
unfolding update_alerts
close_alerts_kinds_except s kind desired = (
  returned (unwanted kind desired) s.rows,
  record s {
    rows =
        update_alerts (unwanted kind desired) (λ a. record a { resolved_at = some s.now }) s.rows;
  },
)

abbrev pub is_device : ℕ → Option ℕ → Bool
is_device k none = false
is_device k (some d) = d == k

abbrev pub offline_of : ℕ → Alert → Bool
offline_of k a =
    is_none a.resolved_at && is_device k a.device_id && not (kind_eq a.kind rule_metric)

-- ResolveActiveAlertsKindsForDeviceReturning: the offline alerts of a device, after a heartbeat.
unfoldable pub resolve_for_device : Alerts → ℕ → List Text × Alerts
unfolding update_alerts
resolve_for_device s k = (
  returned (offline_of k) s.rows,
  record s {
    rows = update_alerts (offline_of k) (λ a. record a { resolved_at = some s.now }) s.rows;
  },
)

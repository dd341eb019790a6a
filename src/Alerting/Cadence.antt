-- ===== src/Alerting/Cadence.antt =====
-- How often an alert notifies.
use arx_mdm.Prelude.{
  ℕ, ◌+◌, ◌-◌, ◌≡◌, ◌<◌, refl, ap, ◌∙◌, inl, inr, Bool, true, false, none, some, List, [], ◌∷◌,
  ◌++◌, Text, text_eq, text_eq_refl, leb, ◌==◌, if◌then◌else◌, Bool-cases, Option-cases, is_none,
  arith,
}
use arx_mdm.Alerting.Table.{
  AlertKind, Alert, Alerts, Firing, find_alert, update_alerts, decide_notify, opened, touch,
  should_notify, unwanted, upsert_unresolved_alert, close_alerts_kinds_except,
}

find_alert-fingerprint :
    (fp : Text) (rows : List Alert) (a : Alert)
    → find_alert fp rows ≡ some a
    → text_eq a.fingerprint fp ≡ true
unfolding find_alert
find_alert-fingerprint fp [] a h = cc h
find_alert-fingerprint fp (b ∷ rows) a h = elim (Bool-cases (text_eq b.fingerprint fp)) [
  | inl e ↦ let same : some b ≡ some a = rw (find_alert, e) at h in cc (same, e)
  | inr e ↦ find_alert-fingerprint fp rows a (rw (find_alert, e) at h)
]

find_alert-append :
    (fp : Text) (rows : List Alert) (a : Alert)
    → find_alert fp rows ≡ none
    → text_eq a.fingerprint fp ≡ true
    → find_alert fp (rows ++ a ∷ []) ≡ some a
unfolding find_alert
find_alert-append fp [] a h e = rw e
find_alert-append fp (b ∷ rows) a h e = elim (Bool-cases (text_eq b.fingerprint fp)) [
  | inl f ↦ elim (let absurd : ⊥ = cc (rw (find_alert, f) at h) in absurd) [ ]
  | inr f ↦ rw (find_alert, f) (find_alert-append fp rows a (rw (find_alert, f) at h) e)
]

find_alert-update_alerts :
    (fp : Text) (test : Alert → Bool) (change : Alert → Alert) (rows : List Alert) (a : Alert)
    → ((b : Alert) → (change b).fingerprint ≡ b.fingerprint)
    → find_alert fp rows ≡ some a
    → test a ≡ true
    → find_alert fp (update_alerts test change rows) ≡ some (change a)
unfolding find_alert update_alerts
find_alert-update_alerts fp test change [] a same h t = cc h
find_alert-update_alerts fp test change (b ∷ rows) a same h t =
    elim (Bool-cases (text_eq b.fingerprint fp)) [
      | inl e ↦
          let eq : some b ≡ some a = rw (find_alert, e) at h in
          let self : b ≡ a = cc eq in
          let tb : test b ≡ true = cc (self, t) in
          let k : text_eq (change b).fingerprint fp ≡ true = rw (same b) e in
          rw (find_alert, update_alerts, tb, k) (ap (λ x. some (change x)) self)
      | inr e ↦
          let k : text_eq (change b).fingerprint fp ≡ false = rw (same b) e in
          let rest =
            find_alert-update_alerts fp test change rows a same (rw (find_alert, e) at h) t in
          elim (Bool-cases (test b)) [
            | inl u ↦ rw (find_alert, update_alerts, u, k) rest
            | inr u ↦ rw (find_alert, update_alerts, u, e) rest
          ]
    ]

touch-fingerprint :
    (now wait : ℕ) (f : Firing) (a : Alert) → (touch now wait f a).fingerprint ≡ a.fingerprint
touch-fingerprint now wait f a = elim (Bool-cases (is_none a.resolved_at)) [
  | inr e ↦ rw e
  | inl e ↦ elim (Bool-cases (decide_notify now wait false a.last_notified_at)) [
    | inl d ↦ rw (e, d)
    | inr d ↦ rw (e, d)
  ]
]

-- The row after a firing that notified: it is open, and the notification is of now.
abbrev IsStamped : ℕ → Text → List Alert → Type 0
IsStamped now fp rows =
    (a : Alert) × (find_alert fp rows ≡ some a)
    × (a.resolved_at ≡ none)
    × (a.last_notified_at ≡ some now)

touch-stamped :
    (now wait : ℕ) (f : Firing) (a : Alert)
    → should_notify now wait a ≡ true
    → ((touch now wait f a).resolved_at ≡ none) × ((touch now wait f a).last_notified_at ≡ some now)
touch-stamped now wait f a h = elim (Option-cases a.resolved_at) [
  | inl e ↦
      let d : decide_notify now wait false a.last_notified_at ≡ true = rw e at h in
      rw (e, d) (refl, refl)
  | inr (t, e) ↦ rw e (refl, refl)
]

found-upsert_unresolved_alert :
    (s : Alerts) (f : Firing) (cooldown : ℕ) (a : Alert)
    → find_alert f.fingerprint s.rows ≡ some a
    → (upsert_unresolved_alert s f cooldown).0
      ≡ should_notify s.now (if cooldown == 0 then 3600 else cooldown) a
unfolding upsert_unresolved_alert
found-upsert_unresolved_alert s f cooldown a h = rw (h, upsert_unresolved_alert)

early :
    (now later cooldown : ℕ)
    → later < cooldown
    → leb (if cooldown == 0 then 3600 else cooldown) (now + later - now) ≡ false
early now later cooldown l = ground arith

upsert_unresolved_alert-IsStamped :
    (s : Alerts) (f : Firing) (cooldown : ℕ)
    → (upsert_unresolved_alert s f cooldown).0 ≡ true
    → IsStamped s.now f.fingerprint (upsert_unresolved_alert s f cooldown).1.rows
unfolding upsert_unresolved_alert
upsert_unresolved_alert-IsStamped s f cooldown h =
    elim (Option-cases (find_alert f.fingerprint s.rows)) [
      | inl e ↦
          rw (e, upsert_unresolved_alert)
            (
              opened s.now f,
              find_alert-append f.fingerprint s.rows (opened s.now f) e
                  (text_eq_refl f.fingerprint),
              refl,
              refl,
            )
      | inr (a, e) ↦
          let wait = if cooldown == 0 then 3600 else cooldown in
          let told : should_notify s.now wait a ≡ true = rw (e, upsert_unresolved_alert) at h in
          let (r, l) = touch-stamped s.now wait f a told in
          rw (e, upsert_unresolved_alert)
            (
              touch s.now wait f a,
              find_alert-update_alerts f.fingerprint _ (touch s.now wait f) s.rows a
                  (touch-fingerprint s.now wait f) e
                  (find_alert-fingerprint f.fingerprint s.rows a e),
              r,
              l,
            )
    ]

-- After a firing that notified, a second one of the same fingerprint does not notify while the
-- alert stays open and the cooldown has not passed.
pub upsert_unresolved_alert-cooldown :
    (s : Alerts) (f g : Firing) (cooldown later : ℕ)
    → (upsert_unresolved_alert s f cooldown).0 ≡ true
    → g.fingerprint ≡ f.fingerprint
    → later < cooldown
    → (let t = (upsert_unresolved_alert s f cooldown).1 in
        (upsert_unresolved_alert (record t { now = s.now + later }) g cooldown).0)
      ≡ false
upsert_unresolved_alert-cooldown s f g cooldown later h same l =
    let t = (upsert_unresolved_alert s f cooldown).1 in
    let (a, e, r, n) = upsert_unresolved_alert-IsStamped s f cooldown h in
    let told =
      found-upsert_unresolved_alert (record t { now = s.now + later }) g cooldown a (rw same e) in
    told ∙ rw (r, n) (early s.now later cooldown l)

-- An alert that was closed because its fingerprint was not wanted notifies at once when it fires again,
-- whatever the cooldown.
pub close-upsert_unresolved_alert :
    (s : Alerts) (kind : AlertKind) (desired : List Text) (f : Firing) (cooldown : ℕ) (a : Alert)
    → find_alert f.fingerprint s.rows ≡ some a
    → unwanted kind desired a ≡ true
    → (upsert_unresolved_alert (close_alerts_kinds_except s kind desired).1 f cooldown).0 ≡ true
unfolding close_alerts_kinds_except
close-upsert_unresolved_alert s kind desired f cooldown a h u =
    found-upsert_unresolved_alert (close_alerts_kinds_except s kind desired).1 f cooldown
      (record a { resolved_at = some s.now })
      (find_alert-update_alerts f.fingerprint (unwanted kind desired)
        (λ b. record b { resolved_at = some s.now }) s.rows a (λ b. refl) h u)

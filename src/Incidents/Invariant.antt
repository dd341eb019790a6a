-- ===== src/Incidents/Invariant.antt =====
-- What every call leaves true of the incidents.
use arx_mdm.Prelude.{
  ℕ, ◌≡◌, refl, inl, inr, Bool, true, false, ◌&&◌, ◌||◌, not, Option, none, some, List, [], ◌∷◌,
  ◌++◌, map, Text, text_eq, text_eq_iff, bytes, All, All-append, keep, is_none, ◌==◌, Bool-cases,
  Option-cases, arith, trim_space,
}
use arx_mdm.Prelude.Sort.{distinct}
use arx_mdm.Prelude.Result.{Result-cases}
use arx_mdm.Incidents.Table.{
  Note, Incident, Incidents, validate_incident_state, has_fingerprint, find_fingerprint,
  find_incident, add_note,
}
use arx_mdm.Incidents.Automation.{
  impact_urgency_of, new_incident, refreshed, upsert_incident_for_critical_fingerprint, is_closed,
  resolve_fingerprint, resolve_all, auto_resolve_incidents_for_alert_fingerprints,
  append_incident_work_note_json,
}
use arx_mdm.Incidents.Patch.{
  PatchIncidentRequest, is_refused, Change, Lookups, changes, apply_all, has_change, manual_note,
  with_note, handle_incident_patch,
}
use arx_mdm.Incidents.Rows.{
  IsRank, IsWellFormed, AreApart, IsOnePerAlert, impact_urgency_of-IsRank, IsKept, IsSound,
  update-IsSound, recovered-allowed, refreshed-IsKept,
}
use arx_mdm.Incidents.Changes.{changes-IsKept}

find_fingerprint-none :
    (fp : Text) (rows : List Incident)
    → find_fingerprint fp rows ≡ none
    → All (λ i. AreApart i.source_alert_fingerprint (some fp)) rows
unfolding find_fingerprint
find_fingerprint-none fp [] h = tt
find_fingerprint-none fp (i ∷ is) h = elim (Bool-cases (has_fingerprint fp i)) [
  | inl e ↦ cc (rw (find_fingerprint, e) at h)
  | inr e ↦ (
    apart i.source_alert_fingerprint e,
    find_fingerprint-none fp is (rw (find_fingerprint, e) at h),
  )
]
  where
    apart :
        (o : Option Text)
        → (elim o [ none ↦ false | some f ↦ text_eq f fp ]) ≡ false
        → AreApart o (some fp)
    apart none e = tt
    apart (some f) e = λ same. cc (e, (text_eq_iff f fp).1 same)

append-IsOnePerAlert :
    (rows : List Incident) (i : Incident)
    → IsOnePerAlert rows
    → All (λ b. AreApart b.source_alert_fingerprint i.source_alert_fingerprint) rows
    → IsOnePerAlert (rows ++ i ∷ [])
append-IsOnePerAlert [] i h k = (tt, tt)
append-IsOnePerAlert (b ∷ bs) i h k =
    (All-append _ bs (i ∷ []) h.0 (k.0, tt), append-IsOnePerAlert bs i h.1 k.1)

opened :
    (severity : Text)
    → (validate_incident_state (bytes "new") ≡ true)
      × IsRank (impact_urgency_of severity).0
      × IsRank (impact_urgency_of severity).1
unfolding validate_incident_state text_eq
opened severity = let (a, b) = impact_urgency_of-IsRank severity in (refl, a, b)

upsert-IsSound :
    (t : Incidents) (now : ℕ) (fingerprint : Text) (device_id : ℕ) (title message severity : Text)
    → IsSound t.rows
    → IsSound
        (upsert_incident_for_critical_fingerprint t now fingerprint device_id title message
          severity).rows
unfolding upsert_incident_for_critical_fingerprint validate_incident_state text_eq
upsert-IsSound t now fingerprint device_id title message severity h =
    elim (Bool-cases (text_eq (trim_space fingerprint) [] || device_id == 0)) [
      | inl e ↦ rw (upsert_incident_for_critical_fingerprint, e) h
      | inr e ↦ elim (Option-cases (find_fingerprint (trim_space fingerprint) t.rows)) [
        | inl f ↦
            rw (upsert_incident_for_critical_fingerprint, e, f)
              (
                All-append IsWellFormed t.rows _ h.0 (opened severity, tt),
                append-IsOnePerAlert t.rows
                    (new_incident t now (trim_space fingerprint) device_id title message severity)
                    h.1 (find_fingerprint-none (trim_space fingerprint) t.rows f),
              )
        | inr (found, f) ↦
            rw (upsert_incident_for_critical_fingerprint, e, f)
              (update-IsSound (λ i. i.id == found.id)
                (refreshed now device_id title message severity)
                (refreshed-IsKept now device_id title message severity) t.rows h)
      ]
    ]

resolve_all-IsSound :
    (fps : List Text) (rows : List Incident) → IsSound rows → IsSound (resolve_all fps rows)
unfolding resolve_all resolve_fingerprint
resolve_all-IsSound [] rows h = h
resolve_all-IsSound (fp ∷ fps) rows h = resolve_all-IsSound fps (resolve_fingerprint fp rows) (
    update-IsSound (λ i. has_fingerprint fp i && not (is_closed i)) _
      (λ i w. ((recovered-allowed i.state w.0, w.1, w.2), refl)) rows h)

handle_incident_patch-IsSound :
    (l : Lookups) (user : ℕ) (t : Incidents) (k : ℕ) (req : PatchIncidentRequest)
    → IsSound t.rows
    → IsSound (handle_incident_patch l user t k req).1.rows
unfolding handle_incident_patch is_refused
handle_incident_patch-IsSound l user t k req h = elim (Bool-cases (is_refused req)) [
  | inl e ↦ rw (handle_incident_patch, e) h
  | inr e ↦ elim (Bool-cases (not (is_none note) && missing)) [
    | inl f ↦ rw (handle_incident_patch, e, f) h
    | inr f ↦ elim (Result-cases (changes l req)) [
      | inr (x, g) ↦ rw (handle_incident_patch, e, f, g) h
      | inl (cs, g) ↦ elim (Bool-cases (not (has_change cs) && is_none note)) [
        | inl a ↦ rw (handle_incident_patch, e, f, g, a) h
        | inr a ↦ elim (Bool-cases missing) [
          | inl b ↦ rw (handle_incident_patch, e, f, g, a, b) h
          | inr b ↦
              rw (handle_incident_patch, e, f, g, a, b)
                (update-IsSound (λ i. i.id == k) (apply_all (with_note note ∷ cs))
                  (noted note cs (changes-IsKept l req cs (ground arith) g)) t.rows h)
        ]
      ]
    ]
  ]
]
  where
    note : Option Note
    note = manual_note user req.append_work_note

    missing : Bool
    missing = is_none (find_incident k t.rows)

    noted :
        (o : Option Note) (cs : List Change)
        → IsKept (apply_all cs)
        → IsKept (apply_all (with_note o ∷ cs))
    noted none cs kept i w = kept i w
    noted (some n) cs kept i w = kept (add_note n i) w

-- A call that changes incidents.
pub data Call : Type 0 where
  upsert : ℕ → Text → ℕ → Text → Text → Text → Call
  auto_resolve : List Text → Call
  append_note : ℕ → Note → Call
  patch : Lookups → ℕ → ℕ → PatchIncidentRequest → Call

unfoldable pub step : Incidents → Call → Incidents
step t (upsert now fp device_id title message severity) =
    upsert_incident_for_critical_fingerprint t now fp device_id title message severity
step t (auto_resolve fps) = auto_resolve_incidents_for_alert_fingerprints fps t
step t (append_note k note) = (append_incident_work_note_json k note t).1
step t (patch l user k req) = (handle_incident_patch l user t k req).1

unfoldable pub run : Incidents → List Call → Incidents
unfolding step
run t [] = t
run t (c ∷ cs) = run (step t c) cs

step-IsSound : (t : Incidents) (c : Call) → IsSound t.rows → IsSound (step t c).rows
unfolding step auto_resolve_incidents_for_alert_fingerprints append_incident_work_note_json
step-IsSound t (upsert now fp device_id title message severity) h =
    upsert-IsSound t now fp device_id title message severity h
step-IsSound t (auto_resolve fps) h =
    resolve_all-IsSound (distinct text_eq (keep (λ fp. not (text_eq fp [])) (map trim_space fps)))
      t.rows h
step-IsSound t (append_note k note) h = update-IsSound _ (add_note note) (λ i w. (w, refl)) t.rows h
step-IsSound t (patch l user k req) h = handle_incident_patch-IsSound l user t k req h

-- After any history of alerts, recoveries, notes and changes by operators, every incident has an allowed state
-- and an impact and urgency from 1 to 3, and no alert has two incidents, where both held before.
pub run-IsWellFormed :
    (t : Incidents) (cs : List Call)
    → All IsWellFormed t.rows
    → IsOnePerAlert t.rows
    → All IsWellFormed (run t cs).rows × IsOnePerAlert (run t cs).rows
unfolding run
run-IsWellFormed t [] w p = (w, p)
run-IsWellFormed t (c ∷ cs) w p =
    let next = step-IsSound t c (w, p) in run-IsWellFormed (step t c) cs next.0 next.1

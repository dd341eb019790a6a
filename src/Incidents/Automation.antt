-- ===== src/Incidents/Automation.antt =====
-- internal/database/incidents.go: the incident of an alert's fingerprint. Statements succeed, and each call is
-- one transaction.
use arx_mdm.Prelude.{
  ℕ, zero, suc, leb, ltb, ◌+◌, ◌*◌, Bool, ◌&&◌, ◌||◌, not, Option, none, some, List, [], ◌∷◌, ◌++◌,
  map, Text, text_eq, bytes, keep, ◌==◌, if◌then◌else◌, trim_space, to_lower, is_none,
}
use arx_mdm.Prelude.Sort.{distinct}
use arx_mdm.Incidents.Table.{
  Note, Incident, Incidents, find_fingerprint, find_incident, has_fingerprint, update_incidents,
  add_note,
}

-- Impact and urgency, and the hours to the due time, of a severity.
unfoldable pub impact_urgency_of : Text → ℕ × ℕ
impact_urgency_of severity =
    let s = to_lower (trim_space severity) in
    if text_eq s (bytes "critical")
    then (1, 1)
    else if text_eq s (bytes "warning")
    then (2, 1)
    else (2, 2)

unfoldable pub sla_seconds_of : Text → ℕ
sla_seconds_of severity =
    let s = to_lower (trim_space severity) in
    3600
    * (if text_eq s (bytes "critical") then 4 else if text_eq s (bytes "warning") then 24 else 72)

-- The statement's `left(text, n)`, n characters of UTF-8: a byte from 0x80 to 0xbf continues a character.
abbrev pub is_continuation : ℕ → Bool
is_continuation c = leb 0x80 c && ltb c 0xc0

unfoldable pub left : Text → ℕ → Text
left [] n = []
left (c ∷ s) zero = if is_continuation c then c ∷ left s zero else []
left (c ∷ s) (suc n) = c ∷ left s (if is_continuation c then suc n else n)

abbrev pub or_else : Option ℕ → ℕ → Option ℕ
or_else none d = some d
or_else (some c) d = some c

abbrev pub separator : Text
separator = b' ' ∷ 0xc2 ∷ 0xb7 ∷ b' ' ∷ []

abbrev pub open_note : Text → Text → Note
open_note title message = record {
  kind = bytes "alert_open";
  text = trim_space title ++ separator ++ trim_space message;
  user_id = none;
}

abbrev pub repeat_note : Text → Note
repeat_note message = record {
  kind = bytes "alert_repeat";
  text = bytes "Alert re-triggered: " ++ trim_space message;
  user_id = none;
}

abbrev pub recovery_note : Text → Note
recovery_note fp = record {
  kind = bytes "alert_recovery";
  text =
      bytes "Monitoring detected recovery for alert fingerprint "
      ++ fp
      ++ bytes ". Incident resolved automatically.";
  user_id = none;
}

-- The state of a row whose alert fires again, and of one whose alert is over.
unfoldable pub reopened : Text → Text
reopened state =
    if text_eq state (bytes "resolved") || text_eq state (bytes "closed")
    then bytes "in_progress"
    else state

unfoldable pub recovered : Text → Text
recovered state =
    if text_eq state (bytes "new")
      || text_eq state (bytes "in_progress")
      || text_eq state (bytes "on_hold")
    then bytes "resolved"
    else state

-- The inserted row, and the update of the row found.
abbrev pub new_incident : Incidents → ℕ → Text → ℕ → Text → Text → Text → Incident
new_incident t now fp device_id title message severity = record {
  id = t.next_id;
  incident_number = t.incident_seq;
  assigned_to = none;
  cmdb_ci = some device_id;
  state = bytes "new";
  impact = (impact_urgency_of severity).0;
  urgency = (impact_urgency_of severity).1;
  short_description = left (trim_space title) 500;
  work_notes = open_note title message ∷ [];
  sla_due = some (now + sla_seconds_of severity);
  source_alert_fingerprint = some fp;
}

abbrev pub refreshed : ℕ → ℕ → Text → Text → Text → Incident → Incident
refreshed now device_id title message severity i = record i {
  sla_due = some (now + sla_seconds_of severity);
  short_description = left (trim_space title) 500;
  impact = (impact_urgency_of severity).0;
  urgency = (impact_urgency_of severity).1;
  cmdb_ci = or_else i.cmdb_ci device_id;
  state = reopened i.state;
  work_notes = i.work_notes ++ repeat_note message ∷ [];
}

-- UpsertIncidentForCriticalFingerprint; the table is as before where the call is refused.
unfoldable pub upsert_incident_for_critical_fingerprint :
    Incidents → ℕ → Text → ℕ → Text → Text → Text → Incidents
unfolding find_fingerprint update_incidents
upsert_incident_for_critical_fingerprint t now fingerprint device_id title message severity =
    let fp = trim_space fingerprint in
    if text_eq fp [] || device_id == 0 then t else elim (find_fingerprint fp t.rows) [
      | none ↦ record {
        rows = t.rows ++ new_incident t now fp device_id title message severity ∷ [];
        next_id = suc t.next_id;
        incident_seq = suc t.incident_seq;
      }
      | some found ↦ record t {
        rows =
            update_incidents (λ i. i.id == found.id)
              (refreshed now device_id title message severity) t.rows;
      }
    ]

abbrev pub is_closed : Incident → Bool
is_closed i = text_eq i.state (bytes "closed")

-- The statement of one fingerprint.
unfoldable pub resolve_fingerprint : Text → List Incident → List Incident
unfolding update_incidents recovered
resolve_fingerprint fp rows =
    update_incidents (λ i. has_fingerprint fp i && not (is_closed i))
      (λ i. record i {
        work_notes = i.work_notes ++ recovery_note fp ∷ [];
        state = recovered i.state;
      })
      rows

unfoldable pub resolve_all : List Text → List Incident → List Incident
unfolding resolve_fingerprint
resolve_all [] rows = rows
resolve_all (fp ∷ fps) rows = resolve_all fps (resolve_fingerprint fp rows)

-- AutoResolveIncidentsForAlertFingerprints
unfoldable pub auto_resolve_incidents_for_alert_fingerprints : List Text → Incidents → Incidents
unfolding resolve_all
auto_resolve_incidents_for_alert_fingerprints fingerprints t = record t {
  rows =
      resolve_all
        (distinct text_eq (keep (λ fp. not (text_eq fp [])) (map trim_space fingerprints))) t.rows;
}

-- AppendIncidentWorkNoteJSON: whether the note was added.
unfoldable pub append_incident_work_note_json : ℕ → Note → Incidents → Bool × Incidents
unfolding find_incident update_incidents
append_incident_work_note_json k note t = (
  not (k == 0) && not (is_none (find_incident k t.rows)),
  record t { rows = update_incidents (λ i. not (k == 0) && i.id == k) (add_note note) t.rows },
)

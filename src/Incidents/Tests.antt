-- ===== src/Incidents/Tests.antt =====
-- Incidents by example.
use arx_mdm.Prelude.{
  ◌≡◌, refl, inl, true, false, none, some, List, [], ◌∷◌, map, text_eq, bytes, All, In, trim_space,
  trim_left, to_lower,
}
use arx_mdm.Prelude.Sort.{distinct, distinct_from}
use arx_mdm.Incidents.Table.{
  Incident, Incidents, validate_incident_state, normalize_incident_state, impact_urgency_or_default,
  has_fingerprint, find_fingerprint, find_incident, update_incidents,
}
use arx_mdm.Incidents.Automation.{
  impact_urgency_of, sla_seconds_of, left, reopened, recovered, is_closed,
  upsert_incident_for_critical_fingerprint, resolve_fingerprint, resolve_all,
  auto_resolve_incidents_for_alert_fingerprints, append_incident_work_note_json,
}
use arx_mdm.Incidents.Patch.{
  PatchIncidentRequest, is_refused, Lookups, sla_change, asset_change, assign_change, changes,
  manual_note, handle_incident_patch,
}
use arx_mdm.Incidents.Rows.{IsWellFormed, IsOnePerAlert}
use arx_mdm.Incidents.Invariant.{Call, upsert, auto_resolve, patch, step, run, run-IsWellFormed}
use arx_mdm.Incidents.Recovery.{IsOver, auto_resolve_incidents_for_alert_fingerprints-IsOver}

open_all : Unit {0}
unfolding text_eq trim_space trim_left to_lower distinct distinct_from validate_incident_state
    normalize_incident_state impact_urgency_or_default find_fingerprint find_incident
    update_incidents impact_urgency_of sla_seconds_of reopened recovered
    upsert_incident_for_critical_fingerprint resolve_fingerprint resolve_all
    auto_resolve_incidents_for_alert_fingerprints append_incident_work_note_json is_refused
    sla_change asset_change assign_change changes manual_note handle_incident_patch step run
open_all = tt

abbrev nothing : Incidents
nothing = record { rows = []; next_id = 1; incident_seq = 1 }

abbrev lookups : Lookups
lookups = record {
  parse_time = λ _. none;
  asset_of_human_id = λ _. none;
  parse_uuid = λ _. none;
  user_exists = λ _. false;
}

abbrev close_it : PatchIncidentRequest
close_it = record {
  short_description = none;
  state = some (bytes " Closed");
  impact = some 7;
  urgency = none;
  linked_asset_human_id = none;
  assigned_to_user_id = some (bytes " ");
  clear_assigned_to = none;
  append_work_note = some (bytes "done");
  sla_due = none;
}

abbrev one_alert : Call
one_alert = upsert 100 (bytes "disk") 5 (bytes "Disk") (bytes "full") (bytes "critical")

abbrev opened_once : Incidents
opened_once = run nothing (one_alert ∷ [])

abbrev history : List Call
history = one_alert ∷ auto_resolve (bytes "disk" ∷ []) ∷ one_alert ∷ patch lookups 1 1 close_it ∷ []

run-IsWellFormed_example :
    All IsWellFormed (run nothing history).rows × IsOnePerAlert (run nothing history).rows
run-IsWellFormed_example = run-IsWellFormed nothing history tt tt

-- The alert's return reopens its incident, which the operator closes.
one_incident :
    map
      (λ i. i.state)
      (run nothing (one_alert ∷ auto_resolve (bytes "disk" ∷ []) ∷ one_alert ∷ [])).rows
    ≡ bytes "in_progress" ∷ []
unfolding open_all
one_incident = refl

closed_incident : map (λ i. i.state) (run nothing history).rows ≡ bytes "closed" ∷ []
unfolding open_all
closed_incident = refl

auto_resolve_incidents_for_alert_fingerprints-IsOver_example :
    All
      (λ i. has_fingerprint (bytes "disk") i ≡ true → IsOver i)
      (auto_resolve_incidents_for_alert_fingerprints (bytes "disk" ∷ []) opened_once).rows
    × ((i : Incident)
        → is_closed i ≡ true
        → In i opened_once.rows
        → In i (auto_resolve_incidents_for_alert_fingerprints (bytes "disk" ∷ []) opened_once).rows)
unfolding open_all
auto_resolve_incidents_for_alert_fingerprints-IsOver_example =
    auto_resolve_incidents_for_alert_fingerprints-IsOver (bytes "disk" ∷ []) opened_once
      (bytes "disk") (inl refl) refl refl (refl, tt)

-- Two characters, the second of two bytes.
left_of : left (b'a' ∷ 0xc3 ∷ 0xa9 ∷ b'b' ∷ []) 2 ≡ b'a' ∷ 0xc3 ∷ 0xa9 ∷ []
unfolding left
left_of = refl

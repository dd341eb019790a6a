-- ===== src/Incidents/Table.antt =====
-- The rows of `incidents`, and the values that the code gives their columns.
use arx_mdm.Prelude.{
  ℕ, ◌%◌, Bool, false, ◌||◌, Option, none, some, List, [], ◌∷◌, ◌++◌, Text, text_eq, bytes, any,
  ltb, leb, ◌==◌, if◌then◌else◌, trim_space, to_lower,
}

-- A note: its kind and its text, and the user who wrote it.
pub record Note : Type 0 where
  pub kind : Text
  pub text : Text
  pub user_id : Option ℕ

pub record Incident : Type 0 where
  pub id : ℕ
  pub incident_number : ℕ
  pub assigned_to : Option ℕ
  pub cmdb_ci : Option ℕ
  pub state : Text
  pub impact : ℕ
  pub urgency : ℕ
  pub short_description : Text
  pub work_notes : List Note
  pub sla_due : Option ℕ
  pub source_alert_fingerprint : Option Text

-- The rows with the next id and the sequence `incident_seq`.
pub record Incidents : Type 0 where
  pub rows : List Incident
  pub next_id : ℕ
  pub incident_seq : ℕ

-- allowedIncidentState and validateIncidentState
abbrev pub allowed_incident_state : List Text
allowed_incident_state =
    bytes "new" ∷ bytes "in_progress" ∷ bytes "on_hold" ∷ bytes "resolved" ∷ bytes "closed" ∷ []

unfoldable pub validate_incident_state : Text → Bool
validate_incident_state s = any (text_eq s) allowed_incident_state

-- normalizeIncidentState
unfoldable pub normalize_incident_state : Text → Text
normalize_incident_state s = to_lower (trim_space s)

-- impactUrgencyOrDefault: the number is a 64-bit word in two's complement, and int16 keeps its low half.
unfoldable pub impact_urgency_or_default : Option ℕ → ℕ
impact_urgency_or_default none = 2
impact_urgency_or_default (some v) =
    let x = v % 65536 in if x == 0 || leb 32768 x then 1 else if ltb 3 x then 3 else x

-- Whether a row is of an alert.
abbrev pub has_fingerprint : Text → Incident → Bool
has_fingerprint fp i = elim i.source_alert_fingerprint [ none ↦ false | some f ↦ text_eq f fp ]

unfoldable pub find_fingerprint : Text → List Incident → Option Incident
find_fingerprint fp [] = none
find_fingerprint fp (i ∷ is) = if has_fingerprint fp i then some i else find_fingerprint fp is

unfoldable pub find_incident : ℕ → List Incident → Option Incident
find_incident k [] = none
find_incident k (i ∷ is) = if i.id == k then some i else find_incident k is

-- `UPDATE incidents SET … WHERE …`
unfoldable pub update_incidents :
    (Incident → Bool) → (Incident → Incident) → List Incident → List Incident
update_incidents p change [] = []
update_incidents p change (i ∷ is) = (if p i then change i else i) ∷ update_incidents p change is

abbrev pub add_note : Note → Incident → Incident
add_note n i = record i { work_notes = i.work_notes ++ n ∷ [] }

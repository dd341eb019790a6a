-- ===== src/Incidents/Patch.antt =====
-- handlePatch of internal/api/incidents.go behind its guards, on a body that decodes; an answer is its status.
use arx_mdm.Prelude.{
  ℕ, Bool, false, ◌&&◌, ◌||◌, not, Option, none, some, List, [], ◌∷◌, Text, text_eq, bytes, ◌==◌,
  if◌then◌else◌, trim_space, is_none,
}
use arx_mdm.Prelude.Result.{Result, err, ok, ◌>>=◌}
use arx_mdm.Incidents.Table.{
  Note, Incident, Incidents, validate_incident_state, normalize_incident_state,
  impact_urgency_or_default, find_incident, update_incidents, add_note,
}

pub record PatchIncidentRequest : Type 0 where
  pub short_description : Option Text
  pub state : Option Text
  pub impact : Option ℕ
  pub urgency : Option ℕ
  pub linked_asset_human_id : Option Text
  pub assigned_to_user_id : Option Text
  pub clear_assigned_to : Option Bool
  pub append_work_note : Option Text
  pub sla_due : Option Text

abbrev pub no_fields : PatchIncidentRequest → Bool
no_fields req =
    is_none req.short_description
    && is_none req.state
    && is_none req.impact
    && is_none req.urgency
    && is_none req.linked_asset_human_id
    && is_none req.assigned_to_user_id
    && is_none req.clear_assigned_to
    && is_none req.append_work_note
    && is_none req.sla_due

-- pointerStr
abbrev pub pointer_str : Option Text → Text
pointer_str none = []
pointer_str (some s) = s

abbrev pub is_set : Option Bool → Bool
is_set none = false
is_set (some b) = b

-- The checks before the transaction.
abbrev pub is_blank_field : Option Text → Bool
is_blank_field none = false
is_blank_field (some s) = text_eq (trim_space s) []

abbrev pub is_bad_state : Option Text → Bool
is_bad_state none = false
is_bad_state (some s) = not (validate_incident_state (normalize_incident_state s))

unfoldable pub is_refused : PatchIncidentRequest → Bool
is_refused req =
    no_fields req
    || is_blank_field req.short_description
    || is_bad_state req.state
    || (is_set req.clear_assigned_to
        && not (text_eq (trim_space (pointer_str req.assigned_to_user_id)) []))

-- One assignment of the UPDATE, none where the request does not name it.
abbrev pub Change : Type 0
Change = Option (Incident → Incident)

abbrev pub apply : Change → Incident → Incident
apply none i = i
apply (some f) i = f i

abbrev pub change_by : {A : Type 0} → (A → Incident → Incident) → Option A → Change
change_by set none = none
change_by set (some v) = some (set v)

-- time.Parse, the lookups of a device by its human id and of a user, and uuid.Parse.
pub record Lookups : Type 0 where
  pub parse_time : Text → Option ℕ
  pub asset_of_human_id : Text → Option ℕ
  pub parse_uuid : Text → Option ℕ
  pub user_exists : ℕ → Bool

unfoldable pub sla_change : Lookups → Option Text → Result ℕ Change
sla_change l none = ok none
sla_change l (some raw) = elim (l.parse_time (trim_space raw)) [
  | none ↦ err 400
  | some at ↦ ok (some (λ i. record i { sla_due = some at }))
]

unfoldable pub asset_change : Lookups → Option Text → Result ℕ Change
asset_change l none = ok none
asset_change l (some human_id) =
    if text_eq (trim_space human_id) []
    then ok (some (λ i. record i { cmdb_ci = none }))
    else elim (l.asset_of_human_id (trim_space human_id)) [
      | none ↦ err 400
      | some asset ↦ ok (some (λ i. record i { cmdb_ci = some asset }))
    ]

abbrev pub assign : Option ℕ → Change
assign who = some (λ i. record i { assigned_to = who })

abbrev pub assign_user : Lookups → Option ℕ → Result ℕ Change
assign_user l none = err 400
assign_user l (some user) = if l.user_exists user then ok (assign (some user)) else err 400

unfoldable pub assign_change : Lookups → Option Bool → Option Text → Result ℕ Change
assign_change l clear user = if is_set clear then ok (assign none) else elim user [
  | none ↦ ok none
  | some raw ↦
      if text_eq (trim_space raw) []
      then ok (assign none)
      else assign_user l (l.parse_uuid (trim_space raw))
]

-- The assignments in the order of the code.
abbrev pub all_changes : PatchIncidentRequest → Change → Change → Change → List Change
all_changes req sla asset assigned =
    change_by (λ s i. record i { short_description = trim_space s }) req.short_description
    ∷ change_by (λ s i. record i { state = normalize_incident_state s }) req.state
    ∷ change_by (λ v i. record i { impact = impact_urgency_or_default (some v) }) req.impact
    ∷ change_by (λ v i. record i { urgency = impact_urgency_or_default (some v) }) req.urgency
    ∷ sla
    ∷ asset
    ∷ assigned
    ∷ []

unfoldable pub changes : Lookups → PatchIncidentRequest → Result ℕ (List Change)
unfolding sla_change asset_change assign_change
changes l req = sla_change l req.sla_due >>= λ sla.
    asset_change l req.linked_asset_human_id >>= λ asset.
    assign_change l req.clear_assigned_to req.assigned_to_user_id >>= λ assigned.
    ok (all_changes req sla asset assigned)

abbrev pub has_change : List Change → Bool
has_change [] = false
has_change (c ∷ cs) = not (is_none c) || has_change cs

abbrev pub apply_all : List Change → Incident → Incident
apply_all [] i = i
apply_all (c ∷ cs) i = apply_all cs (apply c i)

-- The appended note, none for a missing or blank one.
unfoldable pub manual_note : ℕ → Option Text → Option Note
manual_note user none = none
manual_note user (some text) =
    if text_eq (trim_space text) []
    then none
    else some (record { kind = bytes "manual"; text = trim_space text; user_id = some user })

abbrev pub with_note : Option Note → Change
with_note none = none
with_note (some n) = some (add_note n)

-- handlePatch: an error rolls the transaction back.
unfoldable pub handle_incident_patch :
    Lookups → ℕ → Incidents → ℕ → PatchIncidentRequest → ℕ × Incidents
unfolding is_refused changes manual_note find_incident update_incidents
handle_incident_patch l user t k req =
    let note = manual_note user req.append_work_note in
    let missing = is_none (find_incident k t.rows) in
    if is_refused req
    then (400, t)
    else if not (is_none note) && missing
    then (404, t)
    else elim (changes l req) [
      | err status ↦ (status, t)
      | ok cs ↦
          if not (has_change cs) && is_none note then (400, t) else if missing then (404, t) else (
            200,
            record t {
              rows = update_incidents (λ i. i.id == k) (apply_all (with_note note ∷ cs)) t.rows;
            },
          )
    ]

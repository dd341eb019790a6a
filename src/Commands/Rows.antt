-- ===== src/Commands/Rows.antt =====
-- internal/database/device_commands.go: the operations on the rows.
use arx_mdm.Prelude.{
  ℕ, suc, Bool, true, false, ◌&&◌, not, List, [], ◌∷◌, ◌++◌, Option, none, some, Text, text_eq,
  if◌then◌else◌, ◌==◌, ltb, leb, bytes, length, take, any, keep, trim_space, to_lower,
}
use arx_mdm.Prelude.Result.{Result, ok, err}
use arx_mdm.Prelude.Sort.{sort_by}
use arx_mdm.Commands.Store.{
  Status, pending, sent, completed, failed, DeviceCommand, JournalNote, Store, status_eq, has_id,
  find_command, update_where, belongs_to,
}

pub data RowError : Type 0 where
  invalid_type payload_required payload_not_allowed bad_quarantine not_found not_pending
        serial_required :
      RowError

abbrev pub max_device_command_output_len : ℕ
max_device_command_output_len = 262144

-- "\n…(output truncated)"
abbrev pub truncation_mark : Text
truncation_mark = 10 ∷ 0xe2 ∷ 0x80 ∷ 0xa6 ∷ bytes "(output truncated)"

unfoldable pub truncate_output : Text → Text
truncate_output s =
    if leb (length s) max_device_command_output_len
    then s
    else take max_device_command_output_len s ++ truncation_mark

abbrev pub one_of : Text → List Text → Bool
one_of t = any (text_eq t)

unfoldable pub validate_device_command_type : Text → Bool
validate_device_command_type t = one_of t (
    bytes "ping"
    ∷ bytes "reboot"
    ∷ bytes "script"
    ∷ bytes "restart_service"
    ∷ bytes "push_config"
    ∷ bytes "quarantine"
    ∷ [])

unfoldable pub takes_payload : Text → Bool
takes_payload t =
    one_of t
      (bytes "script" ∷ bytes "restart_service" ∷ bytes "push_config" ∷ bytes "quarantine" ∷ [])

-- The row that the INSERT makes.
abbrev pub new_command : Store → ℕ → Text → Text → Option ℕ → DeviceCommand
new_command s device kind payload incident = record {
  id = s.next_id;
  device_id = device;
  command_type = kind;
  payload = payload;
  incident_context = incident;
  status = pending;
  output = [];
  created_at = s.now;
  completed_at = none;
}

abbrev pub insert_row : Store → DeviceCommand → Store
insert_row s c = record s { commands = s.commands ++ c ∷ []; next_id = suc s.next_id }

-- InsertDeviceCommand; `readable` is json.Unmarshal into the probe of
-- validateQuarantineCommandPayload.
module _ (readable : Text → Bool) where
  unfoldable pub check_command : Text → Text → Option RowError
  check_command kind payload =
      if not (validate_device_command_type kind)
      then some invalid_type
      else if takes_payload kind
      then (if text_eq payload []
          then some payload_required
          else if text_eq kind (bytes "quarantine") && not (readable payload)
          then some bad_quarantine
          else none)
      else if text_eq payload []
      then none
      else some payload_not_allowed

  unfoldable pub insert_device_command :
      Store → ℕ → Text → Text → Option ℕ → Result RowError DeviceCommand × Store
  insert_device_command s device kind payload incident =
      let kind' = trim_space (to_lower kind) in
      let payload' = trim_space payload in
      elim (check_command kind' payload') [
        | some e ↦ (err e, s)
        | none ↦ let c = new_command s device kind' payload' incident in (ok c, insert_row s c)
      ]

-- updateDeviceCommandStatus
abbrev pub with_status : ℕ → Status → Text → Bool → DeviceCommand → DeviceCommand
with_status now status output set_completed c =
    if set_completed
    then record c { status = status; output = output; completed_at = some now }
    else record c { status = status; output = output }

unfoldable pub update_device_command_status : Store → ℕ → Status → Text → Bool → Store
unfolding update_where
update_device_command_status s k status output set_completed = record s {
  commands = update_where (has_id k) (with_status s.now status output set_completed) s.commands;
}

unfoldable pub mark_device_command_sent : Store → ℕ → Store
unfolding update_device_command_status
mark_device_command_sent s k = update_device_command_status s k sent [] false

-- GetDeviceCommand with no device.
unfoldable pub get_device_command : Store → ℕ → Result RowError DeviceCommand
unfolding find_command
get_device_command s k = elim (find_command k s.commands) [ none ↦ err not_found | some c ↦ ok c ]

-- AppendIncidentJournalForTerminalCommand with no operator.
abbrev pub note_for : DeviceCommand → Bool → Text → Option JournalNote
note_for c success output = elim c.incident_context [
  | none ↦ none
  | some i ↦
      if i == 0
      then none
      else some (record {
        incident = i;
        command = c.id;
        command_type = c.command_type;
        success = success;
        exit_state = c.status;
        agent_output = truncate_output (trim_space output);
      })
]

abbrev pub add_note : Store → Option JournalNote → Store
add_note s none = s
add_note s (some n) = record s { journal = s.journal ++ n ∷ [] }

unfoldable pub append_incident_journal : Store → ℕ → Bool → Text → Store
unfolding find_command
append_incident_journal s k success output = elim (find_command k s.commands) [
  | none ↦ s
  | some c ↦ add_note s (note_for c success output)
]

-- What CompleteDeviceCommand and FailDeviceCommand share.
unfoldable pub finish_device_command :
    Status → Bool → Store → ℕ → Text → Result RowError DeviceCommand × Store
unfolding update_device_command_status get_device_command append_incident_journal
finish_device_command status success s k output =
    let s' = update_device_command_status s k status (truncate_output output) true in
    elim (get_device_command s' k) [
      | err e ↦ (err e, s')
      | ok c ↦ (ok c, append_incident_journal s' c.id success c.output)
    ]

unfoldable pub complete_device_command : Store → ℕ → Text → Result RowError DeviceCommand × Store
unfolding finish_device_command
complete_device_command = finish_device_command completed true

unfoldable pub fail_device_command : Store → ℕ → Text → Result RowError DeviceCommand × Store
unfolding finish_device_command
fail_device_command = finish_device_command failed false

abbrev pub is_pending : ℕ → DeviceCommand → Bool
is_pending k c = c.id == k && status_eq c.status pending

-- FailDeviceCommandIfPending
unfoldable pub fail_device_command_if_pending : Store → ℕ → Text → Option RowError × Store
unfolding update_where append_incident_journal
fail_device_command_if_pending s k message =
    let s' = record s {
      commands =
          update_where (is_pending k) (with_status s.now failed (truncate_output message) true)
            s.commands;
    } in
    if any (is_pending k) s.commands
    then (none, append_incident_journal s' k false (truncate_output message))
    else (some not_pending, s')

-- `if limit <= 0 { limit = 10 }; if limit > 50 { limit = 50 }`
abbrev pub clamp_limit : ℕ → ℕ
clamp_limit n = if n == 0 then 10 else if ltb 50 n then 50 else n

-- ListPendingDeviceCommandsForCertSerial, oldest first.
unfoldable pub list_pending : Store → Text → ℕ → Result RowError (List DeviceCommand)
list_pending s serial limit =
    let serial' = trim_space serial in
    if text_eq serial' []
    then err serial_required
    else ok (
        take (clamp_limit limit) (
          sort_by (λ c. c.created_at ∷ [])
            (keep (λ c. belongs_to s.assets serial' c && status_eq c.status pending) s.commands)))

-- ===== src/Commands/Wire.antt =====
-- internal/ws: device_command_outcome.go, what an agent reports, and pending_device_commands.go, the
-- delivery on reconnect.
use arx_mdm.Prelude.{
  ℕ, ◌+◌, Bool, true, false, ◌&&◌, not, List, [], ◌∷◌, Option, none, some, Text, text_eq,
  if◌then◌else◌, bytes, any, trim_space,
}
use arx_mdm.Prelude.Result.{Result, ok, err}
use arx_mdm.Commands.Store.{DeviceCommand, Asset, Store, has_id, has_serial, belongs_to}
use arx_mdm.Commands.Rows.{
  RowError, insert_device_command, fail_device_command_if_pending, complete_device_command,
  fail_device_command, mark_device_command_sent, list_pending,
}

-- agentDeviceCommandResult, with the command id as uuid.Parse reads it: absent, unreadable or an id.
pub data CommandId : Type 0 where
  absent unreadable : CommandId
  parsed : ℕ → CommandId

pub record AgentResult : Type 0 where
  pub type : Text
  pub command_id : CommandId
  pub ok : Bool
  pub output : Text
  pub error : Text

-- A row sent to the dashboards, with the device's human id.
pub record Update : Type 0 where
  pub human_id : Text
  pub command : DeviceCommand

-- What the handler did: whether the message was its own, the rows, and the broadcast if any.
pub record Applied : Type 0 where
  pub handled : Bool
  pub store : Store
  pub broadcast : Option Update

-- DeviceCommandOwnedByCertSerial
unfoldable pub owned_by_cert_serial : Store → ℕ → Text → Bool
unfolding belongs_to
owned_by_cert_serial s k serial = any (λ c. has_id k c && belongs_to s.assets serial c) s.commands

-- `SELECT human_id FROM assets WHERE cert_serial = $1 LIMIT 1`
unfoldable pub first_human_id : List Asset → Text → Option Text
first_human_id [] serial = none
first_human_id (a ∷ rest) serial =
    if has_serial serial a then some a.human_id else first_human_id rest serial

-- humanIDByCertSerial
unfoldable pub human_id_by_cert_serial : List Asset → Text → Option Text
unfolding first_human_id
human_id_by_cert_serial assets serial =
    if text_eq (trim_space serial) [] then some [] else first_human_id assets (trim_space serial)

-- The text that is stored: the output, or the error of a failure, or a word for neither.
unfoldable pub outcome_text : AgentResult → Text
outcome_text probe =
    let out = trim_space probe.output in
    let message = trim_space probe.error in
    if not (text_eq out [])
    then out
    else if probe.ok
    then bytes "ok"
    else if text_eq message []
    then bytes "command failed"
    else message

abbrev pub announce : Store → Text → DeviceCommand → Option Update
announce s serial c = elim (human_id_by_cert_serial s.assets serial) [
  | none ↦ none
  | some hid ↦
      if text_eq (trim_space hid) [] then none else some (record { human_id = hid; command = c })
]

abbrev pub after_update : Store → Text → Result RowError DeviceCommand × Store → Applied
after_update s serial (err e, s') = record { handled = true; store = s'; broadcast = none }
after_update s serial (ok c, s') = record {
  handled = true;
  store = s';
  broadcast = announce s' serial c;
}

abbrev pub ignored : Bool → Store → Applied
ignored handled s = record { handled = handled; store = s; broadcast = none }

abbrev pub apply_owned : Store → Text → AgentResult → ℕ → Applied
apply_owned s serial probe k =
    if owned_by_cert_serial s k serial
    then after_update s serial (
        if probe.ok
        then complete_device_command s k (outcome_text probe)
        else fail_device_command s k (outcome_text probe))
    else ignored true s

-- ApplyDeviceCommandOutcome; `none` is a message that json.Unmarshal refuses.
unfoldable pub apply_device_command_outcome : Store → Text → Option AgentResult → Applied
apply_device_command_outcome s serial none = ignored false s
apply_device_command_outcome s serial (some probe) =
    if text_eq (trim_space probe.type) (bytes "device_command_result")
    then (elim probe.command_id [
      | absent ↦ ignored true s
      | unreadable ↦ ignored true s
      | parsed k ↦ apply_owned s (trim_space serial) probe k
    ])
    else ignored false s

-- The loop of FlushPendingDeviceCommands; `delivers` is Hub.DispatchJSON for each command, and the
-- list collects what was sent.
unfoldable pub flush_loop :
    (DeviceCommand → Bool) → Store → List DeviceCommand → Store × List DeviceCommand
flush_loop delivers s [] = (s, [])
flush_loop delivers s (c ∷ cs) =
    let next = if delivers c then mark_device_command_sent s c.id else s in
    let rest = flush_loop delivers next cs in (rest.0, if delivers c then c ∷ rest.1 else rest.1)

-- FlushPendingDeviceCommands
unfoldable pub flush_pending_device_commands :
    (DeviceCommand → Bool) → Store → Text → Store × List DeviceCommand
unfolding flush_loop
flush_pending_device_commands delivers s serial = elim (list_pending s serial 25) [
  | err e ↦ (s, [])
  | ok pending ↦ flush_loop delivers s pending
]

-- The calls that reach the rows, in any order: an operator creates a command, a dispatch is
-- recorded, a dispatch fails, an agent reports, an agent reconnects. Time may pass before each.
pub data Call : Type 0 where
  create : ℕ → Text → Text → Option ℕ → Call
  mark_sent : ℕ → Call
  give_up : ℕ → Text → Call
  give_up_pending : ℕ → Text → Call
  report : Text → Option AgentResult → Call
  reconnect : (DeviceCommand → Bool) → Text → Call

module _ (readable : Text → Bool) where
  unfoldable pub step : Store → Call → Store
  step s (create device kind payload incident) =
      (insert_device_command readable s device kind payload incident).1
  step s (mark_sent k) = mark_device_command_sent s k
  step s (give_up k message) = (fail_device_command s k message).1
  step s (give_up_pending k message) = (fail_device_command_if_pending s k message).1
  step s (report serial probe) = (apply_device_command_outcome s serial probe).store
  step s (reconnect delivers serial) = (flush_pending_device_commands delivers s serial).0

  unfoldable pub run : Store → List (ℕ × Call) → Store
  unfolding step
  run s [] = s
  run s ((time, c) ∷ cs) = run (step (record s { now = s.now + time }) c) cs

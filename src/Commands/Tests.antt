-- ===== src/Commands/Tests.antt =====
-- Runs of the handlers on a small store, and their theorems at it.
use arx_mdm.Prelude.{
  ℕ, ◌≡◌, refl, sym, ap, ◌∙◌, ◌≢◌, inl, inr, true, List, [], ◌∷◌, none, some, arith, bytes, text_eq,
  text_leb, In, length, trim_space, to_lower,
}
use arx_mdm.Prelude.Sort.{sort_by}
use arx_mdm.Commands.Store.{
  pending, completed, DeviceCommand, Store, find_command, update_where, belongs_to,
}
use arx_mdm.Commands.Rows.{
  truncate_output, check_command, validate_device_command_type, takes_payload,
  mark_device_command_sent, finish_device_command, insert_device_command,
}
use arx_mdm.Commands.Wire.{
  AgentResult, parsed, owned_by_cert_serial, outcome_text, apply_device_command_outcome, flush_loop,
  flush_pending_device_commands, Call, create, report, reconnect, step, run,
}
use arx_mdm.Commands.Invariant.{IsValid, run-IsValid}
use arx_mdm.Commands.Ownership.{others, HasUniqueIds, apply_device_command_outcome-others}
use arx_mdm.Commands.Delivery.{
  IsFlush, flush_pending_device_commands-sent, flush_pending_device_commands-delivers,
}

-- Two devices, each with its certificate, and no commands.
abbrev fresh : Store
fresh = record {
  assets =
      record { id = 1; human_id = bytes "arx-c-1"; cert_serial = some (bytes "11") }
      ∷ record { id = 2; human_id = bytes "arx-c-2"; cert_serial = some (bytes "22") }
      ∷ [];
  commands = [];
  journal = [];
  now = 100;
  next_id = 1;
}

abbrev ping : DeviceCommand
ping = record {
  id = 1;
  device_id = 1;
  command_type = bytes "ping";
  payload = [];
  incident_context = some 7;
  status = pending;
  output = [];
  created_at = 100;
  completed_at = none;
}

abbrev ping_2 : DeviceCommand
ping_2 = record ping { id = 2; device_id = 2; created_at = 101 }

abbrev busy : Store
busy = record fresh { commands = ping ∷ ping_2 ∷ []; next_id = 3 }

abbrev success : AgentResult
success = record {
  type = bytes "device_command_result";
  command_id = parsed 1;
  ok = true;
  output = bytes " pong ";
  error = [];
}

abbrev history : List (ℕ × Call)
history =
    (0, create 1 (bytes " PING ") [] (some 7))
    ∷ (1, create 2 (bytes "ping") [] (some 7))
    ∷ (1, reconnect (λ c. true) (bytes "11"))
    ∷ (5, report (bytes "11") (some success))
    ∷ []

open_all : Unit {0}
unfolding find_command update_where belongs_to run step sort_by text_eq text_leb trim_space to_lower
    truncate_output check_command validate_device_command_type takes_payload insert_device_command
    owned_by_cert_serial outcome_text apply_device_command_outcome flush_loop
    flush_pending_device_commands mark_device_command_sent finish_device_command
    arx_mdm.Commands.Rows.list_pending arx_mdm.Commands.Rows.append_incident_journal
    arx_mdm.Commands.Rows.get_device_command arx_mdm.Commands.Rows.complete_device_command
    arx_mdm.Commands.Rows.fail_device_command arx_mdm.Commands.Rows.update_device_command_status
open_all = tt

-- The command is completed with the trimmed output, and its incident has a note of it.
history_row :
    find_command 1 (run (λ p. true) fresh history).commands
    ≡ some (record ping { status = completed; output = bytes "pong"; completed_at = some 107 })
unfolding open_all
history_row = refl

history_notes : length (run (λ p. true) fresh history).journal ≡ 1
unfolding open_all
history_notes = refl

run-IsValid_example : IsValid (run (λ p. true) fresh history)
run-IsValid_example = run-IsValid (λ p. true) fresh history tt

two_ids : ◌≢◌ {A = ℕ} 1 2
two_ids = omega arith

busy-HasUniqueIds : HasUniqueIds busy
busy-HasUniqueIds c d (inl e) (inl f) h = cc
busy-HasUniqueIds c d (inl e) (inr (inl f)) h =
    elim (two_ids (ap (λ x. x.id) e ∙ h ∙ sym (ap (λ x. x.id) f))) [ ]
busy-HasUniqueIds c d (inr (inl e)) (inl f) h =
    elim (two_ids (ap (λ x. x.id) f ∙ sym h ∙ sym (ap (λ x. x.id) e))) [ ]
busy-HasUniqueIds c d (inr (inl e)) (inr (inl f)) h = cc
busy-HasUniqueIds c d (inl e) (inr (inr none_left)) h = elim none_left [ ]
busy-HasUniqueIds c d (inr (inl e)) (inr (inr none_left)) h = elim none_left [ ]
busy-HasUniqueIds c d (inr (inr none_left)) _ h = elim none_left [ ]

apply_device_command_outcome-others_example :
    others
      (apply_device_command_outcome busy (bytes "11") (some success)).store
      (trim_space (bytes "11"))
    ≡ others busy (trim_space (bytes "11"))
apply_device_command_outcome-others_example =
    apply_device_command_outcome-others busy (bytes "11") (some success) busy-HasUniqueIds

flush_pending_device_commands-sent_example :
    IsFlush
      (λ c. true)
      busy
      (trim_space (bytes "11"))
      (flush_pending_device_commands (λ c. true) busy (bytes "11"))
flush_pending_device_commands-sent_example =
    flush_pending_device_commands-sent (λ c. true) busy (bytes "11")

flush_pending_device_commands-delivers_example :
    In ping (flush_pending_device_commands (λ c. true) busy (bytes "11")).1
unfolding open_all
flush_pending_device_commands-delivers_example =
    flush_pending_device_commands-delivers (λ c. true) busy (bytes "11") ping refl (omega arith)
      (inl refl) refl

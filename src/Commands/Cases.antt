-- ===== src/Commands/Cases.antt =====
-- Splits on the branches of the handlers: what holds of the store before and after a row operation
-- holds after the handler.
use arx_mdm.Prelude.{
  ℕ, ◌≡◌, inl, inr, Bool, true, false, List, [], ◌∷◌, Option, none, some, Text, text_eq,
  if◌then◌else◌, bytes, trim_space, Bool-cases,
}
use arx_mdm.Prelude.Result.{Result, ok, err, Result-cases}
use arx_mdm.Commands.Store.{DeviceCommand, Store}
use arx_mdm.Commands.Rows.{
  RowError, complete_device_command, fail_device_command, mark_device_command_sent, list_pending,
}
use arx_mdm.Commands.Wire.{
  AgentResult, Applied, CommandId, absent, unreadable, parsed, owned_by_cert_serial, outcome_text,
  after_update, apply_owned, apply_device_command_outcome, flush_loop,
  flush_pending_device_commands,
}

if_cases : {A : Type 0} (Q : A → Type 0) (b : Bool) {x y : A} → Q x → Q y → Q (if b then x else y)
if_cases Q true p q = p
if_cases Q false p q = q

module _ (P : Store → Type 0) (s : Store) (before : P s) where
  pub after_update_cases :
      (serial : Text) (r : Result RowError DeviceCommand × Store)
      → P r.1
      → P (after_update s serial r).store
  after_update_cases serial (ok c, s') p = p
  after_update_cases serial (err e, s') p = p

  apply_owned_cases :
      (serial : Text) (probe : AgentResult) (k : ℕ)
      → (owned_by_cert_serial s k serial ≡ true
          → P (complete_device_command s k (outcome_text probe)).1)
      → (owned_by_cert_serial s k serial ≡ true
          → P (fail_device_command s k (outcome_text probe)).1)
      → P (apply_owned s serial probe k).store
  apply_owned_cases serial probe k done lost = elim (Bool-cases (owned_by_cert_serial s k serial)) [
    | inr e ↦ rw e before
    | inl e ↦ rw e (
        if_cases (λ r. P (after_update s serial r).store) probe.ok
          (after_update_cases serial (complete_device_command s k (outcome_text probe)) (done e))
          (after_update_cases serial (fail_device_command s k (outcome_text probe)) (lost e)))
  ]

  -- A report leaves the rows alone, or finishes a command that the certificate owns.
  pub apply_device_command_outcome_cases :
      (serial : Text) (probe : Option AgentResult)
      → ((k : ℕ) (output : Text)
          → owned_by_cert_serial s k (trim_space serial) ≡ true
          → P (complete_device_command s k output).1)
      → ((k : ℕ) (output : Text)
          → owned_by_cert_serial s k (trim_space serial) ≡ true
          → P (fail_device_command s k output).1)
      → P (apply_device_command_outcome s serial probe).store
  unfolding apply_device_command_outcome
  apply_device_command_outcome_cases serial none done lost = before
  apply_device_command_outcome_cases serial (some probe) done lost =
      elim (Bool-cases (text_eq (trim_space probe.type) (bytes "device_command_result"))) [
        | inr e ↦ rw e before
        | inl e ↦ rw e (by_id probe.command_id)
      ]
    where
      by_id :
          (id : CommandId)
          → P (
              let r : Applied = elim id [
                | absent ↦ record { handled = true; store = s; broadcast = none }
                | unreadable ↦ record { handled = true; store = s; broadcast = none }
                | parsed k ↦ apply_owned s (trim_space serial) probe k
              ] in
              r.store)
      by_id absent = before
      by_id unreadable = before
      by_id (parsed k) =
          apply_owned_cases (trim_space serial) probe k (done k (outcome_text probe))
            (lost k (outcome_text probe))

-- What marking a command sent keeps, a flush keeps.
module _ (P : Store → Type 0) (delivers : DeviceCommand → Bool) where
  pub flush_loop_cases :
      (s : Store) (cs : List DeviceCommand)
      → ((t : Store) (k : ℕ) → P t → P (mark_device_command_sent t k))
      → P s
      → P (flush_loop delivers s cs).0
  unfolding flush_loop
  flush_loop_cases s [] keep p = p
  flush_loop_cases s (c ∷ cs) keep p = elim (Bool-cases (delivers c)) [
    | inl e ↦ rw e (flush_loop_cases (mark_device_command_sent s c.id) cs keep (keep s c.id p))
    | inr e ↦ rw e (flush_loop_cases s cs keep p)
  ]

  pub flush_cases :
      (s : Store) (serial : Text)
      → ((t : Store) (k : ℕ) → P t → P (mark_device_command_sent t k))
      → P s
      → P (flush_pending_device_commands delivers s serial).0
  unfolding flush_pending_device_commands
  flush_cases s serial keep p = elim (Result-cases (list_pending s serial 25)) [
    | inl (cs, e) ↦ rw (e, flush_pending_device_commands) (flush_loop_cases s cs keep p)
    | inr (x, e) ↦ rw (e, flush_pending_device_commands) p
  ]

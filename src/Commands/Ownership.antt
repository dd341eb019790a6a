-- ===== src/Commands/Ownership.antt =====
-- Whose commands a handler may change.
use arx_mdm.Prelude.{
  ℕ, ◌≡◌, refl, sym, ◌∙◌, inl, inr, Bool, true, false, ◌&&◌, List, [], ◌∷◌, Option, none, some,
  arith, Text, keep, any, not, subst, In, All, All-of_In, &&-eq-true_iff, ==_iff, trim_space,
  Bool-cases, Option-cases,
}
use arx_mdm.Prelude.Result.{Result-cases}
use arx_mdm.Commands.Store.{
  Status, completed, failed, DeviceCommand, JournalNote, Asset, Store, has_id, find_command,
  update_where, belongs_to,
}
use arx_mdm.Commands.Rows.{
  truncate_output, with_status, update_device_command_status, get_device_command,
  append_incident_journal, finish_device_command, complete_device_command, fail_device_command,
  note_for, add_note,
}
use arx_mdm.Commands.Wire.{AgentResult, owned_by_cert_serial, apply_device_command_outcome}
use arx_mdm.Commands.Cases.{apply_device_command_outcome_cases}

-- The rows of the devices that do not carry the certificate.
abbrev foreign : List Asset → Text → List DeviceCommand → List DeviceCommand
foreign assets serial = keep (λ c. not (belongs_to assets serial c))

abbrev pub others : Store → Text → List DeviceCommand
others s serial = foreign s.assets serial s.commands

-- The id is the primary key of the table.
abbrev pub HasUniqueIds : Store → Type 0
HasUniqueIds s = (c d : DeviceCommand) → In c s.commands → In d s.commands → c.id ≡ d.id → c ≡ d

-- A change of rows that all belong to the certificate leaves the others alone.
foreign-update_where :
    (assets : List Asset) (serial : Text) (test : DeviceCommand → Bool)
    (change : DeviceCommand → DeviceCommand) (cs : List DeviceCommand)
    → ((c : DeviceCommand) → belongs_to assets serial (change c) ≡ belongs_to assets serial c)
    → All (λ c. test c ≡ true → belongs_to assets serial c ≡ true) cs
    → foreign assets serial (update_where test change cs) ≡ foreign assets serial cs
unfolding update_where
foreign-update_where assets serial test change [] same h = refl
foreign-update_where assets serial test change (c ∷ cs) same h =
    ground (arith, same c, h.0, foreign-update_where assets serial test change cs same h.1)

with_status-belongs_to :
    (assets : List Asset) (serial : Text) (now : ℕ) (status : Status) (output : Text)
    (c : DeviceCommand)
    → belongs_to assets serial (with_status now status output true c) ≡ belongs_to assets serial c
unfolding belongs_to
with_status-belongs_to assets serial now status output c = refl

owner_found :
    (assets : List Asset) (serial : Text) (k : ℕ) (cs : List DeviceCommand)
    → any (λ c. has_id k c && belongs_to assets serial c) cs ≡ true
    → (c : DeviceCommand) × In c cs × (c.id ≡ k) × (belongs_to assets serial c ≡ true)
owner_found assets serial k [] h = cc
owner_found assets serial k (c ∷ cs) h =
    elim (Bool-cases (has_id k c && belongs_to assets serial c)) [
      | inl e ↦
          let both = (&&-eq-true_iff _ _).0 e in (c, inl refl, (==_iff c.id k).0 both.0, both.1)
      | inr e ↦ let (d, m, i, b) = owner_found assets serial k cs (rw e at h) in (d, inr m, i, b)
    ]

-- With unique ids, all rows of the id belong to the certificate that owns it.
owned_rows :
    (s : Store) (k : ℕ) (serial : Text)
    → HasUniqueIds s
    → owned_by_cert_serial s k serial ≡ true
    → All (λ c. has_id k c ≡ true → belongs_to s.assets serial c ≡ true) s.commands
unfolding owned_by_cert_serial
owned_rows s k serial unique owned =
    let (c, m, i, b) = owner_found s.assets serial k s.commands owned in
    All-of_In _ s.commands λ d n h.
      subst (λ x. belongs_to s.assets serial x ≡ true)
        (unique c d m n (i ∙ sym ((==_iff d.id k).0 h))) b

add_note-others :
    (s : Store) (n : Option JournalNote) (serial : Text)
    → others (add_note s n) serial ≡ others s serial
add_note-others s none serial = refl
add_note-others s (some n) serial = refl

append_incident_journal-others :
    (s : Store) (k : ℕ) (success : Bool) (output serial : Text)
    → others (append_incident_journal s k success output) serial ≡ others s serial
unfolding append_incident_journal
append_incident_journal-others s k success output serial =
    elim (Option-cases (find_command k s.commands)) [
      | inl e ↦ rw (e, append_incident_journal)
      | inr (c, e) ↦
          rw (e, append_incident_journal) (add_note-others s (note_for c success output) serial)
    ]

finish_device_command-others :
    (status : Status) (success : Bool) (s : Store) (k : ℕ) (output serial : Text)
    → HasUniqueIds s
    → owned_by_cert_serial s k serial ≡ true
    → others (finish_device_command status success s k output).1 serial ≡ others s serial
unfolding finish_device_command update_device_command_status
finish_device_command-others status success s k output serial unique owned =
    let s' = update_device_command_status s k status (truncate_output output) true in
    let kept : others s' serial ≡ others s serial =
      foreign-update_where s.assets serial (has_id k) _ s.commands
        (with_status-belongs_to s.assets serial s.now status (truncate_output output))
        (owned_rows s k serial unique owned) in
    elim (Result-cases (get_device_command s' k)) [
      | inl (c, e) ↦
          rw (e, finish_device_command)
            (append_incident_journal-others s' c.id success c.output serial ∙ kept)
      | inr (x, e) ↦ rw (e, finish_device_command) kept
    ]

-- Where the ids of the commands are unique, an agent's report changes no command of a device
-- that does not carry the agent's certificate, whatever the message says.
pub apply_device_command_outcome-others :
    (s : Store) (serial : Text) (probe : Option AgentResult)
    → HasUniqueIds s
    → others (apply_device_command_outcome s serial probe).store (trim_space serial)
      ≡ others s (trim_space serial)
apply_device_command_outcome-others s serial probe unique =
    apply_device_command_outcome_cases
      (λ t. others t (trim_space serial) ≡ others s (trim_space serial)) s refl serial probe
      (λ k output owned.
        unfold complete_device_command in
        finish_device_command-others completed true s k output (trim_space serial) unique owned)
      (λ k output owned.
        unfold fail_device_command in
        finish_device_command-others failed false s k output (trim_space serial) unique owned)

-- ===== src/Commands/Store.antt =====
-- The rows of `device_commands` and `assets` that the handlers read and write, and the journal of
-- the incidents. A statement of the database succeeds here.
use arx_mdm.Prelude.{
  ℕ, Bool, true, false, ◌&&◌, List, [], ◌∷◌, Option, none, some, Text, text_eq, if◌then◌else◌, ◌==◌,
  any,
}

-- DeviceCommandStatusPending and so on.
pub data Status : Type 0 where
  pending sent completed failed : Status

pub record DeviceCommand : Type 0 where
  pub id : ℕ
  pub device_id : ℕ
  pub command_type : Text
  pub payload : Text
  pub incident_context : Option ℕ
  pub status : Status
  pub output : Text
  pub created_at : ℕ
  pub completed_at : Option ℕ

pub record Asset : Type 0 where
  pub id : ℕ
  pub human_id : Text
  pub cert_serial : Option Text

-- One note of AppendIncidentJournalForTerminalCommand, but for its time and author.
pub record JournalNote : Type 0 where
  pub incident : ℕ
  pub command : ℕ
  pub command_type : Text
  pub success : Bool
  pub exit_state : Status
  pub agent_output : Text

-- `now` is the database's clock, and `next_id` its next fresh id.
pub record Store : Type 0 where
  pub assets : List Asset
  pub commands : List DeviceCommand
  pub journal : List JournalNote
  pub now : ℕ
  pub next_id : ℕ

abbrev pub status_eq : Status → Status → Bool
status_eq pending pending = true
status_eq sent sent = true
status_eq completed completed = true
status_eq failed failed = true
status_eq _ _ = false

abbrev pub has_id : ℕ → DeviceCommand → Bool
has_id k c = c.id == k

-- `WHERE id = $1`
unfoldable pub find_command : ℕ → List DeviceCommand → Option DeviceCommand
find_command k [] = none
find_command k (c ∷ cs) = if c.id == k then some c else find_command k cs

-- `UPDATE device_commands SET … WHERE …`
unfoldable pub update_where :
    (DeviceCommand → Bool)
    → (DeviceCommand → DeviceCommand)
    → List DeviceCommand
    → List DeviceCommand
update_where test change [] = []
update_where test change (c ∷ cs) = (if test c then change c else c) ∷ update_where test change cs

-- `a.cert_serial = $1`; NULL equals nothing.
abbrev pub has_serial : Text → Asset → Bool
has_serial serial a = elim a.cert_serial [ none ↦ false | some s ↦ text_eq s serial ]

-- The command's device carries the certificate.
unfoldable pub belongs_to : List Asset → Text → DeviceCommand → Bool
belongs_to assets serial c = any (λ a. a.id == c.device_id && has_serial serial a) assets

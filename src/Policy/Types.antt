-- ===== src/Policy/Types.antt =====
-- types.go, and the pathContribution of merge.go. A profile id is a number, 0 for uuid.Nil.
use arx_mdm.Prelude.{ℕ, Bool, List, Text}
use arx_mdm.Policy.Json.{Json, Fields}

pub record ProfileSource : Type 0 where
  pub id : ℕ
  pub name : Text

-- `ConflictProfile` has the same two fields.
pub record ConflictProfile : Type 0 where
  pub id : ℕ
  pub name : Text

pub record SettingConflict (F : Type 0) : Type 0 where
  pub path : Text
  pub effective_value : Json F
  pub conflicting_profiles : List ConflictProfile
  pub contributed_normalized : List (Json F)

pub record EffectiveSetting (F : Type 0) : Type 0 where
  pub path : Text
  pub value : Json F
  pub conflict : Bool
  pub source_profiles : List ConflictProfile

-- The two sets are lists without repetition.
pub record MergeResult (F : Type 0) : Type 0 where
  pub effective_payload : Fields F
  pub flat_settings : List (EffectiveSetting F)
  pub conflicts : List (SettingConflict F)
  pub conflict_paths : List Text
  pub conflict_profiles : List ℕ

pub record AssignedPayload : Type 0 where
  pub source : ProfileSource
  pub payload : Text

pub record PathContribution (F : Type 0) : Type 0 where
  pub source : ProfileSource
  pub value : Json F

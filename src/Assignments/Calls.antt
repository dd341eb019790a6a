-- ===== src/Assignments/Calls.antt =====
-- The calls that change these tables, one after another.
use arx_mdm.Prelude.{ℕ, Option, List, [], ◌∷◌, Text}
use arx_mdm.Policy.Json.{Encoding}
use arx_mdm.Assignments.Tables.{Tables}
use arx_mdm.Assignments.Groups.{
  CreatePrincipalGroup, PatchPrincipalGroup, handle_create_group, handle_patch_group,
  handle_delete_group, handle_add_devices, handle_remove_device,
}
use arx_mdm.Assignments.Profiles.{
  CreateProfileRequest, PatchProfileRequest, AssignProfileRequest, handle_create_profile,
  handle_patch_profile, handle_delete_profile, handle_assign_profile, handle_remove_assignment,
}
use arx_mdm.Assignments.Effective.{handle_dashboard_effective_policy, handle_agent_effective_policy}

pub data Call : Type 0 where
  create_group : CreatePrincipalGroup → Call
  patch_group : Option ℕ → PatchPrincipalGroup → Call
  remove_group : Option ℕ → Call
  add_devices : Option ℕ → List Text → Call
  remove_device : Option ℕ → Option ℕ → Call
  create_profile : CreateProfileRequest → Call
  patch_profile : Option ℕ → PatchProfileRequest → Call
  remove_profile : Option ℕ → Call
  assign_profile : Option ℕ → AssignProfileRequest → Call
  remove_assignment : Option ℕ → Call
  dashboard_policy : Option ℕ → Call
  agent_policy : Option Text → Call

module _ (E : Encoding) (jsonb : Text → Option Text) (parse_uuid : Text → Option ℕ) where
  unfoldable pub step : Call → Tables → Tables
  unfolding handle_create_group handle_patch_group handle_delete_group handle_add_devices
      handle_remove_device handle_create_profile handle_patch_profile handle_delete_profile
      handle_assign_profile handle_remove_assignment handle_dashboard_effective_policy
      handle_agent_effective_policy
  step (create_group req) t = (handle_create_group req t).1
  step (patch_group gid patch) t = (handle_patch_group gid patch t).1
  step (remove_group gid) t = (handle_delete_group gid t).1
  step (add_devices gid ids) t = (handle_add_devices parse_uuid gid ids t).2
  step (remove_device gid did) t = (handle_remove_device gid did t).1
  step (create_profile req) t = (handle_create_profile jsonb req t).1
  step (patch_profile pid patch) t = (handle_patch_profile jsonb pid patch t).1
  step (remove_profile pid) t = (handle_delete_profile pid t).1
  step (assign_profile pid req) t = (handle_assign_profile parse_uuid pid req t).2
  step (remove_assignment id) t = (handle_remove_assignment id t).1
  step (dashboard_policy d) t = (handle_dashboard_effective_policy E t d).2
  step (agent_policy serial) t = (handle_agent_effective_policy E t serial).2

  unfoldable pub run : List Call → Tables → Tables
  unfolding step
  run [] t = t
  run (c ∷ cs) t = run cs (step c t)

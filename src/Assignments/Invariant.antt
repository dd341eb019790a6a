-- ===== src/Assignments/Invariant.antt =====
-- Every call keeps the tables consistent.
use arx_mdm.Prelude.{ℕ, Option, List, [], ◌∷◌, Text}
use arx_mdm.Policy.Json.{Encoding}
use arx_mdm.Assignments.Tables.{Tables}
use arx_mdm.Assignments.Calls.{
  Call, create_group, patch_group, remove_group, add_devices, remove_device, create_profile,
  patch_profile, remove_profile, assign_profile, remove_assignment, dashboard_policy, agent_policy,
  step, run,
}
use arx_mdm.Assignments.Consistent.{IsConsistent, catalog-IsConsistent}
use arx_mdm.Assignments.GroupCalls.{
  handle_create_group-keeps, handle_patch_group-keeps, handle_delete_group-IsConsistent,
  handle_add_devices-IsConsistent, handle_remove_device-IsConsistent,
}
use arx_mdm.Assignments.ProfileCalls.{
  handle_create_profile-keeps, handle_patch_profile-keeps, handle_delete_profile-IsConsistent,
  handle_assign_profile-IsConsistent, handle_remove_assignment-IsConsistent, states-IsConsistent,
  handle_dashboard_effective_policy-keeps, handle_agent_effective_policy-keeps,
}

module _ (E : Encoding) (jsonb : Text → Option Text) (parse_uuid : Text → Option ℕ) where
  pub step-IsConsistent :
      (c : Call) (t : Tables) → IsConsistent t → IsConsistent (step E jsonb parse_uuid c t)
  unfolding step
  step-IsConsistent (create_group req) t v =
      handle_create_group-keeps IsConsistent catalog-IsConsistent req t v
  step-IsConsistent (patch_group gid patch) t v =
      handle_patch_group-keeps IsConsistent catalog-IsConsistent gid patch t v
  step-IsConsistent (remove_group gid) t v = handle_delete_group-IsConsistent gid t v
  step-IsConsistent (add_devices gid ids) t v =
      handle_add_devices-IsConsistent parse_uuid gid ids t v
  step-IsConsistent (remove_device gid did) t v = handle_remove_device-IsConsistent gid did t v
  step-IsConsistent (create_profile req) t v =
      handle_create_profile-keeps IsConsistent catalog-IsConsistent jsonb req t v
  step-IsConsistent (patch_profile pid patch) t v =
      handle_patch_profile-keeps IsConsistent catalog-IsConsistent jsonb pid patch t v
  step-IsConsistent (remove_profile pid) t v = handle_delete_profile-IsConsistent pid t v
  step-IsConsistent (assign_profile pid req) t v =
      handle_assign_profile-IsConsistent parse_uuid pid req t v
  step-IsConsistent (remove_assignment id) t v = handle_remove_assignment-IsConsistent id t v
  step-IsConsistent (dashboard_policy d) t v =
      handle_dashboard_effective_policy-keeps E IsConsistent states-IsConsistent t d v
  step-IsConsistent (agent_policy serial) t v =
      handle_agent_effective_policy-keeps E IsConsistent states-IsConsistent t serial v

  -- After any calls, in any order and with any outcome, from consistent tables: every membership has its
  -- group and device and every assignment its profile and its target, no group holds a device twice, no
  -- profile is assigned twice to a target, and ids of assignments are below the next one and apart.
  pub run-IsConsistent :
      (cs : List Call) (t : Tables) → IsConsistent t → IsConsistent (run E jsonb parse_uuid cs t)
  unfolding run
  run-IsConsistent [] t v = v
  run-IsConsistent (c ∷ cs) t v =
      run-IsConsistent cs (step E jsonb parse_uuid c t) (step-IsConsistent c t v)

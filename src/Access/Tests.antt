-- ===== src/Access/Tests.antt =====
-- Requests, and whom the guards let through.
use arx_mdm.Prelude.{
  ℕ, ◌≡◌, refl, ◌↔◌, Option, none, some, [], Text, text_eq, bytes, if◌then◌else◌, trim_space,
  to_lower, has_prefix, has_suffix, trim_suffix,
}
use arx_mdm.Access.Roles.{Principal, Claims, has_at_least, role_rank, parse_role, parse_token}
use arx_mdm.Access.Gate.{
  Request, refused, next, dashboard_origin_ok, dashboard_bearer_token, dashboard_rbac_public,
  viewer_safe_method, operator_forbidden, admit, authenticate, dashboard_rbac, require_principal,
  require_min_role, serve,
}
use arx_mdm.Access.Guard.{HasSession, MayCall, IsServed, dashboard_rbac_iff, serve_sound}

-- Two good tokens: "v" of a viewer, "o" of an operator.
abbrev verify : Text → Option Claims
verify t =
    if text_eq t (bytes "v")
    then some (record { subject = bytes "7"; username = bytes "vera"; role = bytes " Viewer" })
    else if text_eq t (bytes "o")
    then some (record { subject = bytes "8"; username = bytes "otto"; role = bytes "operator" })
    else none

abbrev uuid : Text → Option ℕ
uuid t = if text_eq t (bytes "7") then some 7 else if text_eq t (bytes "8") then some 8 else none

abbrev vera : Principal
vera = record { user_id = 7; username = bytes "vera"; role = bytes "viewer" }

abbrev otto : Principal
otto = record { user_id = 8; username = bytes "otto"; role = bytes "operator" }

abbrev list_devices : Request
list_devices = record {
  method = bytes "GET";
  path = bytes "/v1/devices";
  origin = [];
  query_token = [];
  authorization = bytes "Bearer v";
}

abbrev wipe_device : Request
wipe_device = record {
  method = bytes "POST";
  path = bytes "/v1/devices/9/wipe";
  origin = [];
  query_token = bytes "o";
  authorization = [];
}

open_all : Unit {0}
unfolding text_eq trim_space to_lower has_prefix has_suffix trim_suffix has_at_least role_rank
    parse_role parse_token dashboard_origin_ok dashboard_bearer_token dashboard_rbac_public
    viewer_safe_method operator_forbidden admit authenticate dashboard_rbac require_principal
    require_min_role serve
open_all = tt

-- An operator may not wipe a device, and a viewer may list them.
wipe_refused : dashboard_rbac (parse_token verify uuid) [] wipe_device ≡ refused 403
unfolding open_all
wipe_refused = refl

list_served : serve (parse_token verify uuid) [] list_devices (bytes "viewer") ≡ some vera
unfolding open_all
list_served = refl

dashboard_rbac_iff_example :
    (dashboard_rbac (parse_token verify uuid) [] list_devices ≡ next (some vera)) ↔ (
      (p : Principal) × (some vera ≡ some p)
      × HasSession (parse_token verify uuid) [] list_devices p
      × MayCall (parse_token verify uuid) [] list_devices p)
unfolding open_all
dashboard_rbac_iff_example =
    dashboard_rbac_iff (parse_token verify uuid) [] list_devices (some vera) (refl, refl, refl)

serve_sound_example : IsServed (parse_token verify uuid) [] list_devices (bytes "viewer") vera
unfolding open_all
serve_sound_example =
    serve_sound (parse_token verify uuid) [] list_devices (bytes "viewer") vera list_served

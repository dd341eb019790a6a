-- ===== src/Access/Gate.antt =====
-- internal/auth/dashboard_rbac.go and dashboard_http.go: the middleware before every route of /v1/, and
-- the check of a route's least role, internal/api/dashboard_auth.go.
use arx_mdm.Prelude.{
  ℕ, Bool, true, ◌&&◌, ◌||◌, not, Option, none, some, List, [], Text, text_eq, bytes, ◌==◌, ltb,
  if◌then◌else◌, trim_space, to_lower, has_prefix, has_suffix, trim_suffix, any, take, length, drop,
}
use arx_mdm.Access.Roles.{Principal, has_at_least}

pub record Request : Type 0 where
  pub method : Text
  pub path : Text
  pub origin : Text
  pub query_token : Text
  pub authorization : Text

-- A refusal with its status, or the next handler with what the context then holds.
pub data Verdict : Type 0 where
  refused : ℕ → Verdict
  next : Option Principal → Verdict

-- DashboardOriginOK
unfoldable pub dashboard_origin_ok : Request → List Text → Bool
dashboard_origin_ok r allowed =
    let origin = trim_space r.origin in
    if text_eq origin [] then true else any (λ o. text_eq (trim_space o) origin) allowed

-- DashboardBearerToken
unfoldable pub dashboard_bearer_token : Request → Text
dashboard_bearer_token r =
    let got = trim_space r.query_token in
    if not (text_eq got [])
    then got
    else if ltb 7 (length r.authorization)
        && text_eq (to_lower (take 7 r.authorization)) (bytes "bearer ")
    then trim_space (drop 7 r.authorization)
    else []

-- dashboardRBACPublic
unfoldable pub dashboard_rbac_public : Text → Text → Bool
dashboard_rbac_public method path =
    text_eq method (bytes "POST") && text_eq path (bytes "/v1/auth/login")
    || text_eq method (bytes "POST") && text_eq path (bytes "/v1/enroll")
    || text_eq method (bytes "POST") && text_eq path (bytes "/v1/telemetry")
    || text_eq method (bytes "GET") && text_eq path (bytes "/v1/ws")
    || text_eq method (bytes "GET") && has_prefix path (bytes "/v1/agent/")

-- viewerSafeMethod
unfoldable pub viewer_safe_method : Text → Bool
viewer_safe_method method = text_eq method (bytes "GET") || text_eq method (bytes "HEAD")

-- operatorForbidden
unfoldable pub operator_forbidden : Text → Text → Bool
operator_forbidden method path =
    let cut = trim_suffix (trim_space path) (bytes "/") in
    let p = if text_eq cut [] then bytes "/" else cut in
    if has_prefix p (bytes "/v1/audit")
    then true
    else if has_prefix p (bytes "/v1/backups")
    then true
    else if text_eq p (bytes "/v1/users") && text_eq method (bytes "GET")
    then true
    else if text_eq p (bytes "/v1/users") && text_eq method (bytes "POST")
    then true
    else if has_prefix p (bytes "/v1/users/") && not (text_eq p (bytes "/v1/users/directory"))
    then text_eq method (bytes "PATCH") || text_eq method (bytes "DELETE")
    else if has_prefix p (bytes "/v1/alerts/")
    then not (text_eq p (bytes "/v1/alerts/active") && text_eq method (bytes "GET"))
    else if text_eq method (bytes "DELETE") && has_prefix p (bytes "/v1/packages/")
    then true
    else text_eq method (bytes "POST")
      && has_prefix p (bytes "/v1/devices/")
      && (has_suffix p (bytes "/lock") || has_suffix p (bytes "/wipe"))

-- DashboardRBACMiddleware; `parse` is JWTService.Parse.
module _ (parse : Text → Option Principal) (allowed : List Text) where
  unfoldable pub admit : Request → Principal → Verdict
  admit r p =
      if text_eq p.role (bytes "viewer") && not (viewer_safe_method r.method)
      then refused 403
      else if text_eq p.role (bytes "operator") && operator_forbidden r.method r.path
      then refused 403
      else next (some p)

  unfoldable pub authenticate : Request → Verdict
  unfolding admit
  authenticate r =
      if not (dashboard_origin_ok r allowed)
      then refused 403
      else if text_eq (dashboard_bearer_token r) []
      then refused 401
      else elim (parse (dashboard_bearer_token r)) [
        | none ↦ refused 401
        | some p ↦ if p.user_id == 0 then refused 401 else admit r p
      ]

  unfoldable pub dashboard_rbac : Request → Verdict
  unfolding authenticate
  dashboard_rbac r =
      if not (has_prefix r.path (bytes "/v1/"))
      then next none
      else if text_eq r.method (bytes "OPTIONS")
      then next none
      else if dashboard_rbac_public r.method r.path
      then next none
      else authenticate r

  abbrev pub from_token : Request → Option Principal
  from_token r =
      if text_eq (dashboard_bearer_token r) [] then none else parse (dashboard_bearer_token r)

  -- RequirePrincipal, on the context that the middleware leaves.
  unfoldable pub require_principal : Option Principal → Request → Option Principal
  require_principal context r = if not (dashboard_origin_ok r allowed) then none else elim context [
    | some p ↦ if p.user_id == 0 then from_token r else some p
    | none ↦ from_token r
  ]

  -- RequireMinRole
  unfoldable pub require_min_role : Option Principal → Request → Text → Option Principal
  unfolding require_principal
  require_min_role context r min_role = elim (require_principal context r) [
    | none ↦ none
    | some p ↦ if has_at_least p.role min_role then some p else none
  ]

  -- A route behind the middleware that asks for a least role: who the handler then serves.
  unfoldable pub serve : Request → Text → Option Principal
  unfolding dashboard_rbac require_min_role
  serve r min_role = elim (dashboard_rbac r) [
    | refused status ↦ none
    | next context ↦ require_min_role context r min_role
  ]

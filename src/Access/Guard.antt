-- ===== src/Access/Guard.antt =====
-- Whom the middleware and a route's least role let through.
use arx_mdm.Prelude.{
  ℕ, ◌≡◌, refl, sym, ap, subst, ◌∙◌, ◌↔◌, ◌⊎◌, inl, inr, Bool, true, false, ◌&&◌, not, Option, none,
  some, List, [], Text, text_eq, bytes, to_lower, ◌==◌, trim_space, has_prefix, Bool-cases,
  Option-cases, arith,
}
use arx_mdm.Access.Roles.{
  Role, admin, operator, viewer, Principal, Claims, has_at_least, role_rank, parse_role, role_name,
  parse_token,
}
use arx_mdm.Access.Gate.{
  Request, Verdict, refused, next, from_token, dashboard_origin_ok, dashboard_bearer_token,
  dashboard_rbac_public, viewer_safe_method, operator_forbidden, admit, authenticate,
  dashboard_rbac, require_principal, require_min_role, serve,
}

-- A route that asks for a session.
abbrev pub IsProtected : Request → Type 0
IsProtected r =
    (has_prefix r.path (bytes "/v1/") ≡ true)
    × (text_eq r.method (bytes "OPTIONS") ≡ false)
    × (dashboard_rbac_public r.method r.path ≡ false)

module _ (parse : Text → Option Principal) (allowed : List Text) where
  -- The session of a request: the origin is allowed, and its token is that of a user.
  abbrev pub HasSession : Request → Principal → Type 0
  HasSession r p =
      (dashboard_origin_ok r allowed ≡ true)
      × (text_eq (dashboard_bearer_token r) [] ≡ false)
      × (parse (dashboard_bearer_token r) ≡ some p)

  abbrev pub MayCall : Request → Principal → Type 0
  MayCall r p =
      ((p.user_id == 0) ≡ false)
      × ((text_eq p.role (bytes "viewer") && not (viewer_safe_method r.method)) ≡ false)
      × ((text_eq p.role (bytes "operator") && operator_forbidden r.method r.path) ≡ false)

  admit_sound :
      (r : Request) (p : Principal) (c : Option Principal)
      → admit parse allowed r p ≡ next c
      → (c ≡ some p)
        × ((text_eq p.role (bytes "viewer") && not (viewer_safe_method r.method)) ≡ false)
        × ((text_eq p.role (bytes "operator") && operator_forbidden r.method r.path) ≡ false)
  unfolding admit
  admit_sound r p c h =
      elim (Bool-cases (text_eq p.role (bytes "viewer") && not (viewer_safe_method r.method))) [
        | inl e ↦ elim (let absurd : ⊥ = cc (rw (e, admit) at h) in absurd) [ ]
        | inr e ↦
            elim (Bool-cases
              (text_eq p.role (bytes "operator") && operator_forbidden r.method r.path)) [
                | inl f ↦ elim (let absurd : ⊥ = cc (rw (admit, e, f) at h) in absurd) [ ]
                | inr f ↦ (cc (rw (admit, e, f) at h), e, f)
              ]
      ]

  authenticate_sound :
      (r : Request) (c : Option Principal)
      → authenticate parse allowed r ≡ next c
      → (p : Principal) × (c ≡ some p) × HasSession r p × MayCall r p
  unfolding authenticate
  authenticate_sound r c h = elim (Bool-cases (dashboard_origin_ok r allowed)) [
    | inr o ↦ elim (let absurd : ⊥ = cc (rw (authenticate, o) at h) in absurd) [ ]
    | inl o ↦ elim (Bool-cases (text_eq (dashboard_bearer_token r) [])) [
      | inl t ↦ elim (let absurd : ⊥ = cc (rw (authenticate, o, t) at h) in absurd) [ ]
      | inr t ↦ elim (Option-cases (parse (dashboard_bearer_token r))) [
        | inl e ↦ elim (let absurd : ⊥ = cc (rw (authenticate, o, t, e) at h) in absurd) [ ]
        | inr (p, e) ↦ elim (Bool-cases (p.user_id == 0)) [
          | inl u ↦ elim (let absurd : ⊥ = cc (rw (authenticate, o, t, e, u) at h) in absurd) [ ]
          | inr u ↦
              let (same, v, w) = admit_sound r p c (rw (authenticate, o, t, e, u) at h) in
              (p, same, (o, t, e), (u, v, w))
        ]
      ]
    ]
  ]

  authenticate_complete :
      (r : Request) (p : Principal)
      → HasSession r p
      → MayCall r p
      → authenticate parse allowed r ≡ next (some p)
  unfolding authenticate admit
  authenticate_complete r p s m = rw (s.0, s.1, s.2, m.0, m.1, m.2)

  -- The middleware lets a request of a protected route through exactly when it carries the session of a
  -- user whose role may make the call, and then the handler's context holds that user.
  pub dashboard_rbac_iff :
      (r : Request) (c : Option Principal)
      → IsProtected r
      → (dashboard_rbac parse allowed r ≡ next c)
        ↔ ((p : Principal) × (c ≡ some p) × HasSession r p × MayCall r p)
  unfolding dashboard_rbac
  dashboard_rbac_iff r c (v1, o, pub_route) =
      rw (dashboard_rbac, v1, o, pub_route)
        (authenticate_sound r c, λ h. authenticate_complete r h.0 h.2 h.3 ∙ ap next (sym h.1))

  -- The middleware passes a request on with no user only on an open route.
  dashboard_rbac-next :
      (r : Request) (c : Option Principal)
      → dashboard_rbac parse allowed r ≡ next c
      → (c ≡ none) × (¬ IsProtected r)
        ⊎ ((p : Principal) × (c ≡ some p) × HasSession r p × MayCall r p)
  unfolding dashboard_rbac
  dashboard_rbac-next r c h = elim (Bool-cases (has_prefix r.path (bytes "/v1/"))) [
    | inr v ↦ inl (cc (rw (dashboard_rbac, v) at h), λ t. cc (t.0, v))
    | inl v ↦ elim (Bool-cases (text_eq r.method (bytes "OPTIONS"))) [
      | inl o ↦ inl (cc (rw (dashboard_rbac, v, o) at h), λ t. cc (t.1, o))
      | inr o ↦ elim (Bool-cases (dashboard_rbac_public r.method r.path)) [
        | inl w ↦ inl (cc (rw (dashboard_rbac, v, o, w) at h), λ t. cc (t.2, w))
        | inr w ↦ inr (authenticate_sound r c (rw (dashboard_rbac, v, o, w) at h))
      ]
    ]
  ]

  from_token_sound :
      (r : Request) (p : Principal)
      → from_token parse allowed r ≡ some p
      → (text_eq (dashboard_bearer_token r) [] ≡ false)
        × (parse (dashboard_bearer_token r) ≡ some p)
  from_token_sound r p h = elim (Bool-cases (text_eq (dashboard_bearer_token r) [])) [
    | inl t ↦ elim (let absurd : ⊥ = cc (rw t at h) in absurd) [ ]
    | inr t ↦ (t, rw t at h)
  ]

  require_principal_sound :
      (r : Request) (p : Principal)
      → require_principal parse allowed none r ≡ some p
      → HasSession r p
  unfolding require_principal
  require_principal_sound r p h = elim (Bool-cases (dashboard_origin_ok r allowed)) [
    | inr o ↦ elim (let absurd : ⊥ = cc (rw (require_principal, o) at h) in absurd) [ ]
    | inl o ↦ let t = from_token_sound r p (rw (require_principal, o) at h) in (o, t.0, t.1)
  ]

  require_min_role_sound :
      (context : Option Principal) (r : Request) (min_role : Text) (p : Principal)
      → require_min_role parse allowed context r min_role ≡ some p
      → (require_principal parse allowed context r ≡ some p) × (has_at_least p.role min_role ≡ true)
  unfolding require_min_role
  require_min_role_sound context r min_role p h =
      elim (Option-cases (require_principal parse allowed context r)) [
        | inl e ↦ elim (let absurd : ⊥ = cc (rw (require_min_role, e) at h) in absurd) [ ]
        | inr (q, e) ↦ elim (Bool-cases (has_at_least q.role min_role)) [
          | inr f ↦ elim (let absurd : ⊥ = cc (rw (require_min_role, e, f) at h) in absurd) [ ]
          | inl f ↦
              let same : some q ≡ some p = rw (require_min_role, e, f) at h in
              (e ∙ same, cc (same, f))
        ]
      ]

  abbrev pub IsServed : Request → Text → Principal → Type 0
  IsServed r min_role p =
      HasSession r p × (has_at_least p.role min_role ≡ true) × (IsProtected r → MayCall r p)

  -- The user in the context is the one that the handler gets.
  require_principal-context :
      (r : Request) (p : Principal)
      → HasSession r p
      → (p.user_id == 0) ≡ false
      → require_principal parse allowed (some p) r ≡ some p
  unfolding require_principal
  require_principal-context r p s u = rw (require_principal, s.0, u)

  served :
      (c : Option Principal) (r : Request) (min_role : Text) (p : Principal)
      → dashboard_rbac parse allowed r ≡ next c
      → require_min_role parse allowed c r min_role ≡ some p
      → IsServed r min_role p
  served c r min_role p g h = elim (dashboard_rbac-next r c g) [
    | inl (e, open_route) ↦
        let (q, a) = require_min_role_sound none r min_role p (rw e at h) in
        (require_principal_sound r p q, a, λ t. elim (open_route t) [ ])
    | inr (q, e, s, m) ↦
        let (f, a) = require_min_role_sound (some q) r min_role p (rw e at h) in
        let same : q ≡ p = cc (sym (require_principal-context r q s m.0) ∙ f) in
        (subst (HasSession r) same s, a, λ t. subst (MayCall r) same m)
  ]

  Verdict-cases :
      (v : Verdict) → ((n : ℕ) × (v ≡ refused n)) ⊎ ((c : Option Principal) × (v ≡ next c))
  Verdict-cases (refused n) = inl (n, refl)
  Verdict-cases (next c) = inr (c, refl)

  -- A handler behind the middleware serves only the user of the request's own token, with an allowed
  -- origin and at least the route's role; on a protected route the role also allows the method there.
  pub serve_sound :
      (r : Request) (min_role : Text) (p : Principal)
      → serve parse allowed r min_role ≡ some p
      → IsServed r min_role p
  unfolding serve
  serve_sound r min_role p h = elim (Verdict-cases (dashboard_rbac parse allowed r)) [
    | inl (n, e) ↦ elim (let absurd : ⊥ = cc (rw (serve, e) at h) in absurd) [ ]
    | inr (c, e) ↦ served c r min_role p e (rw (serve, e) at h)
  ]

-- The roles in tokens.
parse_token-role :
    (verify : Text → Option Claims) (uuid : Text → Option ℕ) (t : Text) (p : Principal)
    → parse_token verify uuid t ≡ some p
    → (r : Role) × (p.role ≡ role_name r)
unfolding parse_token
parse_token-role verify uuid t p h = elim (Option-cases (verify (trim_space t))) [
  | inl e ↦ elim (let absurd : ⊥ = cc (rw (parse_token, e) at h) in absurd) [ ]
  | inr (c, e) ↦ elim (Option-cases (uuid (trim_space c.subject))) [
    | inl f ↦ elim (let absurd : ⊥ = cc (rw (parse_token, e, f) at h) in absurd) [ ]
    | inr (u, f) ↦ elim (Option-cases (parse_role c.role)) [
      | inl g ↦ elim (let absurd : ⊥ = cc (rw (parse_token, e, f, g) at h) in absurd) [ ]
      | inr (r, g) ↦ elim (Bool-cases (text_eq (trim_space c.username) [])) [
        | inl n ↦ elim (let absurd : ⊥ = cc (rw (parse_token, e, f, g, n) at h) in absurd) [ ]
        | inr n ↦
            let same : some
                  (record { user_id = u; username = trim_space c.username; role = role_name r })
                ≡ some p =
              rw (parse_token, e, f, g, n) at h in
            (r, cc same)
      ]
    ]
  ]
]

-- Below an operator there is only the viewer.
low_role :
    (r : Role)
    → has_at_least (role_name r) (bytes "operator") ≡ false
    → text_eq (role_name r) (bytes "viewer") ≡ true
unfolding has_at_least role_rank parse_role text_eq trim_space to_lower
low_role admin h = cc h
low_role operator h = cc h
low_role viewer h = refl

-- A request of a protected route that is served for a user below the operator's role has a
-- method that reads only, whatever spelling of the role the token carries.
pub serve-viewer :
    (verify : Text → Option Claims) (uuid : Text → Option ℕ) (allowed : List Text) (r : Request)
    (min_role : Text) (p : Principal)
    → IsProtected r
    → serve (parse_token verify uuid) allowed r min_role ≡ some p
    → has_at_least p.role (bytes "operator") ≡ false
    → viewer_safe_method r.method ≡ true
serve-viewer verify uuid allowed r min_role p route h low =
    let (s, a, m) = serve_sound (parse_token verify uuid) allowed r min_role p h in
    let (role, e) = parse_token-role verify uuid (dashboard_bearer_token r) p s.2 in
    let viewer_role : text_eq p.role (bytes "viewer") ≡ true = rw e (low_role role (rw e at low)) in
    safe (text_eq p.role (bytes "viewer")) (viewer_safe_method r.method) viewer_role (m route).1
  where
    safe : (v s : Bool) → v ≡ true → (v && not s) ≡ false → s ≡ true
    safe v s h k = ground arith

-- The order of the roles is transitive.
pub has_at_least_trans :
    (a b c : Text) → has_at_least a b ≡ true → has_at_least b c ≡ true → has_at_least a c ≡ true
unfolding has_at_least
has_at_least_trans a b c h k = ground arith

-- ===== src/Accounts/Login.antt =====
-- From the creation of an account to the session its holder gets: handleCreate, handleLogin and
-- JWTService.Issue, and JWTService.Parse, which the guards of the other routes call.
use arx_mdm.Prelude.{
  ℕ, ◌≡◌, ◌≢◌, refl, sym, subst, ap, inl, inr, Bool, true, false, Option, none, some, List, [], ◌∷◌,
  ◌++◌, Text, text_eq, any, ◌==◌, Bool-cases, Option-cases, arith, trim_space, trim_left, to_lower,
  text_eq_refl,
}
use arx_mdm.Prelude.Trim.{trim_space_idem}
use arx_mdm.Access.Roles.{Role, admin, operator, viewer, Claims, parse_role, role_name, parse_token}
use arx_mdm.Accounts.Table.{User, Users, find_by_lower, get_user_by_username, insert_user}
use arx_mdm.Accounts.Handlers.{
  CreateUserRequest, LoginRequest, hash_password, check_password, handle_create, issue, session_for,
  handle_login,
}

find_by_lower-append :
    (name : Text) (us vs : List User)
    → find_by_lower name us ≡ none
    → find_by_lower name (us ++ vs) ≡ find_by_lower name vs
unfolding find_by_lower
find_by_lower-append name [] vs h = refl
find_by_lower-append name (u ∷ us) vs h = ground (arith, find_by_lower-append name us vs)

parse_role-role_name : (r : Role) → parse_role (role_name r) ≡ some r
unfolding parse_role text_eq to_lower trim_space trim_left
parse_role-role_name admin = refl
parse_role-role_name operator = refl
parse_role-role_name viewer = refl

nonblank_nonempty : (s : Text) → text_eq (trim_space s) [] ≡ false → text_eq s [] ≡ false
unfolding text_eq trim_space trim_left
nonblank_nonempty [] h = h
nonblank_nonempty (c ∷ s) h = refl

-- What an answer of 201 means.
abbrev IsCreated : (Text → Option Text) → Users → CreateUserRequest → Role → Users → Type 0
IsCreated bcrypt t req r after =
    (text_eq (trim_space req.username) [] ≡ false)
    × (text_eq (trim_space req.password) [] ≡ false)
    × (hash : Text) × (bcrypt req.password ≡ some hash)
    × (after ≡ insert_user t (trim_space req.username) hash (role_name r))

handle_create_sound :
    (bcrypt : Text → Option Text) (t after : Users) (req : CreateUserRequest) (r : Role)
    → parse_role req.role ≡ some r
    → handle_create bcrypt t req ≡ (201, after)
    → IsCreated bcrypt t req r after
unfolding handle_create hash_password
handle_create_sound bcrypt t after req r e h =
    elim (Bool-cases (text_eq (trim_space req.username) [])) [
      | inl a ↦
          elim (let absurd : ⊥ = omega (arith, ap (λ p. p.0) (rw (handle_create, e, a) at h)) in
            absurd) [ ]
      | inr a ↦ elim (Bool-cases (text_eq (trim_space req.password) [])) [
        | inl b ↦
            elim (let absurd : ⊥ =
                omega (arith, ap (λ p. p.0) (rw (handle_create, e, a, b) at h)) in
              absurd) [ ]
        | inr b ↦ elim (Option-cases (bcrypt req.password)) [
          | inl c ↦
              elim (let absurd : ⊥ =
                  omega (arith, ap (λ p. p.0) (rw (handle_create, e, a, b, c) at h)) in
                absurd) [ ]
          | inr (hash, c) ↦
              elim (Bool-cases (any (λ u. text_eq u.username (trim_space req.username)) t.rows)) [
                | inl d ↦
                    elim (let absurd : ⊥ =
                        omega (arith, ap (λ p. p.0) (rw (handle_create, e, a, b, c, d) at h)) in
                      absurd) [ ]
                | inr d ↦
                    (a, b, hash, c, sym (ap (λ p. p.1) (rw (handle_create, e, a, b, c, d) at h)))
              ]
        ]
      ]
    ]

last_found :
    (name : Text) (t : Users) (hash role : Text)
    → find_by_lower name t.rows ≡ none
    → find_by_lower name (insert_user t name hash role).rows
      ≡ some (record { id = t.next_id; username = name; password_hash = hash; role = role })
unfolding find_by_lower
last_found name t hash role h =
    rw (find_by_lower-append name t.rows _ h, text_eq_refl (to_lower name)) refl

-- The claims of a session of an account.
abbrev claims_of : (ℕ → Text) → Text → User → Role → Claims
claims_of print_uuid name u r = record {
  subject = print_uuid u.id;
  username = name;
  role = role_name r;
}

handle_login-eq :
    (matches : Text → Text → Bool) (print_uuid : ℕ → Text) (sign : Claims → Text) (t : Users)
    (req : LoginRequest) (u : User) (r : Role)
    → text_eq (trim_space req.username) [] ≡ false
    → text_eq req.password [] ≡ false
    → find_by_lower (trim_space req.username) t.rows ≡ some u
    → check_password matches u.password_hash req.password ≡ true
    → parse_role u.role ≡ some r
    → (u.id == 0) ≡ false
    → handle_login matches print_uuid sign t req
      ≡ some (sign (claims_of print_uuid (trim_space req.username) u r))
unfolding handle_login get_user_by_username issue
handle_login-eq matches print_uuid sign t req u r a b f c p z =
    rw
      (
        handle_login,
        a,
        b,
        get_user_by_username,
        trim_space_idem req.username,
        a,
        f,
        c,
        session_for,
        p,
        issue,
        parse_role-role_name r,
        z,
      )
      refl

parse_token-eq :
    (verify : Text → Option Claims) (uuid : Text → Option ℕ) (token : Text) (c : Claims) (n : ℕ)
    (r : Role)
    → verify (trim_space token) ≡ some c
    → uuid (trim_space c.subject) ≡ some n
    → parse_role c.role ≡ some r
    → text_eq (trim_space c.username) [] ≡ false
    → parse_token verify uuid token
      ≡ some (record { user_id = n; username = trim_space c.username; role = role_name r })
unfolding parse_token
parse_token-eq verify uuid token c n r v u p a = rw (parse_token, v, u, p, a) refl

module _ (bcrypt : Text → Option Text) (matches : Text → Text → Bool) (print_uuid : ℕ → Text)
    (sign : Claims → Text) (verify : Text → Option Claims) (uuid : Text → Option ℕ)
    (matches-bcrypt : (pw hash : Text)
      → bcrypt pw ≡ some hash
      → (matches hash pw ≡ true) × (text_eq hash [] ≡ false))
    (verify-sign : (c : Claims) → verify (trim_space (sign c)) ≡ some c)
    (uuid-print_uuid : (n : ℕ) → uuid (trim_space (print_uuid n)) ≡ some n) where
  -- Who has created an account whose name differs from the others' by more than case logs in with the
  -- name and password of the request, and the token is read as that account with the role of the request.
  pub handle_create-handle_login :
      (t after : Users) (req : CreateUserRequest) (r : Role)
      → parse_role req.role ≡ some r
      → find_by_lower (trim_space req.username) t.rows ≡ none
      → t.next_id ≢ 0
      → handle_create bcrypt t req ≡ (201, after)
      → (token : Text) × (handle_login matches print_uuid sign after
            (record { username = req.username; password = req.password })
          ≡ some token)
        × (parse_token verify uuid token
            ≡ some (record {
              user_id = t.next_id;
              username = trim_space req.username;
              role = role_name r;
            }))
  unfolding check_password
  handle_create-handle_login t after req r e fresh keyed h =
      let (a, b, hash, c, same) = handle_create_sound bcrypt t after req r e h in
      let (good, full) = matches-bcrypt req.password hash c in
      let name = trim_space req.username in
      let u : User = record {
        id = t.next_id;
        username = name;
        password_hash = hash;
        role = role_name r;
      } in
      rw same (
        sign (claims_of print_uuid name u r),
        handle_login-eq matches print_uuid sign _
            (record { username = req.username; password = req.password }) u r a
            (nonblank_nonempty req.password b) (last_found name t hash (role_name r) fresh)
            (rw (check_password, full, nonblank_nonempty req.password b) good)
            (parse_role-role_name r) (ground arith),
        subst
            (λ n.
              parse_token verify uuid (sign (claims_of print_uuid name u r))
              ≡ some (record { user_id = t.next_id; username = n; role = role_name r }))
            (trim_space_idem req.username)
            (parse_token-eq verify uuid (sign (claims_of print_uuid name u r))
              (claims_of print_uuid name u r) t.next_id r (verify-sign _)
              (uuid-print_uuid t.next_id) (parse_role-role_name r)
              (rw (trim_space_idem req.username) a)),
      )

-- ===== src/Accounts/Handlers.antt =====
-- internal/api/users_admin.go and internal/api/auth_handlers.go behind their guards, on request bodies
-- that decode; an answer is its status. The database's statements succeed.
use arx_mdm.Prelude.{
  ℕ, Bool, false, ◌&&◌, not, Option, none, some, List, [], ◌∷◌, Text, text_eq, bytes, any, is_none,
  ◌==◌, if◌then◌else◌, trim_space,
}
use arx_mdm.Access.Roles.{Role, Principal, Claims, parse_role, role_name}
use arx_mdm.Accounts.Table.{
  User, Users, find_user, remove_user, update_user, count_users, is_last_admin,
  get_user_by_username, insert_user,
}

pub record CreateUserRequest : Type 0 where
  pub username : Text
  pub password : Text
  pub role : Text

pub record PatchUserRequest : Type 0 where
  pub role : Option Text
  pub password : Option Text

pub record LoginRequest : Type 0 where
  pub username : Text
  pub password : Text

-- The insertion of handleCreate; the username is UNIQUE.
abbrev pub insert_unique : Users → Text → Text → Text → ℕ × Users
insert_unique t name hash role =
    if any (λ u. text_eq u.username name) t.rows
    then (409, t)
    else (201, insert_user t name hash role)

-- The two updates of handlePatch; a status other than 200 ends the request.
abbrev pub set_role : Users → ℕ → Role → ℕ × Users
set_role t k role =
    let found = not (is_none (find_user k t.rows)) in
    (
      if found then 200 else 404,
      record t { rows = update_user k (λ u. record u { role = role_name role }) t.rows },
    )

unfoldable pub patch_role : Users → ℕ → Text → ℕ × Users
unfolding is_last_admin update_user
patch_role t k text = elim (parse_role text) [
  | none ↦ (400, t)
  | some role ↦
      if is_last_admin k t.rows && not (text_eq (role_name role) (bytes "admin"))
      then (400, t)
      else set_role t k role
]

-- handleDelete: the checks, and the deletion that follows them.
unfoldable pub check_delete : Principal → ℕ → List User → Bool
unfolding is_last_admin
check_delete caller k rows = not (k == caller.user_id) && not (is_last_admin k rows)

unfoldable pub delete_user : Users → ℕ → ℕ × Users
unfolding remove_user
delete_user t k =
    (if is_none (find_user k t.rows) then 404 else 204, record t { rows = remove_user k t.rows })

unfoldable pub handle_delete : Users → Principal → ℕ → ℕ × Users
unfolding check_delete delete_user
handle_delete t caller k = if check_delete caller k t.rows then delete_user t k else (400, t)

-- JWTService.Issue: the claims, which jwt signs; uuid.Nil and an unknown role are refused.
module _ (print_uuid : ℕ → Text) (sign : Claims → Text) where
  unfoldable pub issue : Principal → Option Text
  unfolding parse_role
  issue p =
      if is_none (parse_role p.role)
      then none
      else if p.user_id == 0
      then none
      else some
          (sign (record { subject = print_uuid p.user_id; username = p.username; role = p.role }))

  abbrev pub session_for : Text → User → Option Text
  session_for name u = elim (parse_role u.role) [
    | none ↦ none
    | some role ↦ issue (record { user_id = u.id; username = name; role = role_name role })
  ]

-- CheckPassword; `matches` is CompareHashAndPassword.
module _ (matches : Text → Text → Bool) where
  unfoldable pub check_password : Text → Text → Bool
  check_password hash plain =
      if text_eq hash [] then false else if text_eq plain [] then false else matches hash plain

  module _ (print_uuid : ℕ → Text) (sign : Claims → Text) where
    -- handleLogin: the token, none for a refusal.
    unfoldable pub handle_login : Users → LoginRequest → Option Text
    unfolding get_user_by_username check_password issue
    handle_login t req =
        let name = trim_space req.username in
        if text_eq name []
        then none
        else if text_eq req.password []
        then none
        else elim (get_user_by_username name t.rows) [
          | none ↦ none
          | some u ↦
              if check_password u.password_hash req.password
              then session_for print_uuid sign name u
              else none
        ]

-- One call of a handler or of the start of the server.
pub data Call : Type 0 where
  bootstrap : Text → Text → Call
  create : CreateUserRequest → Call
  patch : ℕ → PatchUserRequest → Call
  delete : Principal → ℕ → Call

-- `bcrypt` is GenerateFromPassword, none for an error.
module _ (bcrypt : Text → Option Text) where
  -- HashPassword
  unfoldable pub hash_password : Text → Option Text
  hash_password plain = if text_eq (trim_space plain) [] then none else bcrypt plain

  -- BootstrapAdminIfEmpty
  unfoldable pub bootstrap_admin_if_empty : Users → Text → Text → Users
  unfolding hash_password
  bootstrap_admin_if_empty t username password =
      if not (count_users t.rows == 0)
      then t
      else if text_eq (trim_space username) []
      then t
      else if text_eq (trim_space password) []
      then t
      else elim (hash_password password) [
        | none ↦ t
        | some hash ↦ insert_user t (trim_space username) hash (bytes "admin")
      ]

  -- handleCreate
  unfoldable pub handle_create : Users → CreateUserRequest → ℕ × Users
  unfolding hash_password
  handle_create t req = elim (parse_role req.role) [
    | none ↦ (400, t)
    | some role ↦
        if text_eq (trim_space req.username) []
        then (400, t)
        else if text_eq (trim_space req.password) []
        then (400, t)
        else elim (hash_password req.password) [
          | none ↦ (400, t)
          | some hash ↦ insert_unique t (trim_space req.username) hash (role_name role)
        ]
  ]

  unfoldable pub patch_password : Users → ℕ → Text → ℕ × Users
  unfolding hash_password update_user
  patch_password t k text =
      if text_eq (trim_space text) [] then (400, t) else elim (hash_password (trim_space text)) [
        | none ↦ (400, t)
        | some hash ↦ (
          if is_none (find_user k t.rows) then 404 else 200,
          record t { rows = update_user k (λ u. record u { password_hash = hash }) t.rows },
        )
      ]

  abbrev pub then_password : ℕ → Option Text → ℕ × Users → ℕ × Users
  then_password k none r = r
  then_password k (some text) (status, t) =
      if status == 200 then patch_password t k text else (status, t)

  -- handlePatch
  unfoldable pub handle_patch : Users → ℕ → PatchUserRequest → ℕ × Users
  unfolding patch_role patch_password
  handle_patch t k req =
      if is_none req.role && is_none req.password
      then (400, t)
      else then_password k req.password
          (elim req.role [ none ↦ (200, t) | some text ↦ patch_role t k text ])

  unfoldable pub step : Users → Call → Users
  unfolding bootstrap_admin_if_empty handle_create handle_patch handle_delete
  step t (bootstrap username password) = bootstrap_admin_if_empty t username password
  step t (create req) = (handle_create t req).1
  step t (patch k req) = (handle_patch t k req).1
  step t (delete caller k) = (handle_delete t caller k).1

  unfoldable pub run : Users → List Call → Users
  unfolding step
  run t [] = t
  run t (c ∷ cs) = run (step t c) cs

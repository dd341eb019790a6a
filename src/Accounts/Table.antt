-- ===== src/Accounts/Table.antt =====
-- The rows of `users`, and the queries of internal/auth/users.go.
use arx_mdm.Prelude.{
  ℕ, suc, Bool, false, ◌&&◌, Option, none, some, List, [], ◌∷◌, ◌++◌, Text, text_eq, bytes, length,
  ◌==◌, if◌then◌else◌, trim_space, to_lower,
}

pub record User : Type 0 where
  pub id : ℕ
  pub username : Text
  pub password_hash : Text
  pub role : Text

pub record Users : Type 0 where
  pub rows : List User
  pub next_id : ℕ

abbrev pub has_id : ℕ → User → Bool
has_id k u = u.id == k

abbrev pub is_admin : User → Bool
is_admin u = text_eq u.role (bytes "admin")

unfoldable pub find_user : ℕ → List User → Option User
find_user k [] = none
find_user k (u ∷ us) = if u.id == k then some u else find_user k us

-- `DELETE FROM users WHERE id = $1`
unfoldable pub remove_user : ℕ → List User → List User
remove_user k [] = []
remove_user k (u ∷ us) = if u.id == k then remove_user k us else u ∷ remove_user k us

-- `UPDATE users SET … WHERE id = $1`
unfoldable pub update_user : ℕ → (User → User) → List User → List User
update_user k change [] = []
update_user k change (u ∷ us) = (if u.id == k then change u else u) ∷ update_user k change us

-- CountUsers and CountAdmins
abbrev pub count_users : List User → ℕ
count_users rows = length rows

unfoldable pub count_admins : List User → ℕ
count_admins [] = 0
count_admins (u ∷ us) = if is_admin u then suc (count_admins us) else count_admins us

-- IsLastAdmin
unfoldable pub is_last_admin : ℕ → List User → Bool
unfolding find_user
is_last_admin k rows = elim (find_user k rows) [
  | none ↦ false
  | some u ↦ is_admin u && count_admins rows == 1
]

-- GetUserByUsername; where several rows match, LIMIT 1 gives the first.
unfoldable pub find_by_lower : Text → List User → Option User
find_by_lower name [] = none
find_by_lower name (u ∷ us) =
    if text_eq (to_lower u.username) (to_lower name) then some u else find_by_lower name us

unfoldable pub get_user_by_username : Text → List User → Option User
unfolding find_by_lower
get_user_by_username name rows =
    let u = trim_space name in if text_eq u [] then none else find_by_lower u rows

abbrev pub insert_user : Users → Text → Text → Text → Users
insert_user t name hash role = record {
  rows =
      t.rows ++ record { id = t.next_id; username = name; password_hash = hash; role = role } ∷ [];
  next_id = suc t.next_id;
}

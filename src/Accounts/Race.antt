-- ===== src/Accounts/Race.antt =====
-- handleDelete runs IsLastAdmin and the deletion as two statements, with no transaction around them:
-- two requests may both check before either deletes.
use arx_mdm.Prelude.{ℕ, ◌≡◌, ◌≢◌, true, ◌&&◌, [], ◌∷◌, if◌then◌else◌, arith}
use arx_mdm.Access.Roles.{Principal}
use arx_mdm.Accounts.Table.{
  User, Users, is_admin, find_user, remove_user, count_admins, is_last_admin,
}
use arx_mdm.Accounts.Handlers.{check_delete, delete_user, handle_delete}

-- Two requests, both of whose checks see the table before either deletion.
abbrev pub both_checked : Users → Principal → ℕ → Principal → ℕ → Users
both_checked t p a q b =
    if check_delete p a t.rows && check_delete q b t.rows
    then (delete_user (delete_user t a).1 b).1
    else t

abbrev pub two : User → User → ℕ → Users
two a b n = record { rows = a ∷ b ∷ []; next_id = n }

-- With two administrators, each of whom deletes the other, both checks pass where they come before both
-- deletions, and no administrator is left; one after the other, the second request is answered 400.
pub delete_user-check_delete :
    (a b : User) (n : ℕ)
    → is_admin a ≡ true
    → is_admin b ≡ true
    → a.id ≢ b.id
    → (p q : Principal) → p.user_id ≡ a.id
    → q.user_id ≡ b.id
    → ((both_checked (two a b n) p b.id q a.id).rows ≡ [])
      × ((handle_delete (handle_delete (two a b n) p b.id).1 q a.id).0 ≡ 400)
unfolding check_delete delete_user handle_delete is_last_admin find_user remove_user count_admins
delete_user-check_delete a b n x y d p q e f = ground arith

-- ===== src/Accounts/Tests.antt =====
-- Accounts by example.
use arx_mdm.Prelude.{
  ℕ, ◌≡◌, refl, ap, subst, Bool, true, false, Option, none, some, List, [], ◌∷◌, ◌++◌, Text,
  text_eq, text_eq_refl, bytes, arith, trim_space, trim_left, to_lower, length, take, drop,
}
use mathlib.Core.List.{reverse, reverse-append, reverse-reverse, reverse-cons, append_assoc}
use arx_mdm.Access.Roles.{Principal, Claims, parse_role, parse_token}
use arx_mdm.Accounts.Table.{
  User, Users, find_user, remove_user, update_user, count_admins, is_last_admin, find_by_lower,
  get_user_by_username,
}
use arx_mdm.Accounts.Handlers.{
  CreateUserRequest, Call, hash_password, bootstrap_admin_if_empty, handle_create, patch_role,
  patch_password, handle_patch, check_delete, delete_user, handle_delete, issue, check_password,
  handle_login, create, patch, delete, step, run,
}
use arx_mdm.Accounts.Counting.{IsKeyed, HasAdmin}
use arx_mdm.Accounts.Admins.{run-HasAdmin}
use arx_mdm.Accounts.Race.{two}
use arx_mdm.Accounts.Login.{handle_create-handle_login}

-- A hash that marks the password.
abbrev bcrypt : Text → Option Text
bcrypt pw = some (b'$' ∷ pw)

abbrev matches : Text → Text → Bool
matches hash pw = text_eq hash (b'$' ∷ pw)

abbrev print_uuid : ℕ → Text
print_uuid n = b'<' ∷ n ∷ b'>' ∷ []

abbrev uuid : Text → Option ℕ
uuid (_ ∷ n ∷ _ ∷ []) = some n
uuid _ = none

own_hash :
    (pw hash : Text) → bcrypt pw ≡ some hash → (matches hash pw ≡ true) × (text_eq hash [] ≡ false)
unfolding text_eq
own_hash pw hash e =
    let same : b'$' ∷ pw ≡ hash = ap (λ o. elim o [ none ↦ [] | some x ↦ x ]) e in
    subst (λ x. (matches x pw ≡ true) × (text_eq x [] ≡ false)) same
      (text_eq_refl (b'$' ∷ pw), refl)

-- A token that spells the claims out between two marks.
abbrev payload : Claims → Text
payload c =
    length c.subject ∷ length c.username ∷ length c.role ∷ (c.subject ++ c.username ++ c.role)

abbrev sign : Claims → Text
sign c = b'<' ∷ payload c ++ b'>' ∷ []

abbrev verify : Text → Option Claims
verify (_ ∷ a ∷ b ∷ c ∷ s) =
    some (record {
      subject = take a s;
      username = take b (drop a s);
      role = take c (drop b (drop a s));
    })
verify _ = none

take-append : (a b : Text) → take (length a) (a ++ b) ≡ a
take-append [] b = ground arith
take-append (x ∷ a) b = rw (take-append a b)

drop-append : (a b : Text) → drop (length a) (a ++ b) ≡ b
drop-append [] b = refl
drop-append (x ∷ a) b = drop-append a b

marked_trim : (s : Text) → trim_space (b'<' ∷ s ++ b'>' ∷ []) ≡ b'<' ∷ s ++ b'>' ∷ []
unfolding trim_space trim_left
marked_trim s =
    rw
      (
        reverse-cons b'<' (s ++ b'>' ∷ []),
        reverse-append s (b'>' ∷ []),
        reverse-cons b'>' (reverse s ++ b'<' ∷ []),
        reverse-append (reverse s) (b'<' ∷ []),
        reverse-reverse s,
      )
      refl

verify-sign : (c : Claims) → verify (trim_space (sign c)) ≡ some c
verify-sign c =
    rw
      (
        marked_trim (payload c),
        append_assoc (c.subject ++ c.username) c.role (b'>' ∷ []),
        append_assoc c.subject c.username (c.role ++ b'>' ∷ []),
        take-append c.subject (c.username ++ (c.role ++ b'>' ∷ [])),
        drop-append c.subject (c.username ++ (c.role ++ b'>' ∷ [])),
        take-append c.username (c.role ++ b'>' ∷ []),
        drop-append c.username (c.role ++ b'>' ∷ []),
        take-append c.role (b'>' ∷ []),
      )
      refl

open_all : Unit {0}
unfolding text_eq trim_space trim_left to_lower parse_role parse_token find_user remove_user
    update_user count_admins is_last_admin find_by_lower get_user_by_username hash_password
    bootstrap_admin_if_empty handle_create patch_role patch_password handle_patch check_delete
    delete_user handle_delete issue check_password handle_login step run
open_all = tt

abbrev ada : User
ada = record { id = 1; username = bytes "ada"; password_hash = bytes "$x"; role = bytes "admin" }

abbrev bob : User
bob = record { id = 2; username = bytes "bob"; password_hash = bytes "$y"; role = bytes "admin" }

abbrev as_ada : Principal
as_ada = record { user_id = 1; username = bytes "ada"; role = bytes "admin" }

abbrev as_bob : Principal
as_bob = record { user_id = 2; username = bytes "bob"; role = bytes "admin" }

abbrev eve : CreateUserRequest
eve = record { username = bytes " Eve "; password = bytes "secret "; role = bytes "viewer" }

abbrev staff : Users
staff = two ada bob 3

abbrev with_eve : Users
with_eve = (handle_create bcrypt staff eve).1

abbrev three_calls : List Call
three_calls =
    create eve
    ∷ delete as_ada 2
    ∷ patch 1 (record { role = some (bytes "viewer"); password = none })
    ∷ []

run-HasAdmin_example :
    IsKeyed (run bcrypt staff three_calls) × HasAdmin (run bcrypt staff three_calls)
unfolding open_all
run-HasAdmin_example =
    run-HasAdmin bcrypt staff three_calls
      (((ground arith, tt), (tt, tt)), (ground arith, (ground arith, tt))) (ground arith)

handle_create-handle_login_example :
    (token : Text) × (handle_login matches print_uuid sign with_eve
        (record { username = bytes " Eve "; password = bytes "secret " })
      ≡ some token)
    × (parse_token verify uuid token
        ≡ some (record { user_id = 3; username = bytes "Eve"; role = bytes "viewer" }))
unfolding open_all
handle_create-handle_login_example =
    handle_create-handle_login bcrypt matches print_uuid sign verify uuid own_hash verify-sign
      (λ n. refl) staff with_eve eve _ refl refl (ground arith) refl

-- The form of the dashboard trims a new password, and the login does not.
patched_password :
    handle_login matches print_uuid sign
      (handle_patch bcrypt staff 1 (record { role = none; password = some (bytes "new ") })).1
      (record { username = bytes "ada"; password = bytes "new " })
    ≡ none
unfolding open_all
patched_password = refl

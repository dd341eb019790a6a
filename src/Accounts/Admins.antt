-- ===== src/Accounts/Admins.antt =====
-- What the handlers of internal/api/users_admin.go keep of the table of accounts.
use arx_mdm.Prelude.{
  ℕ, ◌+◌, ◌<◌, ◌≤◌, ◌≡◌, refl, inl, inr, true, false, ◌&&◌, Option, none, some, List, [], ◌∷◌, Text,
  text_eq, bytes, any, is_none, ◌==◌, Bool-cases, Option-cases, arith, trim_space,
}
use arx_mdm.Access.Roles.{Role, Principal, parse_role, role_name}
use arx_mdm.Accounts.Table.{
  User, Users, find_user, count_users, count_admins, is_last_admin, insert_user,
}
use arx_mdm.Accounts.Handlers.{
  CreateUserRequest, PatchUserRequest, hash_password, bootstrap_admin_if_empty, insert_unique,
  handle_create, set_role, patch_role, patch_password, then_password, handle_patch, check_delete,
  delete_user, handle_delete, Call, bootstrap, create, patch, delete, step, run,
}
use arx_mdm.Accounts.Counting.{
  IsKeyed, HasAdmin, weight, count_admins-remove_user, count_admins-update_user,
  count_admins-update_mono, insert_user-IsKeyed, insert_user-HasAdmin, remove_user-Pairs,
  update-IsKeyed, All-remove_user,
}

abbrev IsSound : Users → Type 0
IsSound t = IsKeyed t × HasAdmin t

-- Where the id is not the last administrator's, another one is left.
others_left :
    (k : ℕ) (us : List User) (n : ℕ)
    → is_last_admin k us ≡ false
    → 1 ≤ count_admins us
    → count_admins us ≤ n + weight (find_user k us)
    → 1 ≤ n
unfolding is_last_admin
others_left k us n h one le = elim (Option-cases (find_user k us)) [
  | inl e ↦ omega (arith, one, rw e at le)
  | inr (u, e) ↦ let h' = rw (is_last_admin, e) at h in let le' = rw e at le in ground arith
]

delete_user-IsSound :
    (t : Users) (k : ℕ) → IsSound t → is_last_admin k t.rows ≡ false → IsSound ((delete_user t k).1)
unfolding delete_user
delete_user-IsSound t k h safe = (
  (remove_user-Pairs k t.rows h.0.0, All-remove_user (λ u. u.id < t.next_id) k t.rows h.0.1),
  others_left k t.rows _ safe h.1 (omega (arith, count_admins-remove_user k t.rows h.0.0)),
)

handle_delete-IsSound :
    (t : Users) (caller : Principal) (k : ℕ) → IsSound t → IsSound ((handle_delete t caller k).1)
unfolding handle_delete check_delete
handle_delete-IsSound t caller k h = elim (Bool-cases (check_delete caller k t.rows)) [
  | inl e ↦ rw e (delete_user-IsSound t k h (ground arith))
  | inr e ↦ rw e h
]

set_role-IsKeyed : (t : Users) (k : ℕ) (role : Role) → IsKeyed t → IsKeyed ((set_role t k role).1)
set_role-IsKeyed t k role h = update-IsKeyed _ (λ u. refl) k t h

make_admin-HasAdmin :
    (t : Users) (k : ℕ) (role : Role)
    → text_eq (role_name role) (bytes "admin") ≡ true
    → HasAdmin t
    → HasAdmin ((set_role t k role).1)
make_admin-HasAdmin t k role adm h = omega (
  arith,
  h,
  count_admins-update_mono k (λ u. record u { role = role_name role }) t.rows (λ u _. adm),
)

patch_role-IsSound :
    (t : Users) (k : ℕ) (text : Text) → IsSound t → IsSound ((patch_role t k text).1)
unfolding patch_role
patch_role-IsSound t k text h = elim (Option-cases (parse_role text)) [
  | inl e ↦ rw (patch_role, e) h
  | inr (role, e) ↦
      rw (patch_role, e)
        (elim (Bool-cases (is_last_admin k t.rows)) [
          | inl last ↦ rw last (elim (Bool-cases (text_eq (role_name role) (bytes "admin"))) [
            | inl adm ↦ rw adm (set_role-IsKeyed t k role h.0, make_admin-HasAdmin t k role adm h.1)
            | inr e2 ↦ rw e2 h
          ])
          | inr safe ↦ rw safe (
            set_role-IsKeyed t k role h.0,
            others_left k t.rows _ safe h.1 (count_admins-update_user k _ t.rows h.0.0),
          )
        ])
]

nobody : (us : List User) → (count_users us == 0) ≡ true → 1 ≤ count_admins us → ⊥
unfolding count_admins
nobody [] e h = ground arith
nobody (u ∷ us) e h = ground arith

module _ (bcrypt : Text → Option Text) where
  patch_password-IsSound :
      (t : Users) (k : ℕ) (text : Text) → IsSound t → IsSound ((patch_password bcrypt t k text).1)
  unfolding patch_password
  patch_password-IsSound t k text h = elim (Bool-cases (text_eq (trim_space text) [])) [
    | inl e ↦ rw e h
    | inr e ↦ rw e (elim (Option-cases (hash_password bcrypt (trim_space text))) [
      | inl f ↦ rw f h
      | inr (hash, f) ↦ rw f (
        update-IsKeyed _ (λ u. refl) k t h.0,
        omega (
          arith,
          h.1,
          count_admins-update_mono k (λ u. record u { password_hash = hash }) t.rows (λ u adm. adm),
        ),
      )
    ])
  ]

  then_password-IsSound :
      (k : ℕ) (password : Option Text) (r : ℕ × Users)
      → IsSound r.1
      → IsSound ((then_password bcrypt k password r).1)
  then_password-IsSound k none r h = h
  then_password-IsSound k (some text) (status, t) h = elim (Bool-cases (status == 200)) [
    | inl e ↦ rw e (patch_password-IsSound t k text h)
    | inr e ↦ rw e h
  ]

  handle_patch-IsSound :
      (t : Users) (k : ℕ) (req : PatchUserRequest)
      → IsSound t
      → IsSound ((handle_patch bcrypt t k req).1)
  unfolding handle_patch
  handle_patch-IsSound t k req h = elim (Bool-cases (is_none req.role && is_none req.password)) [
    | inl e ↦ rw e h
    | inr e ↦ rw e (
        then_password-IsSound k req.password _ (elim (Option-cases req.role) [
          | inl f ↦ rw f h
          | inr (text, f) ↦ rw f (patch_role-IsSound t k text h)
        ]))
  ]

  insert_user-IsSound :
      (t : Users) (name hash role : Text) → IsSound t → IsSound (insert_user t name hash role)
  insert_user-IsSound t name hash role h =
      (insert_user-IsKeyed t name hash role h.0, insert_user-HasAdmin t name hash role h.1)

  insert_unique-IsSound :
      (t : Users) (name hash role : Text) → IsSound t → IsSound ((insert_unique t name hash role).1)
  insert_unique-IsSound t name hash role h =
      elim (Bool-cases (any (λ u. text_eq u.username name) t.rows)) [
        | inl e ↦ rw e h
        | inr e ↦ rw e (insert_user-IsSound t name hash role h)
      ]

  handle_create-IsSound :
      (t : Users) (req : CreateUserRequest) → IsSound t → IsSound ((handle_create bcrypt t req).1)
  unfolding handle_create
  handle_create-IsSound t req h = elim (Option-cases (parse_role req.role)) [
    | inl e ↦ rw (handle_create, e) h
    | inr (role, e) ↦
        rw (handle_create, e)
          (elim (Bool-cases (text_eq (trim_space req.username) [])) [
            | inl a ↦ rw a h
            | inr a ↦ rw a (elim (Bool-cases (text_eq (trim_space req.password) [])) [
              | inl b ↦ rw b h
              | inr b ↦ rw b (elim (Option-cases (bcrypt req.password)) [
                | inl f ↦ rw f h
                | inr (hash, f) ↦
                    rw f (insert_unique-IsSound t (trim_space req.username) hash (role_name role) h)
              ])
            ])
          ])
  ]

  bootstrap-IsSound :
      (t : Users) (username password : Text)
      → IsSound t
      → IsSound (bootstrap_admin_if_empty bcrypt t username password)
  unfolding bootstrap_admin_if_empty count_admins
  bootstrap-IsSound t username password h = elim (Bool-cases (count_users t.rows == 0)) [
    | inl e ↦ elim (let absurd : ⊥ = nobody t.rows e h.1 in absurd) [ ]
    | inr e ↦ rw e h
  ]

  step-IsSound : (t : Users) (c : Call) → IsSound t → IsSound (step bcrypt t c)
  unfolding step
  step-IsSound t (bootstrap username password) h = bootstrap-IsSound t username password h
  step-IsSound t (create req) h = handle_create-IsSound t req h
  step-IsSound t (patch k req) h = handle_patch-IsSound t k req h
  step-IsSound t (delete caller k) h = handle_delete-IsSound t caller k h

  -- From a table of accounts with distinct ids and an administrator, calls of the account handlers that
  -- follow one another lead to such a table.
  pub run-HasAdmin :
      (t : Users) (cs : List Call)
      → IsKeyed t
      → HasAdmin t
      → IsKeyed (run bcrypt t cs) × HasAdmin (run bcrypt t cs)
  unfolding run
  run-HasAdmin t [] k h = (k, h)
  run-HasAdmin t (c ∷ cs) k h =
      let next = step-IsSound t c (k, h) in run-HasAdmin (step bcrypt t c) cs next.0 next.1

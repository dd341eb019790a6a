-- ===== src/Accounts/Counting.antt =====
-- Rows of accounts under deletion, update and insertion: their ids and the number of administrators.
use arx_mdm.Prelude.{
  ℕ, suc, ◌+◌, ◌<◌, ◌≤◌, ◌≡◌, ◌≢◌, refl, sym, subst, inl, inr, true, Option, none, some, List, [],
  ◌∷◌, ◌++◌, Text, All, All-append, ◌==◌, ==_iff, if◌then◌else◌, Bool-cases, arith,
}
use arx_mdm.Prelude.Sort.{Pairs}
use arx_mdm.Accounts.Table.{
  User, Users, is_admin, find_user, remove_user, update_user, count_admins, insert_user,
}

-- The primary key: no two rows share an id, and the next one is above all.
abbrev pub IsKeyed : Users → Type 0
IsKeyed t = Pairs (λ a b. a.id ≢ b.id) t.rows × All (λ u. u.id < t.next_id) t.rows

abbrev pub HasAdmin : Users → Type 0
HasAdmin t = 1 ≤ count_admins t.rows

abbrev pub weight : Option User → ℕ
weight none = 0
weight (some u) = if is_admin u then 1 else 0

remove_user-absent : (k : ℕ) (us : List User) → All (λ v. k ≢ v.id) us → remove_user k us ≡ us
unfolding remove_user
remove_user-absent k [] h = refl
remove_user-absent k (u ∷ us) h = elim (Bool-cases (u.id == k)) [
  | inl e ↦ elim (let absurd : ⊥ = h.0 (sym ((==_iff u.id k).0 e)) in absurd) [ ]
  | inr e ↦ rw (e, remove_user-absent k us h.1)
]

same_id :
    (k : ℕ) (u : User) (us : List User)
    → (u.id == k) ≡ true
    → All (λ v. u.id ≢ v.id) us
    → All (λ v. k ≢ v.id) us
same_id k u us e h = subst (λ n. All (λ v. n ≢ v.id) us) ((==_iff u.id k).0 e) h

-- A deletion takes one administrator at most: the one it finds.
pub count_admins-remove_user :
    (k : ℕ) (us : List User)
    → Pairs (λ a b. a.id ≢ b.id) us
    → count_admins us ≡ count_admins (remove_user k us) + weight (find_user k us)
unfolding count_admins remove_user find_user
count_admins-remove_user k [] h = refl
count_admins-remove_user k (u ∷ us) h = elim (Bool-cases (u.id == k)) [
  | inl e ↦ rw (e, remove_user-absent k us (same_id k u us e h.0)) (ground arith)
  | inr e ↦ rw e (ground (arith, count_admins-remove_user k us h.1))
]

update_user-absent :
    (k : ℕ) (f : User → User) (us : List User) → All (λ v. k ≢ v.id) us → update_user k f us ≡ us
unfolding update_user
update_user-absent k f [] h = refl
update_user-absent k f (u ∷ us) h = elim (Bool-cases (u.id == k)) [
  | inl e ↦ elim (let absurd : ⊥ = h.0 (sym ((==_iff u.id k).0 e)) in absurd) [ ]
  | inr e ↦ rw (e, update_user-absent k f us h.1)
]

-- So does an update.
pub count_admins-update_user :
    (k : ℕ) (f : User → User) (us : List User)
    → Pairs (λ a b. a.id ≢ b.id) us
    → count_admins us ≤ count_admins (update_user k f us) + weight (find_user k us)
unfolding count_admins update_user find_user
count_admins-update_user k f [] h = omega arith
count_admins-update_user k f (u ∷ us) h = elim (Bool-cases (u.id == k)) [
  | inl e ↦ rw (e, update_user-absent k f us (same_id k u us e h.0)) (ground arith)
  | inr e ↦ rw e (ground (arith, count_admins-update_user k f us h.1))
]

-- An update that makes no administrator less takes none.
pub count_admins-update_mono :
    (k : ℕ) (f : User → User) (us : List User)
    → ((u : User) → is_admin u ≡ true → is_admin (f u) ≡ true)
    → count_admins us ≤ count_admins (update_user k f us)
unfolding count_admins update_user
count_admins-update_mono k f [] h = omega arith
count_admins-update_mono k f (u ∷ us) h = ground (arith, h u, count_admins-update_mono k f us h)

count_admins-append :
    (us vs : List User) → count_admins (us ++ vs) ≡ count_admins us + count_admins vs
unfolding count_admins
count_admins-append [] vs = omega arith
count_admins-append (u ∷ us) vs = ground (arith, count_admins-append us vs)

module _ (P : User → Type 0) where
  pub All-remove_user : (k : ℕ) (us : List User) → All P us → All P (remove_user k us)
  unfolding remove_user
  All-remove_user k [] h = tt
  All-remove_user k (u ∷ us) h = ground (arith, All-remove_user k us h.1)

  All-update_user :
      (k : ℕ) (f : User → User) (us : List User)
      → ((u : User) → P u → P (f u))
      → All P us
      → All P (update_user k f us)
  unfolding update_user
  All-update_user k f [] p h = tt
  All-update_user k f (u ∷ us) p h = elim (Bool-cases (u.id == k)) [
    | inl e ↦ rw e (p u h.0, All-update_user k f us p h.1)
    | inr e ↦ rw e (h.0, All-update_user k f us p h.1)
  ]

pub remove_user-Pairs :
    (k : ℕ) (us : List User)
    → Pairs (λ a b. a.id ≢ b.id) us
    → Pairs (λ a b. a.id ≢ b.id) (remove_user k us)
unfolding remove_user
remove_user-Pairs k [] h = tt
remove_user-Pairs k (u ∷ us) h = elim (Bool-cases (u.id == k)) [
  | inl e ↦ rw e (remove_user-Pairs k us h.1)
  | inr e ↦ rw e (All-remove_user (λ b. u.id ≢ b.id) k us h.0, remove_user-Pairs k us h.1)
]

module _ (f : User → User) (keeps : (u : User) → (f u).id ≡ u.id) where
  update_user-Pairs :
      (k : ℕ) (us : List User)
      → Pairs (λ a b. a.id ≢ b.id) us
      → Pairs (λ a b. a.id ≢ b.id) (update_user k f us)
  unfolding update_user
  update_user-Pairs k [] h = tt
  update_user-Pairs k (u ∷ us) h = elim (Bool-cases (u.id == k)) [
    | inl e ↦ rw (e, keeps u) (others, update_user-Pairs k us h.1)
    | inr e ↦ rw e (others, update_user-Pairs k us h.1)
  ]
    where
      others : All (λ b. u.id ≢ b.id) (update_user k f us)
      others = All-update_user (λ b. u.id ≢ b.id) k f us (λ v d. rw (keeps v) d) h.0

  pub update-IsKeyed :
      (k : ℕ) (t : Users) → IsKeyed t → IsKeyed (record t { rows = update_user k f t.rows })
  update-IsKeyed k t h = (
    update_user-Pairs k t.rows h.0,
    All-update_user (λ u. u.id < t.next_id) k f t.rows (λ v d. rw (keeps v) d) h.1,
  )

Pairs-append_one :
    (us : List User) (v : User)
    → Pairs (λ a b. a.id ≢ b.id) us
    → All (λ u. u.id ≢ v.id) us
    → Pairs (λ a b. a.id ≢ b.id) (us ++ v ∷ [])
Pairs-append_one [] v h k = (tt, tt)
Pairs-append_one (u ∷ us) v h k =
    (All-append (λ b. u.id ≢ b.id) us (v ∷ []) h.0 (k.0, tt), Pairs-append_one us v h.1 k.1)

pub All-mono :
    (P Q : User → Type 0) (us : List User) → ((u : User) → P u → Q u) → All P us → All Q us
All-mono P Q [] f h = tt
All-mono P Q (u ∷ us) f h = (f u h.0, All-mono P Q us f h.1)

pub insert_user-IsKeyed :
    (t : Users) (name hash role : Text) → IsKeyed t → IsKeyed (insert_user t name hash role)
insert_user-IsKeyed t name hash role h = (
  Pairs-append_one t.rows _ h.0
      (All-mono (λ u. u.id < t.next_id) (λ u. u.id ≢ t.next_id) t.rows (λ u lt. ground arith) h.1),
  All-append (λ u. u.id < suc t.next_id) t.rows _
      (All-mono (λ u. u.id < t.next_id) (λ u. u.id < suc t.next_id) t.rows (λ u lt. omega arith)
        h.1)
      (omega arith, tt),
)

pub insert_user-HasAdmin :
    (t : Users) (name hash role : Text) → HasAdmin t → HasAdmin (insert_user t name hash role)
insert_user-HasAdmin t name hash role h = omega (
  arith,
  h,
  count_admins-append t.rows
      (record { id = t.next_id; username = name; password_hash = hash; role = role } ∷ []),
)

-- ===== src/Assignments/Lookup.antt =====
-- Looking a row up after a deletion, an insertion or a change of states.
use arx_mdm.Prelude.{
  ℕ, ◌≡◌, ◌≢◌, ◌↔◌, refl, inl, inr, Bool, true, false, not, none, some, List, [], ◌∷◌, ◌++◌, All,
  any, keep, &&-eq-true_iff, Bool-cases, ==_iff, arith, if◌then◌else◌, ◌==◌,
}
use arx_mdm.Prelude.Sort.{Pairs}
use arx_mdm.Assignments.Tables.{
  Target, device, principal_group, ProfileAssignment, AssignmentState, target_eq, is_assignment,
  find_assignment,
}
use arx_mdm.Assignments.Effective.{set_states}
use arx_mdm.Assignments.Consistent.{AreOtherAssignments}
use arx_mdm.Assignments.View.{unless_id}

pub target_eq_iff : (a b : Target) → (target_eq a b ≡ true) ↔ (a ≡ b)
target_eq_iff (device a) (device b) = ground (arith, ==_iff a b)
target_eq_iff (principal_group a) (principal_group b) = ground (arith, ==_iff a b)
target_eq_iff (device a) (principal_group b) = ground arith
target_eq_iff (principal_group a) (device b) = ground arith

-- A deletion that takes all rows with this key, or none of them.
pub find_assignment-keep :
    (b : Bool) (p : ℕ) (target : Target) (q : ProfileAssignment → Bool)
    (rows : List ProfileAssignment)
    → ((a : ProfileAssignment) → is_assignment p target a ≡ true → q a ≡ b)
    → find_assignment p target (keep q rows) ≡ (if b then find_assignment p target rows else none)
unfolding find_assignment
find_assignment-keep b p target q [] f = ground arith
find_assignment-keep b p target q (a ∷ rows) f =
    ground (arith, f a, find_assignment-keep b p target q rows f)

pub find_assignment-none :
    (p : ℕ) (target : Target) (rows : List ProfileAssignment)
    → All (λ a. is_assignment p target a ≡ false) rows
    → find_assignment p target rows ≡ none
unfolding find_assignment
find_assignment-none p target [] h = refl
find_assignment-none p target (a ∷ rows) h =
    rw (find_assignment, h.0) (find_assignment-none p target rows h.1)

pub find_assignment-some :
    (p : ℕ) (target : Target) (rows : List ProfileAssignment)
    → any (is_assignment p target) rows ≡ true
    → find_assignment p target rows ≢ none
unfolding find_assignment
find_assignment-some p target [] h e = cc
find_assignment-some p target (a ∷ rows) h e = ground (arith, find_assignment-some p target rows)

pub find_assignment-append :
    (p : ℕ) (target : Target) (rows : List ProfileAssignment) (a : ProfileAssignment)
    → find_assignment p target (rows ++ a ∷ []) ≡ (elim (find_assignment p target rows) [
      | some k ↦ some k
      | none ↦ if is_assignment p target a then some a.id else none
    ])
unfolding find_assignment
find_assignment-append p target [] a = refl
find_assignment-append p target (b ∷ rows) a =
    ground (arith, find_assignment-append p target rows a)

same_key :
    (p : ℕ) (target : Target) (a : ProfileAssignment) (rows : List ProfileAssignment)
    → is_assignment p target a ≡ true
    → All (AreOtherAssignments a) rows
    → All (λ b. is_assignment p target b ≡ false) rows
same_key p target a [] e h = tt
same_key p target a (b ∷ rows) e h =
    let (is_p, is_target) = (&&-eq-true_iff _ _).0 e in
    let same : a.target ≡ target = (target_eq_iff a.target target).0 is_target in
    let same_p : a.profile_id ≡ p = (==_iff a.profile_id p).0 is_p in
    (rw (← same, ← same_p) h.0.0, same_key p target a rows e h.1)

-- One assignment has this key, so its deletion leaves none.
pub find_assignment-delete :
    (k p : ℕ) (target : Target) (rows : List ProfileAssignment)
    → Pairs AreOtherAssignments rows
    → find_assignment p target (keep (λ a. not (a.id == k)) rows)
      ≡ unless_id k (find_assignment p target rows)
unfolding find_assignment
find_assignment-delete k p target [] h = refl
find_assignment-delete k p target (a ∷ rows) h =
    let rest = find_assignment-delete k p target rows h.1 in
    elim (Bool-cases (is_assignment p target a)) [
      | inr e ↦ elim (Bool-cases (a.id == k)) [
        | inl f ↦ rw (f, find_assignment, e) rest
        | inr f ↦ rw (f, find_assignment, e) rest
      ]
      | inl e ↦ elim (Bool-cases (a.id == k)) [
        | inr f ↦ rw (f, find_assignment, e) (rw f refl)
        | inl f ↦
            let none_left = find_assignment-none p target rows (same_key p target a rows e h.0) in
            rw (f, find_assignment, e, rest, none_left) (rw f refl)
      ]
    ]

-- States are no part of a key or an id.
pub find_assignment-set_states :
    (p : ℕ) (target : Target) (ids : List ℕ) (state : AssignmentState)
    (rows : List ProfileAssignment)
    → find_assignment p target (set_states ids state rows) ≡ find_assignment p target rows
unfolding find_assignment set_states
find_assignment-set_states p target ids state [] = refl
find_assignment-set_states p target ids state (a ∷ rows) =
    ground (arith, find_assignment-set_states p target ids state rows)

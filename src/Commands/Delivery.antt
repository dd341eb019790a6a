-- ===== src/Commands/Delivery.antt =====
-- What reaches the agent on reconnect, and what a late record of a dispatch does.
use arx_mdm.Prelude.{
  ℕ, zero, suc, ◌≡◌, refl, ap, inl, inr, ◌≤◌, Bool, true, false, ◌&&◌, List, [], ◌∷◌, map, Option,
  none, some, arith, Text, text_eq, if◌then◌else◌, ◌==◌, keep, keep-In, any, take, length,
  length-take-le, All, All-In, All-of_In, In, trim_space, Bool-cases, Option-cases, &&-eq-true_iff,
}
use arx_mdm.Prelude.Result.{ok, Result-cases}
use arx_mdm.Prelude.Sort.{sort_by, sort_by-In, sort_by-length, sort_by-IsSortedBy, IsSortedBy}
use arx_mdm.Commands.Store.{
  Status, pending, sent, completed, failed, status_eq, DeviceCommand, JournalNote, Store, has_id,
  find_command, update_where, belongs_to,
}
use arx_mdm.Commands.Rows.{
  truncate_output, with_status, update_device_command_status, mark_device_command_sent,
  list_pending, finish_device_command, get_device_command, append_incident_journal, note_for,
  add_note,
}
use arx_mdm.Commands.Wire.{flush_loop, flush_pending_device_commands}

-- The row after MarkDeviceCommandSent for one of the sent commands.
abbrev pub as_sent : List DeviceCommand → DeviceCommand → DeviceCommand
as_sent done c = if any (λ d. c.id == d.id) done then record c { status = sent; output = [] } else c

map-as_sent_none : (cs : List DeviceCommand) → map (as_sent []) cs ≡ cs
map-as_sent_none [] = refl
map-as_sent_none (c ∷ cs) = rw (map-as_sent_none cs)

as_sent-cons :
    (k : DeviceCommand) (done : List DeviceCommand) (c : DeviceCommand)
    → as_sent done (if has_id k.id c then record c { status = sent; output = [] } else c)
      ≡ as_sent (k ∷ done) c
as_sent-cons k done c = elim (Bool-cases (c.id == k.id)) [
  | inr e ↦ rw e
  | inl e ↦ elim (Bool-cases (any (λ d. c.id == d.id) done)) [
    | inl f ↦ rw (e, f)
    | inr f ↦ rw (e, f)
  ]
]

map-as_sent-cons :
    (k : DeviceCommand) (done : List DeviceCommand) (cs : List DeviceCommand)
    → map
        (as_sent done)
        (update_where (has_id k.id) (λ c. record c { status = sent; output = [] }) cs)
      ≡ map (as_sent (k ∷ done)) cs
unfolding update_where
map-as_sent-cons k done [] = refl
map-as_sent-cons k done (c ∷ cs) = rw (map-as_sent-cons k done cs, as_sent-cons k done c)

flush_loop-result :
    (delivers : DeviceCommand → Bool) (s : Store) (cs : List DeviceCommand)
    → flush_loop delivers s cs
      ≡ (record s { commands = map (as_sent (keep delivers cs)) s.commands }, keep delivers cs)
unfolding flush_loop mark_device_command_sent update_device_command_status
flush_loop-result delivers s [] = rw (map-as_sent_none s.commands)
flush_loop-result delivers s (c ∷ cs) = elim (Bool-cases (delivers c)) [
  | inl e ↦ rw (
    e,
    flush_loop-result delivers (mark_device_command_sent s c.id) cs,
    map-as_sent-cons c (keep delivers cs) s.commands,
  )
  | inr e ↦ rw (e, flush_loop-result delivers s cs)
]

keep-result :
    (delivers : DeviceCommand → Bool) (s : Store) (serial : Text) (cs : List DeviceCommand)
    → list_pending s serial 25 ≡ ok cs
    → flush_pending_device_commands delivers s serial
      ≡ (record s { commands = map (as_sent (keep delivers cs)) s.commands }, keep delivers cs)
unfolding flush_pending_device_commands
keep-result delivers s serial cs e =
    rw (e, flush_pending_device_commands) (flush_loop-result delivers s cs)

take-In : {A : Type 0} (n : ℕ) (a : A) (xs : List A) → In a (take n xs) → In a xs
take-In zero a xs h = elim h [ ]
take-In (suc n) a [] h = elim h [ ]
take-In (suc n) a (x ∷ xs) (inl h) = inl h
take-In (suc n) a (x ∷ xs) (inr h) = inr (take-In n a xs h)

take-All : {A : Type 0} (P : A → Type 0) (n : ℕ) (xs : List A) → All P xs → All P (take n xs)
take-All P n xs h = All-of_In P (take n xs) (λ a m. All-In P a xs h (take-In n a xs m))

keep-All : {A : Type 0} (P : A → Type 0) (p : A → Bool) (xs : List A) → All P xs → All P (keep p xs)
keep-All P p xs h = All-of_In P (keep p xs) (λ a m. All-In P a xs h ((keep-In p a xs).0 m).0)

module _ {A : Type 0} (key : A → Text) where
  take-IsSortedBy : (n : ℕ) (xs : List A) → IsSortedBy key xs → IsSortedBy key (take n xs)
  take-IsSortedBy zero xs h = tt
  take-IsSortedBy (suc n) [] h = tt
  take-IsSortedBy (suc n) (x ∷ xs) h = (take-All _ n xs h.0, take-IsSortedBy n xs h.1)

  keep-IsSortedBy : (p : A → Bool) (xs : List A) → IsSortedBy key xs → IsSortedBy key (keep p xs)
  keep-IsSortedBy p [] h = tt
  keep-IsSortedBy p (x ∷ xs) h = elim (Bool-cases (p x)) [
    | inl e ↦ rw e (keep-All _ p xs h.0, keep-IsSortedBy p xs h.1)
    | inr e ↦ rw e (keep-IsSortedBy p xs h.1)
  ]

length-keep-le : {A : Type 0} (p : A → Bool) (xs : List A) → length (keep p xs) ≤ length xs
length-keep-le p [] = omega arith
length-keep-le p (x ∷ xs) = ground (arith, length-keep-le p xs)

status_eq_iff : (a b : Status) → status_eq a b ≡ true → a ≡ b
status_eq_iff pending pending h = refl
status_eq_iff sent sent h = refl
status_eq_iff completed completed h = refl
status_eq_iff failed failed h = refl
status_eq_iff pending sent h = cc h
status_eq_iff pending completed h = cc h
status_eq_iff pending failed h = cc h
status_eq_iff sent pending h = cc h
status_eq_iff sent completed h = cc h
status_eq_iff sent failed h = cc h
status_eq_iff completed pending h = cc h
status_eq_iff completed sent h = cc h
status_eq_iff completed failed h = cc h
status_eq_iff failed pending h = cc h
status_eq_iff failed sent h = cc h
status_eq_iff failed completed h = cc h

-- The commands of the certificate's devices that wait.
abbrev pub waiting : Store → Text → List DeviceCommand
waiting s serial = keep (λ c. belongs_to s.assets serial c && status_eq c.status pending) s.commands

abbrev pub age : DeviceCommand → Text
age c = c.created_at ∷ []

list_pending-ok :
    (s : Store) (serial : Text)
    → text_eq (trim_space serial) [] ≡ false
    → list_pending s serial 25 ≡ ok (take 25 (sort_by age (waiting s (trim_space serial))))
unfolding list_pending
list_pending-ok s serial e = rw e

flush-no_serial :
    (delivers : DeviceCommand → Bool) (s : Store) (serial : Text)
    → text_eq (trim_space serial) [] ≡ true
    → flush_pending_device_commands delivers s serial ≡ (s, [])
unfolding flush_pending_device_commands list_pending
flush-no_serial delivers s serial e = rw (flush_pending_device_commands, list_pending, e)

-- What a flush has sent, and the store after it.
abbrev pub IsFlush : (DeviceCommand → Bool) → Store → Text → Store × List DeviceCommand → Type 0
IsFlush delivers s serial r =
    ((c : DeviceCommand)
      → In c r.1
      → In c s.commands
        × (belongs_to s.assets serial c ≡ true)
        × (c.status ≡ pending)
        × (delivers c ≡ true))
    × IsSortedBy age r.1
    × (length r.1 ≤ 25)
    × (r.0 ≡ record s { commands = map (as_sent r.1) s.commands })

-- A reconnect sends commands of the table that belong to the certificate's devices, that wait, and that
-- the hub takes; oldest first and at most 25. In the table exactly the rows with their ids are then at
-- sent, with no output, and the rest of the store is as before.
pub flush_pending_device_commands-sent :
    (delivers : DeviceCommand → Bool) (s : Store) (serial : Text)
    → IsFlush delivers s (trim_space serial) (flush_pending_device_commands delivers s serial)
flush_pending_device_commands-sent delivers s serial =
    elim (Bool-cases (text_eq (trim_space serial) [])) [
      | inl e ↦
          rw (flush-no_serial delivers s serial e)
            (λ c m. elim m [ ], tt, omega arith, rw (map-as_sent_none s.commands))
      | inr e ↦
          let all = sort_by age (waiting s (trim_space serial)) in
          rw (keep-result delivers s serial (take 25 all) (list_pending-ok s serial e)) (
            λ c m.
                let k = (keep-In delivers c (take 25 all)).0 m in
                let w =
                  (keep-In _ c s.commands).0 ((sort_by-In age c _).0 (take-In 25 c all k.0)) in
                let b = (&&-eq-true_iff _ _).0 w.1 in (w.0, b.0, status_eq_iff _ _ b.1, k.1),
            keep-IsSortedBy age delivers (take 25 all)
                (take-IsSortedBy age 25 all (sort_by-IsSortedBy age _)),
            omega (arith, length-keep-le delivers (take 25 all), length-take-le {0} 25 all),
            refl,
          )
    ]

take-all : {A : Type 0} (n : ℕ) (xs : List A) → length xs ≤ n → take n xs ≡ xs
take-all zero [] h = refl
take-all zero (x ∷ xs) h = elim (let e : ⊥ = omega (arith, h) in e) [ ]
take-all (suc n) [] h = refl
take-all (suc n) (x ∷ xs) h = ap (λ t. x ∷ t) (take-all n xs (omega (arith, h)))

-- Where the certificate's serial is not blank and at most 25 of its devices' commands wait, a reconnect
-- sends each of them that the hub takes.
pub flush_pending_device_commands-delivers :
    (delivers : DeviceCommand → Bool) (s : Store) (serial : Text) (c : DeviceCommand)
    → text_eq (trim_space serial) [] ≡ false
    → length (waiting s (trim_space serial)) ≤ 25
    → In c (waiting s (trim_space serial))
    → delivers c ≡ true
    → In c (flush_pending_device_commands delivers s serial).1
flush_pending_device_commands-delivers delivers s serial c e l m d =
    let all = sort_by age (waiting s (trim_space serial)) in
    let cut : take 25 all ≡ all =
      take-all 25 all (omega (arith, l, sort_by-length age (waiting s (trim_space serial)))) in
    rw (keep-result delivers s serial (take 25 all) (list_pending-ok s serial e), cut)
      ((keep-In delivers c all).1 ((sort_by-In age c _).1 m, d))

find_command-update_where :
    (k : ℕ) (change : DeviceCommand → DeviceCommand) (cs : List DeviceCommand) (c : DeviceCommand)
    → ((d : DeviceCommand) → (change d).id ≡ d.id)
    → find_command k cs ≡ some c
    → find_command k (update_where (has_id k) change cs) ≡ some (change c)
unfolding find_command update_where
find_command-update_where k change [] c same h = cc h
find_command-update_where k change (d ∷ ds) c same h =
    grind (arith, same d, find_command-update_where k change ds c same)

add_note-commands : (s : Store) (n : Option JournalNote) → (add_note s n).commands ≡ s.commands
add_note-commands s none = refl
add_note-commands s (some n) = refl

append_incident_journal-commands :
    (s : Store) (k : ℕ) (success : Bool) (output : Text)
    → (append_incident_journal s k success output).commands ≡ s.commands
unfolding append_incident_journal
append_incident_journal-commands s k success output =
    elim (Option-cases (find_command k s.commands)) [
      | inl e ↦ rw (e, append_incident_journal)
      | inr (c, e) ↦
          rw (e, append_incident_journal) (add_note-commands s (note_for c success output))
    ]

finish_device_command-commands :
    (status : Status) (success : Bool) (s : Store) (k : ℕ) (output : Text)
    → (finish_device_command status success s k output).1.commands
      ≡ (update_device_command_status s k status (truncate_output output) true).commands
unfolding finish_device_command
finish_device_command-commands status success s k output =
    let s' = update_device_command_status s k status (truncate_output output) true in
    elim (Result-cases (get_device_command s' k)) [
      | inl (c, e) ↦
          rw (e, finish_device_command) (append_incident_journal-commands s' c.id success c.output)
      | inr (x, e) ↦ rw (e, finish_device_command)
    ]

-- A finished command's row.
finish_device_command-find :
    (status : Status) (success : Bool) (s : Store) (k : ℕ) (output : Text) (c : DeviceCommand)
    → find_command k s.commands ≡ some c
    → find_command k (finish_device_command status success s k output).1.commands
      ≡ some (with_status s.now status (truncate_output output) true c)
unfolding update_device_command_status
finish_device_command-find status success s k output c h =
    let s' = update_device_command_status s k status (truncate_output output) true in
    let found : find_command k s'.commands
        ≡ some (with_status s.now status (truncate_output output) true c) =
      find_command-update_where k _ s.commands c (λ d. refl) h in
    rw (finish_device_command-commands status success s k output) found

-- A command that was finished is back at sent, its output gone and its completion time kept,
-- when the record of its dispatch arrives after the report.
pub finish_device_command-mark_sent :
    (status : Status) (success : Bool) (s : Store) (k : ℕ) (output : Text) (c : DeviceCommand)
    → find_command k s.commands ≡ some c
    → find_command k
        (mark_device_command_sent (finish_device_command status success s k output).1 k).commands
      ≡ some (record c { status = sent; output = []; completed_at = some s.now })
unfolding mark_device_command_sent update_device_command_status
finish_device_command-mark_sent status success s k output c h =
    find_command-update_where k _ _ _ (λ d. refl)
      (finish_device_command-find status success s k output c h)

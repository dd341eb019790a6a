-- ===== src/Commands/Invariant.antt =====
-- What holds of every row, whatever handlers have run.
use arx_mdm.Prelude.{
  ℕ, suc, ◌+◌, ◌≡◌, ◌≢◌, refl, ◌≤◌, ◌<◌, inl, inr, Bool, true, false, List, [], ◌∷◌, ◌++◌, Option,
  none, some, arith, Text, if◌then◌else◌, All, All-append, any, leb, trim_space, to_lower, length,
  take, length-take-le, length-append, Option-cases, Bool-cases,
}
use arx_mdm.Prelude.Result.{Result-cases}
use arx_mdm.Commands.Store.{
  Status, pending, sent, completed, failed, DeviceCommand, JournalNote, Store, has_id, find_command,
  update_where,
}
use arx_mdm.Commands.Cases.{apply_device_command_outcome_cases, flush_cases}
use arx_mdm.Commands.Wire.{
  Call, create, mark_sent, give_up, give_up_pending, report, reconnect, step, run,
}
use arx_mdm.Commands.Rows.{
  truncate_output, max_device_command_output_len, insert_device_command, check_command,
  truncation_mark, with_status, update_device_command_status, mark_device_command_sent,
  get_device_command, append_incident_journal, finish_device_command,
  fail_device_command_if_pending, is_pending, complete_device_command, fail_device_command,
  note_for, add_note,
}

abbrev pub is_terminal : Status → Bool
is_terminal completed = true
is_terminal failed = true
is_terminal _ = false

-- A row: its id was given out, a finished command has a completion time, a pending one has neither
-- completion time nor output, and the output stays within its limit.
pub record IsRow (bound : ℕ) (c : DeviceCommand) : Type 0 where
  pub known : c.id < bound
  pub finished : is_terminal c.status ≡ true → c.completed_at ≢ none
  pub fresh : c.status ≡ pending → c.completed_at ≡ none
  pub silent : c.status ≡ pending → c.output ≡ []
  pub limited : length c.output ≤ max_device_command_output_len + 22

abbrev pub IsValid : Store → Type 0
IsValid s = All (IsRow s.next_id) s.commands

length-cut : (n : ℕ) (t mark : Text) → length (take n t ++ mark) ≤ n + length mark
length-cut n t mark = omega (arith, length-append {0} (take n t) mark, length-take-le {0} n t)

length-truncate_output :
    (t : Text) → length (truncate_output t) ≤ max_device_command_output_len + 22
unfolding truncate_output
length-truncate_output t = elim (Bool-cases (leb (length t) max_device_command_output_len)) [
  | inl e ↦ rw e (short t e)
  | inr e ↦ rw e (length-cut max_device_command_output_len t truncation_mark)
]
  where
    short :
        (t : Text)
        → leb (length t) max_device_command_output_len ≡ true
        → length t ≤ max_device_command_output_len + 22
    short t h = ground arith

update_where-IsRow :
    (b : ℕ) (test : DeviceCommand → Bool) (change : DeviceCommand → DeviceCommand)
    (cs : List DeviceCommand)
    → ((c : DeviceCommand) → IsRow b c → IsRow b (change c))
    → All (IsRow b) cs
    → All (IsRow b) (update_where test change cs)
unfolding update_where
update_where-IsRow b test change [] h rows = tt
update_where-IsRow b test change (c ∷ cs) h rows =
    (pick (test c), update_where-IsRow b test change cs h rows.1)
  where
    pick : (t : Bool) → IsRow b (if t then change c else c)
    pick true = h c rows.0
    pick false = rows.0

add_note-IsValid : (s : Store) (n : Option JournalNote) → IsValid s → IsValid (add_note s n)
add_note-IsValid s none v = v
add_note-IsValid s (some n) v = v

-- A terminal status stamps the completion time.
finish-IsRow :
    (b now : ℕ) (status : Status) (output : Text) (c : DeviceCommand)
    → is_terminal status ≡ true
    → length output ≤ max_device_command_output_len + 22
    → IsRow b c
    → IsRow b (with_status now status output true c)
finish-IsRow b now status output c t l r = record {
  known = r.known;
  finished = λ h e. cc e;
  fresh = λ h. cc (t, h);
  silent = λ h. cc (t, h);
  limited = l;
}

sent-IsRow :
    (b : ℕ) (c : DeviceCommand) → IsRow b c → IsRow b (record c { status = sent; output = [] })
sent-IsRow b c r = record {
  known = r.known;
  finished = λ h. cc h;
  fresh = λ h. cc h;
  silent = λ h. refl;
  limited = omega arith;
}

IsRow-mono : (b : ℕ) (cs : List DeviceCommand) → All (IsRow b) cs → All (IsRow (suc b)) cs
IsRow-mono b [] h = tt
IsRow-mono b (c ∷ cs) h = (
  record {
    known = omega (arith, h.0.known);
    finished = h.0.finished;
    fresh = h.0.fresh;
    silent = h.0.silent;
    limited = h.0.limited;
  },
  IsRow-mono b cs h.1,
)

insert_device_command-IsValid :
    (readable : Text → Bool) (s : Store) (device : ℕ) (kind payload : Text) (incident : Option ℕ)
    → IsValid s
    → IsValid (insert_device_command readable s device kind payload incident).1
unfolding insert_device_command
insert_device_command-IsValid readable s device kind payload incident v =
    elim (Option-cases (check_command readable (trim_space (to_lower kind)) (trim_space payload))) [
      | inl e ↦
          rw (e, insert_device_command)
            (All-append (IsRow (suc s.next_id)) s.commands _ (IsRow-mono s.next_id s.commands v) (
              record {
                known = omega arith;
                finished = λ h. cc h;
                fresh = λ h. refl;
                silent = λ h. refl;
                limited = omega arith;
              },
              tt,
            ))
      | inr (x, e) ↦ rw (e, insert_device_command) v
    ]

update-IsValid :
    (s : Store) (k : ℕ) (status : Status) (output : Text)
    → is_terminal status ≡ true
    → length output ≤ max_device_command_output_len + 22
    → IsValid s
    → IsValid (update_device_command_status s k status output true)
unfolding update_device_command_status
update-IsValid s k status output t l v =
    update_where-IsRow s.next_id (has_id k) _ s.commands
      (λ c r. finish-IsRow s.next_id s.now status output c t l r) v

mark_device_command_sent-IsValid :
    (s : Store) (k : ℕ) → IsValid s → IsValid (mark_device_command_sent s k)
unfolding mark_device_command_sent
mark_device_command_sent-IsValid s k v =
    update_where-IsRow s.next_id (has_id k) _ s.commands (sent-IsRow s.next_id) v

append_incident_journal-IsValid :
    (s : Store) (k : ℕ) (success : Bool) (output : Text)
    → IsValid s
    → IsValid (append_incident_journal s k success output)
unfolding append_incident_journal
append_incident_journal-IsValid s k success output v =
    elim (Option-cases (find_command k s.commands)) [
      | inl e ↦ rw (e, append_incident_journal) v
      | inr (c, e) ↦
          rw (e, append_incident_journal) (add_note-IsValid s (note_for c success output) v)
    ]

finish_device_command-IsValid :
    (status : Status) (success : Bool) (s : Store) (k : ℕ) (output : Text)
    → is_terminal status ≡ true
    → IsValid s
    → IsValid (finish_device_command status success s k output).1
unfolding finish_device_command
finish_device_command-IsValid status success s k output t v =
    let s' = update_device_command_status s k status (truncate_output output) true in
    let v' =
      update-IsValid s k status (truncate_output output) t (length-truncate_output output) v in
    elim (Result-cases (get_device_command s' k)) [
      | inl (c, e) ↦
          rw (e, finish_device_command)
            (append_incident_journal-IsValid s' c.id success c.output v')
      | inr (x, e) ↦ rw (e, finish_device_command) v'
    ]

fail_device_command_if_pending-IsValid :
    (s : Store) (k : ℕ) (message : Text)
    → IsValid s
    → IsValid (fail_device_command_if_pending s k message).1
unfolding fail_device_command_if_pending
fail_device_command_if_pending-IsValid s k message v =
    let v' =
      update_where-IsRow s.next_id (is_pending k) _ s.commands
        (λ c r.
          finish-IsRow s.next_id s.now failed (truncate_output message) c refl
            (length-truncate_output message) r)
        v in
    elim (Bool-cases (any (is_pending k) s.commands)) [
      | inl e ↦ rw e (append_incident_journal-IsValid _ k false (truncate_output message) v')
      | inr e ↦ rw e v'
    ]

-- Every call keeps every row well formed.
pub step-IsValid :
    (readable : Text → Bool) (s : Store) (c : Call) → IsValid s → IsValid (step readable s c)
unfolding step
step-IsValid readable s (create device kind payload incident) v =
    insert_device_command-IsValid readable s device kind payload incident v
step-IsValid readable s (mark_sent k) v = mark_device_command_sent-IsValid s k v
step-IsValid readable s (give_up k message) v =
    unfold fail_device_command in finish_device_command-IsValid failed false s k message refl v
step-IsValid readable s (give_up_pending k message) v =
    fail_device_command_if_pending-IsValid s k message v
step-IsValid readable s (report serial probe) v =
    apply_device_command_outcome_cases IsValid s v serial probe
      (λ k output _.
        unfold complete_device_command in
        finish_device_command-IsValid completed true s k output refl v)
      (λ k output _.
        unfold fail_device_command in finish_device_command-IsValid failed false s k output refl v)
step-IsValid readable s (reconnect delivers serial) v =
    flush_cases IsValid delivers s serial mark_device_command_sent-IsValid v

-- After any history of calls, from tables whose rows are well formed, every row is well formed:
-- its id was given out, a finished command has a completion time, a pending one has neither a
-- completion time nor output, and the output is at most 22 bytes longer than the limit for
-- outputs.
pub run-IsValid :
    (readable : Text → Bool) (s : Store) (cs : List (ℕ × Call))
    → IsValid s
    → IsValid (run readable s cs)
unfolding run
run-IsValid readable s [] v = v
run-IsValid readable s ((time, c) ∷ cs) v =
    run-IsValid readable (step readable (record s { now = s.now + time }) c) cs
      (step-IsValid readable (record s { now = s.now + time }) c v)

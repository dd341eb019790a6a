-- ===== src/Transfer/Writing.antt =====
-- An upload that the device takes writes the request's body to the file.
use arx_mdm.Prelude.{
  ℕ, zero, suc, ◌+◌, ◌-◌, ◌≤◌, ◌≡◌, refl, sym, subst, ap, ◌∙◌, Bool, true, false, Option, none,
  some, List, [], ◌∷◌, ◌++◌, Text, text_eq, text_eq_refl, text_eq→eq, length, length-append, take,
  drop, ltb, trim_space, inl, inr, Bool-cases, arith,
}
use mathlib.Core.List.{append_assoc, append-nil}
use arx_mdm.Transfer.Download.{ReadError, no_error, end_of_file, read_failed, Read}
use arx_mdm.Transfer.Relay.{GoesOn, IsReadOf}
use arx_mdm.Transfer.Upload.{
  Device, find_session, put_written, delete_session_of, zeros, write_at, set_file, bytes_at, begin,
  upload_chunk, finish, Command, upload_begin, chunk_b64, handle_command, handle_commands,
  abort_unless, first_reply,
}
use arx_mdm.Transfer.Push.{
  Ending, all_sent, after_read, before, push_loop, status_of, handle_upload,
}

write_at_end : (got more : Text) → write_at (length got) more got ≡ got ++ more
write_at_end got more =
    rw
      (
        take_all got,
        no_gap,
        drop_all got (length got + length more) (omega arith),
        append-nil got,
        append-nil (got ++ more),
      )
      refl
  where
    sub_self : (n : ℕ) → n - n ≡ 0
    sub_self n = omega arith

    take_all : (t : Text) → take (length t) t ≡ t
    take_all [] = refl
    take_all (x ∷ t) = ap (λ u. x ∷ u) (take_all t)

    drop_all : (t : Text) (n : ℕ) → length t ≤ n → drop n t ≡ []
    drop_all [] zero le = refl
    drop_all [] (suc n) le = refl
    drop_all (x ∷ t) zero le = ground arith
    drop_all (x ∷ t) (suc n) le = drop_all t n (omega arith)

    no_gap : zeros (length got - length got) ≡ []
    no_gap = ap zeros (sub_self (length got))

-- A device whose newest session has written a text so far, over another device.
abbrev IsWriting : Device → Text → Text → Text → Device → Type 0
IsWriting old rid path got d =
    (d.sessions ≡ record { request_id = rid; path = path; written = length got } ∷ old.sessions)
    × ((q : Text) → d.disk q ≡ set_file path got old.disk q)

-- A device with a file written, and the sessions of another one.
abbrev pub HasWritten : Device → Text → Text → Device → Type 0
HasWritten old path body d =
    (d.sessions ≡ old.sessions) × ((q : Text) → d.disk q ≡ set_file path body old.disk q)

module _ (opens : Text → Bool) (encode : Text → Text) (decode : Text → Option Text)
    (decode-encode : (t : Text) → decode (encode t) ≡ some t) (rid path : Text)
    (trimmed : trim_space rid ≡ rid) (old : Device) where
  -- What a list of commands does to a device that is writing.
  abbrev Finishes : Text → List Command × Ending → Device → Type 0
  Finishes body r d =
      (r.1 ≡ all_sent)
      × ((handle_commands opens decode r.0 d).0 ≡ some true)
      × HasWritten old path body (handle_commands opens decode r.0 d).1

  found :
      (got : Text) (d : Device)
      → d.sessions ≡ record { request_id = rid; path = path; written = length got } ∷ old.sessions
      → find_session rid d.sessions
        ≡ some (record { request_id = rid; path = path; written = length got })
  unfolding find_session
  found got d s = rw (s, find_session, text_eq_refl rid) refl

  after_read-Finishes :
      (got rest : Text) (e : ReadError) (later : List Command × Ending) (Later : Type 0)
      (d : Device)
      → (Later → Finishes (got ++ rest) later d)
      → GoesOn Later rest e
      → IsWriting old rid path got d
      → Finishes (got ++ rest) (after_read rid e later) d
  unfolding handle_commands handle_command finish find_session delete_session_of
  after_read-Finishes got rest no_error later Later d f go w = f go
  after_read-Finishes got rest (read_failed e) later Later d f go w = absurd go
  after_read-Finishes got rest end_of_file later Later d f go (s, files) = (
    refl,
    rw (trimmed, found got d s) refl,
    (
      rw (trimmed, s, text_eq_refl rid) refl,
      λ q.
          files q
          ∙ ap (λ x. set_file path x old.disk q) (sym (ap (λ x. got ++ x) go ∙ append-nil got)),
    ),
  )

  upload_chunk-IsWriting :
      (got more : Text) (d : Device)
      → length got + length more ≤ 536870912
      → IsWriting old rid path got d
      → ((upload_chunk rid more d).0 ≡ true)
        × IsWriting old rid path (got ++ more) (upload_chunk rid more d).1
  unfolding upload_chunk find_session put_written
  upload_chunk-IsWriting got more d le (s, files) =
      rw (upload_chunk, found got d s)
        (
          ground (arith, le),
          (rw (s, put_written, text_eq_refl rid, length-append got more) refl, λ q. same q),
        )
    where
      here : bytes_at (d.disk path) ≡ got
      here = rw (files path, text_eq_refl path) refl

      same :
          (q : Text)
          → set_file path (write_at (length got) more (bytes_at (d.disk path))) d.disk q
            ≡ set_file path (got ++ more) old.disk q
      same q = elim (Bool-cases (text_eq q path)) [
        | inl e ↦ rw (e, here) (ap some (write_at_end got more))
        | inr e ↦ rw e (files q ∙ rw e refl)
      ]

  before-Finishes :
      (got more body : Text) (r : List Command × Ending) (d : Device)
      → length got + length more ≤ 536870912
      → IsWriting old rid path got d
      → ((d' : Device) → IsWriting old rid path (got ++ more) d' → Finishes body r d')
      → Finishes body (before (chunk_b64 rid (encode more)) r) d
  unfolding handle_commands handle_command
  before-Finishes got more body r d le w f =
      let (taken, writing) = upload_chunk-IsWriting got more d le w in
      let (a, b, c) = f (upload_chunk rid more d).1 writing in
      (
        a,
        subst (λ z. (first_reply z.0 (handle_commands opens decode r.0 z.1).0 ≡ some true))
            (sym (now taken)) b,
        subst (λ z. HasWritten old path body (handle_commands opens decode r.0 z.1).1)
            (sym (now taken)) c,
      )
    where
      now :
          (upload_chunk rid more d).0 ≡ true
          → handle_command opens decode (chunk_b64 rid (encode more)) d
            ≡ (none, (upload_chunk rid more d).1)
      now taken =
          rw (handle_command, decode-encode more, trimmed) (kept (upload_chunk rid more d) taken)
        where
          kept : (p : Bool × Device) → p.0 ≡ true → abort_unless rid p ≡ (none, p.1)
          kept (true, d') e = refl
          kept (false, d') e = cc

  push_loop-Finishes :
      (size : ℕ) (rs : List Read) (n : ℕ) (got rest body : Text) (d : Device)
      → n ≡ length got
      → body ≡ got ++ rest
      → IsReadOf size rest rs
      → length got + length rest ≤ 536870912
      → IsWriting old rid path got d
      → Finishes body (push_loop encode rid n rs) d
  unfolding push_loop
  push_loop-Finishes size [] n got rest body d count whole h le w = absurd h
  push_loop-Finishes size (r ∷ rs) n got rest body d count whole (left, parts, _, go) le w =
      elim (Bool-cases (text_eq r.data_read [])) [
        | inl e ↦
            let none_read : r.data_read ≡ [] = text_eq→eq r.data_read [] e in
            let same : rest ≡ left = parts ∙ ap (λ x. x ++ left) none_read in
            subst (λ z. Finishes body z d) (sym (idle e))
              (subst (λ b. Finishes b (after_read rid r.read_err later) d)
                (sym (whole ∙ ap (λ x. got ++ x) same))
                (after_read-Finishes got left r.read_err later (IsReadOf size left rs) d
                  (λ h.
                    push_loop-Finishes size rs (n + length r.data_read) got left (got ++ left) d
                      (rw none_read (omega (arith, count))) refl h
                      (subst (λ x. length got + length x ≤ 536870912) same le) w)
                  go w))
        | inr e ↦
            subst (λ z. Finishes body z d) (sym (busy e))
              (before-Finishes got r.data_read body (after_read rid r.read_err later) d
                (omega (arith, total, le)) w
                (λ d' w'.
                  subst (λ b. Finishes b (after_read rid r.read_err later) d')
                    (append_assoc got r.data_read left ∙ ap (λ x. got ++ x) (sym parts) ∙ sym whole)
                    (after_read-Finishes (got ++ r.data_read) left r.read_err later
                      (IsReadOf size left rs) d'
                      (λ h.
                        push_loop-Finishes size rs (n + length r.data_read) (got ++ r.data_read)
                          left ((got ++ r.data_read) ++ left) d'
                          (omega (arith, count, length-append got r.data_read)) refl h
                          (omega (arith, total, le, length-append got r.data_read)) w')
                      go w')))
      ]
    where
      later : List Command × Ending
      later = push_loop encode rid (n + length r.data_read) rs

      total : length rest ≡ length r.data_read + length left
      total = ap length parts ∙ length-append r.data_read left

      idle :
          text_eq r.data_read [] ≡ true
          → push_loop encode rid n (r ∷ rs) ≡ after_read rid r.read_err later
      idle e = rw (push_loop, e) refl

      room : ltb (536870912 - n) (length r.data_read) ≡ false
      room = ground (arith, total, le, count)

      busy :
          text_eq r.data_read [] ≡ false
          → push_loop encode rid n (r ∷ rs)
            ≡ before (chunk_b64 rid (encode r.data_read)) (after_read rid r.read_err later)
      busy e = rw (push_loop, e, room) refl

  -- An upload of at most 512 MiB, under a request id that the device has no session for, to a path that it can
  -- open: it is answered 200, the file then holds the request's body, and nothing else on the device changes.
  pub handle_upload-HasWritten :
      (size : ℕ) (rs : List Read) (body : Text)
      → IsReadOf size body rs
      → length body ≤ 536870912
      → trim_space path ≡ path
      → text_eq rid [] ≡ false
      → text_eq path [] ≡ false
      → find_session rid old.sessions ≡ none
      → opens path ≡ true
      → ((handle_upload opens encode decode rid path rs old).0 ≡ 200)
        × HasWritten old path body (handle_upload opens encode decode rid path rs old).1
  unfolding handle_upload handle_commands handle_command begin
  handle_upload-HasWritten size rs body h le trimmed_path a b none_yet opened =
      let (x, y, z) =
        push_loop-Finishes size rs 0 [] body body started refl refl h (omega (arith, le))
          (refl, λ q. refl) in
      subst
        (λ p.
          (status_of (push_loop encode rid 0 rs).1
              (first_reply p.0 (handle_commands opens decode (push_loop encode rid 0 rs).0 p.1).0)
            ≡ 200)
          × HasWritten old path body
              (handle_commands opens decode (push_loop encode rid 0 rs).0 p.1).1)
        (sym begun) (rw (x, y) refl, z)
    where
      started : Device
      started = record {
        sessions = record { request_id = rid; path = path; written = 0 } ∷ old.sessions;
        disk = set_file path [] old.disk;
      }

      begun : handle_command opens decode (upload_begin rid path) old ≡ (none, started)
      begun = rw (handle_command, trimmed, trimmed_path, a, b, begin, none_yet, opened) refl

-- ===== src/Transfer/Relay.antt =====
-- What of a file reaches the answer of the download.
use arx_mdm.Prelude.{
  ℕ, ◌≤◌, ◌<◌, ◌≡◌, refl, sym, subst, ap, ◌∙◌, inl, inr, true, false, not, List, [], ◌∷◌, ◌++◌, map,
  Text, text_eq, length, All, ltb, if◌then◌else◌, Bool-cases, arith,
}
use mathlib.Core.List.{append_assoc, append-nil}
use arx_mdm.Transfer.Download.{
  ReadError, no_error, end_of_file, read_failed, Read, is_eof, chunk_size_for, Message, chunk,
  after_empty, download_loop, C2FileChunk, chunk_of, Relay, try_send, write_chunk, take_chunk,
  read_step, Event, arrive, read, relay_step, relay, fresh,
}

-- The reads of a file through a buffer, as os.File gives them: its bytes in order, up to its end.
abbrev pub GoesOn : Type 0 → Text → ReadError → Type 0
GoesOn Later rest no_error = Later
GoesOn Later rest end_of_file = rest ≡ []
GoesOn Later rest (read_failed _) = ⊥

abbrev pub IsReadOf : ℕ → Text → List Read → Type 0
IsReadOf size content [] = ⊥
IsReadOf size content (r ∷ rs) =
    (rest : Text) × (content ≡ r.data_read ++ rest)
    × (length r.data_read ≤ size)
    × GoesOn (IsReadOf size rest rs) rest r.read_err

-- Pieces that make a text up, of which the last and no other says that it is the end.
abbrev pub IsStream : Text → List C2FileChunk → Type 0
IsStream content [] = ⊥
IsStream content (c ∷ cs) =
    (c.err_text ≡ [])
    × (rest : Text) × (content ≡ c.content ++ rest)
    × (if c.eof then (rest ≡ []) × (cs ≡ []) else IsStream rest cs)

abbrev pub IsWithin : ℕ → Message → Type 0
IsWithin size m = length (chunk_of m).content ≤ size

unfoldable pub sent : List Message → List C2FileChunk
unfolding chunk_of
sent ms = map chunk_of ms

-- One round of the loop, with what the later rounds send.
round-IsStream :
    (content rest d : Text) (e : ReadError) (later : List Message) (Later : Type 0)
    → (Later → IsStream rest (sent later))
    → content ≡ d ++ rest
    → GoesOn Later rest e
    → IsStream content (
        sent (
          if not (text_eq d [])
          then chunk d (is_eof e) ∷ (if is_eof e then [] else later)
          else after_empty e later))
unfolding sent text_eq
round-IsStream content rest [] no_error later Later f same go = rw same (f go)
round-IsStream content rest [] end_of_file later Later f same go =
    (refl, [], same ∙ go, (refl, refl))
round-IsStream content rest [] (read_failed e) later Later f same go = absurd go
round-IsStream content rest (b ∷ bs) no_error later Later f same go = (refl, rest, same, f go)
round-IsStream content rest (b ∷ bs) end_of_file later Later f same go =
    (refl, rest, same, (go, refl))
round-IsStream content rest (b ∷ bs) (read_failed e) later Later f same go = absurd go

-- The device sends the file as a stream.
pub download_loop-IsStream :
    (size : ℕ) (content : Text) (rs : List Read)
    → IsReadOf size content rs
    → IsStream content (sent (download_loop rs))
unfolding download_loop
download_loop-IsStream size content [] h = absurd h
download_loop-IsStream size content (r ∷ rs) (rest, same, le, go) =
    round-IsStream content rest r.data_read r.read_err (download_loop rs) (IsReadOf size rest rs)
      (download_loop-IsStream size rest rs) same go

round-IsWithin :
    (size : ℕ) (rest d : Text) (e : ReadError) (later : List Message) (Later : Type 0)
    → (Later → All (IsWithin size) later)
    → length d ≤ size
    → GoesOn Later rest e
    → All (IsWithin size) (
        if not (text_eq d [])
        then chunk d (is_eof e) ∷ (if is_eof e then [] else later)
        else after_empty e later)
unfolding chunk_of text_eq
round-IsWithin size rest [] no_error later Later f le go = f go
round-IsWithin size rest [] end_of_file later Later f le go = (le, tt)
round-IsWithin size rest [] (read_failed e) later Later f le go = absurd go
round-IsWithin size rest (b ∷ bs) no_error later Later f le go = (le, f go)
round-IsWithin size rest (b ∷ bs) end_of_file later Later f le go = (le, tt)
round-IsWithin size rest (b ∷ bs) (read_failed e) later Later f le go = absurd go

download_loop-IsWithin :
    (size : ℕ) (content : Text) (rs : List Read)
    → IsReadOf size content rs
    → All (IsWithin size) (download_loop rs)
unfolding download_loop
download_loop-IsWithin size content [] h = absurd h
download_loop-IsWithin size content (r ∷ rs) (rest, same, le, go) =
    round-IsWithin size rest r.data_read r.read_err (download_loop rs) (IsReadOf size rest rs)
      (download_loop-IsWithin size rest rs) le go

-- Whatever size is asked for, a file that is read to its end goes out in pieces of 1 MiB at most, which make it
-- up in order; only the last says that it is the end.
pub download_loop-chunk_size_for :
    (asked : ℕ) (content : Text) (rs : List Read)
    → IsReadOf (chunk_size_for asked) content rs
    → IsStream content (sent (download_loop rs))
      × All (IsWithin 1048576) (download_loop rs)
      × (1 ≤ chunk_size_for asked)
unfolding chunk_size_for
download_loop-chunk_size_for asked content rs h = (
  download_loop-IsStream (chunk_size_for asked) content rs h,
  within (chunk_size_for asked) (ground arith) (download_loop rs)
      (download_loop-IsWithin (chunk_size_for asked) content rs h),
  ground arith,
)
  where
    within :
        (size : ℕ)
        → size ≤ 1048576
        → (ms : List Message) → All (IsWithin size) ms
        → All (IsWithin 1048576) ms
    within size le [] h = tt
    within size le (m ∷ ms) h = (omega (arith, h.0, le), within size le ms h.1)

-- What arrives in a run, in order.
abbrev pub arriving : List Event → List C2FileChunk
arriving [] = []
arriving (arrive m ∷ es) = chunk_of m ∷ arriving es
arriving (read ∷ es) = arriving es

-- Whenever a chunk arrives the queue has room.
abbrev pub HasRoom : Relay → List Event → Type 0
HasRoom s [] = Unit
HasRoom s (arrive m ∷ es) = (length s.queue < 8) × HasRoom (relay_step s (arrive m)) es
HasRoom s (read ∷ es) = HasRoom (relay_step s read) es

-- An answer that is ended stays as it is.
relay_ended :
    (s : Relay) (es : List Event)
    → s.ended ≡ true
    → ((relay s es).ended ≡ true) × ((relay s es).body ≡ s.body)
unfolding relay relay_step try_send read_step
relay_ended s [] h = (h, refl)
relay_ended s (arrive m ∷ es) h = elim (Bool-cases (ltb (length s.queue) 8)) [
  | inl e ↦
      rw (relay, relay_step, try_send, e)
        (relay_ended (record s { queue = s.queue ++ chunk_of m ∷ [] }) es h)
  | inr e ↦ rw (relay, relay_step, try_send, e) (relay_ended s es h)
]
relay_ended s (read ∷ es) h =
    subst (λ z. ((relay z es).ended ≡ true) × ((relay z es).body ≡ s.body)) (sym still)
      (relay_ended s es h)
  where
    still : read_step s ≡ s
    still = ground arith

sent_queue :
    (c : C2FileChunk) (s : Relay)
    → length s.queue < 8
    → try_send c s ≡ (record s { queue = s.queue ++ c ∷ [] })
unfolding try_send
sent_queue c s room = ground arith

-- From a state on, the events bring a text whole into the body, and the answer ends.
abbrev Brings : List Event → Relay → Text → Type 0
Brings es s rest = ((relay s es).ended ≡ true) × ((relay s es).body ≡ s.body ++ rest)

-- That they do so where nothing finds the queue full and nothing is left in it.
abbrev IsBrought : List Event → Relay → Type 0
IsBrought es s =
    (rest : Text)
    → s.ended ≡ false
    → IsStream rest (s.queue ++ arriving es)
    → HasRoom s es
    → (relay s es).queue ≡ []
    → Brings es s rest

written :
    (c : C2FileChunk) (cs : List C2FileChunk) (s : Relay)
    → c.err_text ≡ []
    → write_chunk c cs s ≡ (record { queue = cs; body = s.body ++ c.content; ended = c.eof })
unfolding text_eq
written c cs s e = rw e refl

module _ (es : List Event) (later : (s : Relay) → IsBrought es s) where
  taken-Brings :
      (q : List C2FileChunk) (s : Relay) (rest : Text)
      → s.queue ≡ q
      → s.ended ≡ false
      → IsStream rest (q ++ arriving es)
      → HasRoom (take_chunk q s) es
      → (relay (take_chunk q s) es).queue ≡ []
      → ((relay (take_chunk q s) es).ended ≡ true)
        × ((relay (take_chunk q s) es).body ≡ s.body ++ rest)
  taken-Brings [] s rest same going stream room empty =
      later s rest going (subst (λ q. IsStream rest (q ++ arriving es)) (sym same) stream) room
        empty
  taken-Brings (c ∷ cs) s rest same going (clean, rest', parts, tail) room empty =
      let now = written c cs s clean in
      let next : Relay = record { queue = cs; body = s.body ++ c.content; ended = c.eof } in
      subst (λ z. ((relay z es).ended ≡ true) × ((relay z es).body ≡ s.body ++ rest)) (sym now)
        (elim (Bool-cases c.eof) [
          | inl e ↦ last e (relay_ended next es e) (rw e at tail)
          | inr e ↦
              let (f, g) =
                later next rest' e (rw e at tail) (subst (λ z. HasRoom z es) now room)
                  (subst (λ z. (relay z es).queue ≡ []) now empty) in
              (f, g ∙ append_assoc s.body c.content rest' ∙ ap (λ x. s.body ++ x) (sym parts))
        ])
    where
      last :
          c.eof ≡ true
          → ((relay (record { queue = cs; body = s.body ++ c.content; ended = c.eof }) es).ended
              ≡ true)
            × ((relay (record { queue = cs; body = s.body ++ c.content; ended = c.eof }) es).body
                ≡ s.body ++ c.content)
          → (rest' ≡ []) × (cs ++ arriving es ≡ [])
          → ((relay (record { queue = cs; body = s.body ++ c.content; ended = c.eof }) es).ended
              ≡ true)
            × ((relay (record { queue = cs; body = s.body ++ c.content; ended = c.eof }) es).body
                ≡ s.body ++ rest)
      last e (f, g) (none_left, _) = (
        f,
        g
            ∙ ap (λ x. s.body ++ x)
                (sym (parts ∙ ap (λ x. c.content ++ x) none_left ∙ append-nil c.content)),
      )

-- A stream whose chunks find room, and are all taken, is the answer's body, and the answer ends.
relay-IsBrought : (es : List Event) (s : Relay) → IsBrought es s
unfolding relay relay_step read_step
relay-IsBrought [] s rest going stream room empty =
    absurd (subst (λ q. IsStream rest (q ++ [])) empty stream)
relay-IsBrought (arrive m ∷ es) s rest going stream room empty =
    let same = sent_queue (chunk_of m) s room.0 in
    let stream' =
      subst (IsStream rest) (sym (append_assoc s.queue (chunk_of m ∷ []) (arriving es))) stream in
    let room' = subst (λ z. HasRoom z es) same room.1 in
    let empty' = subst (λ z. (relay z es).queue ≡ []) same empty in
    subst (λ z. ((relay z es).ended ≡ true) × ((relay z es).body ≡ s.body ++ rest)) (sym same)
      (relay-IsBrought es (record s { queue = s.queue ++ chunk_of m ∷ [] }) rest going stream' room'
        empty')
relay-IsBrought (read ∷ es) s rest going stream room empty =
    subst (λ z. ((relay z es).ended ≡ true) × ((relay z es).body ≡ s.body ++ rest)) (sym open_still)
      (taken-Brings es (relay-IsBrought es) s.queue s rest refl going stream
        (subst (λ z. HasRoom z es) open_still room)
        (subst (λ z. (relay z es).queue ≡ []) open_still empty))
  where
    open_still : read_step s ≡ take_chunk s.queue s
    open_still = ground arith

-- Where the handler takes the chunks fast enough for the queue to have room whenever one arrives, and has taken
-- all of them in the end, the answer to a download ends, and its body is the file.
pub relay-download_loop :
    (size : ℕ) (content : Text) (rs : List Read) (es : List Event)
    → IsReadOf size content rs
    → arriving es ≡ sent (download_loop rs)
    → HasRoom fresh es
    → (relay fresh es).queue ≡ []
    → ((relay fresh es).ended ≡ true) × ((relay fresh es).body ≡ content)
relay-download_loop size content rs es h same room empty =
    relay-IsBrought es fresh content refl
      (subst (IsStream content) (sym same) (download_loop-IsStream size content rs h)) room empty

-- ===== src/Transfer/Loss.antt =====
-- What a full queue does to a download.
use arx_mdm.Prelude.{
  ℕ, zero, suc, ◌+◌, ◌≤◌, ◌<◌, ◌≡◌, refl, sym, subst, ap, ◌∙◌, inl, inr, true, false, List, [], ◌∷◌,
  ◌++◌, map, Text, text_eq, length, length-append, All, All-append, ltb, Bool-cases, arith,
}
use arx_mdm.Transfer.Download.{
  Read, Message, download_loop, C2FileChunk, chunk_of, Relay, try_send, write_chunk, read_step,
  Event, arrive, read, relay_step, relay, fresh,
}
use arx_mdm.Transfer.Relay.{IsReadOf, IsStream, sent, download_loop-IsStream}

abbrev pub reads : ℕ → List Event
reads zero = []
reads (suc n) = read ∷ reads n

abbrev IsMiddle : C2FileChunk → Type 0
IsMiddle c = (c.err_text ≡ []) × (c.eof ≡ false)

-- A full queue takes nothing more.
full_drops :
    (s : Relay) (ms : List Message) (es : List Event)
    → 8 ≤ length s.queue
    → relay s (map arrive ms ++ es) ≡ relay s es
unfolding relay relay_step try_send
full_drops s [] es full = refl
full_drops s (m ∷ ms) es full =
    subst (λ z. relay z (map arrive ms ++ es) ≡ relay s es) (sym dropped) (full_drops s ms es full)
  where
    dropped : try_send (chunk_of m) s ≡ s
    dropped = ground arith

reads_going :
    (n : ℕ) (q : List C2FileChunk) (b : Text)
    → All IsMiddle q
    → (relay (record { queue = q; body = b; ended = false }) (reads n)).ended ≡ false
unfolding relay relay_step read_step text_eq
reads_going zero q b h = refl
reads_going (suc n) [] b h = reads_going n [] b tt
reads_going (suc n) (c ∷ q) b ((clean, going), h) =
    subst (λ z. (relay z (reads n)).ended ≡ false) (sym moved) (reads_going n q (b ++ c.content) h)
  where
    moved :
        write_chunk c q (record { queue = c ∷ q; body = b; ended = false })
        ≡ (record { queue = q; body = b ++ c.content; ended = false })
    moved = rw (clean, going) refl

-- The chunks of a stream that find room in the queue are not the last where there are more than it takes.
arrivals_going :
    (q : List C2FileChunk) (ms : List Message) (content : Text) (n : ℕ)
    → All IsMiddle q
    → IsStream content (map chunk_of ms)
    → 8 < length q + length ms
    → (relay (record { queue = q; body = []; ended = false }) (map arrive ms ++ reads n)).ended
      ≡ false
unfolding relay relay_step try_send
arrivals_going q [] content n h stream many = absurd stream
arrivals_going q (m ∷ ms) content n h (clean, rest, parts, tail) many =
    elim (Bool-cases (ltb (length q) 8)) [
      | inr full ↦
          ap (λ z. z.ended)
            (full_drops (record { queue = q; body = []; ended = false }) (m ∷ ms) (reads n)
              (ground arith))
          ∙ reads_going n q [] h
      | inl room ↦
          subst (λ z. (relay z (map arrive ms ++ reads n)).ended ≡ false) (sym (taken room))
            (elim (Bool-cases (chunk_of m).eof) [
              | inl e ↦ elim (let absurd : ⊥ = last (rw e at tail) room in absurd) [ ]
              | inr e ↦
                  arrivals_going (q ++ chunk_of m ∷ []) ms rest n
                    (All-append IsMiddle q (chunk_of m ∷ []) h ((clean, e), tt)) (rw e at tail)
                    (longer room)
            ])
    ]
  where
    taken :
        ltb (length q) 8 ≡ true
        → try_send (chunk_of m) (record { queue = q; body = []; ended = false })
          ≡ (record { queue = q ++ chunk_of m ∷ []; body = []; ended = false })
    taken e = rw e refl

    longer : ltb (length q) 8 ≡ true → 8 < length (q ++ chunk_of m ∷ []) + length ms
    longer e = omega (arith, many, length-append q (chunk_of m ∷ []))

    last : (rest ≡ []) × (map chunk_of ms ≡ []) → ltb (length q) 8 ≡ true → ⊥
    last (_, none_left) e =
        elim ms as (λ x. map chunk_of x ≡ [] → 8 < length q + suc (length x) → ⊥) [
          | [] ↦ λ _ lt. ground arith
          | x ∷ xs ↦ λ f _. cc
        ]
          none_left many

-- A file that needs more than eight chunks: where all of them arrive before the handler takes the first, the
-- answer does not end, however often the handler asks for a chunk.
pub relay_drops :
    (size : ℕ) (content : Text) (rs : List Read) (n : ℕ)
    → IsReadOf size content rs
    → 8 < length (download_loop rs)
    → (relay fresh (map arrive (download_loop rs) ++ reads n)).ended ≡ false
unfolding sent
relay_drops size content rs n h long =
    arrivals_going [] (download_loop rs) content n tt (download_loop-IsStream size content rs h)
      (omega (arith, long))

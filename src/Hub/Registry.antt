-- ===== src/Hub/Registry.antt =====
-- Which session a serial leads to, and the send that meets a closed channel.
use arx_mdm.Prelude.{
  ◌≡◌, ◌≢◌, refl, ◌∙◌, inl, inr, true, false, none, some, List, [], ◌∷◌, Text, text_eq,
  text_eq_refl, text_eq_iff, length, ◌==◌, ==_iff, trim_space, Bool-cases,
}
use arx_mdm.Hub.Sessions.{
  Session, Hub, get_session, delete_session, is_current, register, unregister, begin_dispatch,
  send_next,
}

get_session-delete_session_self :
    (t : Text) (table : List (Text × Session)) → get_session t (delete_session t table) ≡ none
unfolding get_session delete_session
get_session-delete_session_self t [] = refl
get_session-delete_session_self t ((u, s) ∷ rest) = elim (Bool-cases (text_eq u t)) [
  | inl e ↦ rw e (get_session-delete_session_self t rest)
  | inr e ↦ rw (e, e) (get_session-delete_session_self t rest)
]

get_session-delete_session :
    (t u : Text) (table : List (Text × Session))
    → text_eq u t ≡ false
    → get_session t (delete_session u table) ≡ get_session t table
unfolding get_session delete_session
get_session-delete_session t u [] n = refl
get_session-delete_session t u ((v, s) ∷ rest) n = elim (Bool-cases (text_eq v u)) [
  | inl e ↦
      let same : v ≡ u = (text_eq_iff v u).0 e in
      let k : text_eq v t ≡ false = rw same n in
      rw (get_session, delete_session, e, k) (get_session-delete_session t u rest n)
  | inr e ↦ elim (Bool-cases (text_eq v t)) [
    | inl k ↦ rw (get_session, delete_session, e, k)
    | inr k ↦ rw (get_session, delete_session, e, k) (get_session-delete_session t u rest n)
  ]
]

-- A session that a serial leads to stays registered when another session leaves, such as an
-- older one of the same serial.
pub unregister-get_session :
    (h : Hub) (old new : Session) (serial : Text)
    → get_session serial h.by_serial ≡ some new
    → new.id ≢ old.id
    → get_session serial (unregister h old).by_serial ≡ some new
unfolding unregister
unregister-get_session h old new serial g n =
    elim (Bool-cases (is_current old (get_session old.serial h.by_serial))) [
      | inr e ↦ rw (unregister, e) g
      | inl e ↦ elim (Bool-cases (text_eq old.serial serial)) [
        | inr k ↦
            rw (unregister, e) (get_session-delete_session serial old.serial h.by_serial k ∙ g)
        | inl k ↦
            let same : old.serial ≡ serial = (text_eq_iff old.serial serial).0 k in
            let cur : (new.id == old.id) ≡ true = rw (same, g) at e in
            elim (n ((==_iff new.id old.id).0 cur)) [ ]
      ]
    ]

-- The session that a registration makes.
abbrev pub made : Hub → Text → Session
made h serial = record { id = length h.sessions; serial = serial }

begin_dispatch-register :
    (h : Hub) (serial payload : Text)
    → trim_space serial ≡ serial
    → text_eq serial [] ≡ false
    → h.waiting ≡ []
    → begin_dispatch (register h serial) serial payload
      ≡ record (register h serial) { waiting = (made h serial, payload) ∷ [] }
unfolding begin_dispatch register get_session
begin_dispatch-register h serial payload t n w =
    rw (begin_dispatch, t, n, register, get_session, text_eq_refl serial, w)

late_send :
    (h : Hub) (s : Session) (payload : Text)
    → h.waiting ≡ (s, payload) ∷ []
    → (send_next (unregister h s)).panicked ≡ true
unfolding send_next unregister
late_send h s payload w = rw (send_next, w, (==_iff s.id s.id).1 refl)

-- Where no other dispatch waits and the serial is neither blank nor padded: if a session is
-- registered, a dispatch to it looks it up, and it is unregistered before the dispatch sends,
-- the send meets the closed channel and the process panics.
pub send_next-unregister :
    (h : Hub) (serial payload : Text)
    → trim_space serial ≡ serial
    → text_eq serial [] ≡ false
    → h.waiting ≡ []
    → (send_next
        (unregister (begin_dispatch (register h serial) serial payload) (made h serial))).panicked
      ≡ true
send_next-unregister h serial payload t n w = rw (begin_dispatch-register h serial payload t n w) (
    late_send (record (register h serial) { waiting = (made h serial, payload) ∷ [] })
      (made h serial) payload refl)

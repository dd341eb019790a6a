-- ===== src/Hub/Sessions.antt =====
-- internal/ws/hub.go, one step for each stretch of code that runs under the lock or on the channel. A
-- dispatch looks the session up in one step and sends in a later one.
use arx_mdm.Prelude.{
  ℕ, Bool, true, false, ◌||◌, Option, none, some, List, [], ◌∷◌, ◌++◌, Text, text_eq, any, keep,
  length, ltb, ◌==◌, if◌then◌else◌, trim_space,
}

-- agentSession, by its address.
pub record Session : Type 0 where
  pub id : ℕ
  pub serial : Text

-- The map bySerial, the sessions made so far, those with a closed connection or a closed channel, what
-- the channels hold, the dispatches that have looked up their session and have not sent yet, and whether
-- the process has panicked.
pub record Hub : Type 0 where
  pub by_serial : List (Text × Session)
  pub sessions : List Session
  pub hung_up : List ℕ
  pub closed : List ℕ
  pub queued : List (ℕ × Text)
  pub waiting : List (Session × Text)
  pub panicked : Bool

unfoldable pub get_session : Text → List (Text × Session) → Option Session
get_session serial [] = none
get_session serial ((t, s) ∷ rest) = if text_eq t serial then some s else get_session serial rest

unfoldable pub delete_session : Text → List (Text × Session) → List (Text × Session)
delete_session serial [] = []
delete_session serial ((t, s) ∷ rest) =
    if text_eq t serial then delete_session serial rest else (t, s) ∷ delete_session serial rest

abbrev pub put_session : Text → Session → List (Text × Session) → List (Text × Session)
put_session serial s table = (serial, s) ∷ delete_session serial table

abbrev pub hang_up : Option Session → List ℕ → List ℕ
hang_up none hung = hung
hang_up (some prev) hung = prev.id ∷ hung

-- Hub.register
unfoldable pub register : Hub → Text → Hub
unfolding get_session delete_session
register h serial =
    let s : Session = record { id = length h.sessions; serial = serial } in
    record h {
      sessions = s ∷ h.sessions;
      by_serial = put_session serial s h.by_serial;
      hung_up = hang_up (get_session serial h.by_serial) h.hung_up;
    }

abbrev pub is_current : Session → Option Session → Bool
is_current s none = false
is_current s (some cur) = cur.id == s.id

abbrev pub is_closed : ℕ → List ℕ → Bool
is_closed k = any (λ c. c == k)

-- Hub.unregister; closing a closed channel panics.
unfoldable pub unregister : Hub → Session → Hub
unfolding get_session delete_session
unregister h s = record h {
  by_serial =
      if is_current s (get_session s.serial h.by_serial)
      then delete_session s.serial h.by_serial
      else h.by_serial;
  panicked = h.panicked || is_closed s.id h.closed;
  closed = s.id ∷ h.closed;
}

-- The lookup of dispatchRaw.
unfoldable pub begin_dispatch : Hub → Text → Text → Hub
unfolding get_session
begin_dispatch h serial payload =
    let serial' = trim_space serial in
    if text_eq serial' [] then h else elim (get_session serial' h.by_serial) [
      | none ↦ h
      | some s ↦ record h { waiting = h.waiting ++ (s, payload) ∷ [] }
    ]

-- The select of dispatchRaw for the dispatch that has waited longest: a send on a closed channel
-- panics, and a full channel keeps it waiting.
unfoldable pub send_next : Hub → Hub
send_next h = elim h.waiting [
  | [] ↦ h
  | (s, payload) ∷ rest ↦
      if is_closed s.id h.closed
      then record h { panicked = true; waiting = rest }
      else if ltb (length (keep (λ q. q.0 == s.id) h.queued)) 32
      then record h { queued = h.queued ++ (s.id, payload) ∷ []; waiting = rest }
      else h
]

-- Its timer fires.
unfoldable pub time_out : Hub → Hub
time_out h = elim h.waiting [ [] ↦ h | w ∷ rest ↦ record h { waiting = rest } ]

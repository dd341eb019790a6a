-- ===== src/Hub/Tests.antt =====
-- Sessions that come and go.
use arx_mdm.Prelude.{◌≡◌, refl, true, false, some, [], text_eq, bytes, trim_space, arith}
use arx_mdm.Hub.Sessions.{
  Session, Hub, get_session, delete_session, register, unregister, begin_dispatch, send_next,
}
use arx_mdm.Hub.Registry.{made, unregister-get_session, send_next-unregister}

abbrev empty : Hub
empty = record {
  by_serial = [];
  sessions = [];
  hung_up = [];
  closed = [];
  queued = [];
  waiting = [];
  panicked = false;
}

abbrev first : Session
first = record { id = 0; serial = bytes "11" }

abbrev second : Session
second = record { id = 1; serial = bytes "11" }

open_all : Unit {0}
unfolding text_eq trim_space get_session delete_session register unregister begin_dispatch send_next
open_all = tt

-- The second session of the serial stays when the first one leaves.
unregister-get_session_example :
    get_session
      (bytes "11")
      (unregister (register (register empty (bytes "11")) (bytes "11")) first).by_serial
    ≡ some second
unfolding open_all
unregister-get_session_example =
    unregister-get_session (register (register empty (bytes "11")) (bytes "11")) first second
      (bytes "11") refl (omega arith)

send_next-unregister_example :
    (send_next (
      unregister
        (begin_dispatch (register empty (bytes "11")) (bytes "11") (bytes "{}"))
        (made empty (bytes "11")))).panicked
    ≡ true
unfolding open_all
send_next-unregister_example = send_next-unregister empty (bytes "11") (bytes "{}") refl refl refl

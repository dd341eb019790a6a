-- ===== src/Transfer/Tests.antt =====
-- Transfers by example.
use arx_mdm.Prelude.{
  ◌≤◌, ◌≡◌, refl, true, false, none, some, List, [], ◌∷◌, ◌++◌, map, Text, text_eq, bytes, All,
  if◌then◌else◌, arith, trim_space, trim_left,
}
use arx_mdm.Transfer.Download.{
  no_error, end_of_file, Read, chunk_size_for, download_loop, chunk_of, try_send, read_step, Event,
  arrive, relay_step, relay, fresh,
}
use arx_mdm.Transfer.Relay.{
  IsStream, IsWithin, sent, download_loop-chunk_size_for, relay-download_loop,
}
use arx_mdm.Transfer.Loss.{reads, relay_drops}
use arx_mdm.Transfer.Upload.{
  Device, find_session, put_written, delete_session_of, begin, upload_chunk, finish, abort,
  handle_command, handle_commands,
}
use arx_mdm.Transfer.Push.{push_loop, handle_upload}
use arx_mdm.Transfer.Writing.{HasWritten, handle_upload-HasWritten}

open_all : Unit {0}
unfolding text_eq trim_space trim_left chunk_size_for download_loop chunk_of try_send read_step
    relay_step relay sent find_session put_written delete_session_of begin upload_chunk finish abort
    handle_command handle_commands push_loop handle_upload
open_all = tt

abbrev piece : Text → Read
piece t = record { data_read = t; read_err = no_error }

abbrev at_end : Read
at_end = record { data_read = []; read_err = end_of_file }

abbrev two_reads : List Read
two_reads = piece (bytes "ab") ∷ piece (bytes "c") ∷ at_end ∷ []

download_loop-chunk_size_for_example :
    IsStream (bytes "abc") (sent (download_loop two_reads))
    × All (IsWithin 1048576) (download_loop two_reads)
    × (1 ≤ chunk_size_for 2)
unfolding open_all
download_loop-chunk_size_for_example =
    download_loop-chunk_size_for 2 (bytes "abc") two_reads
      (bytes "c", refl, omega arith, ([], refl, omega arith, ([], refl, omega arith, refl)))

abbrev prompt : List Event
prompt = map arrive (download_loop two_reads) ++ reads 3

relay-download_loop_example :
    ((relay fresh prompt).ended ≡ true) × ((relay fresh prompt).body ≡ bytes "abc")
unfolding open_all
relay-download_loop_example =
    relay-download_loop 2 (bytes "abc") two_reads prompt
      (bytes "c", refl, omega arith, ([], refl, omega arith, ([], refl, omega arith, refl))) refl
      (omega arith, (omega arith, (omega arith, tt))) refl

abbrev eight_reads : List Read
eight_reads =
    piece (bytes "a")
    ∷ piece (bytes "a")
    ∷ piece (bytes "a")
    ∷ piece (bytes "a")
    ∷ piece (bytes "a")
    ∷ piece (bytes "a")
    ∷ piece (bytes "a")
    ∷ piece (bytes "a")
    ∷ at_end
    ∷ []

relay_drops_example :
    (relay fresh (map arrive (download_loop eight_reads) ++ reads 20)).ended ≡ false
unfolding open_all
relay_drops_example =
    relay_drops 1 (bytes "aaaaaaaa") eight_reads 20
      (
        bytes "aaaaaaa",
        refl,
        omega arith,
        (
          bytes "aaaaaa",
          refl,
          omega arith,
          (
            bytes "aaaaa",
            refl,
            omega arith,
            (
              bytes "aaaa",
              refl,
              omega arith,
              (
                bytes "aaa",
                refl,
                omega arith,
                (
                  bytes "aa",
                  refl,
                  omega arith,
                  (
                    bytes "a",
                    refl,
                    omega arith,
                    ([], refl, omega arith, ([], refl, omega arith, refl)),
                  ),
                ),
              ),
            ),
          ),
        ),
      )
      (omega arith)

abbrev device : Device
device = record {
  sessions = record { request_id = bytes "1"; path = bytes "/x"; written = 0 } ∷ [];
  disk = λ q. if text_eq q (bytes "/x") then some [] else none;
}

handle_upload-HasWritten_example :
    ((handle_upload (λ _. true) (λ t. t) some (bytes "2") (bytes "/y") two_reads device).0 ≡ 200)
    × HasWritten device
        (bytes "/y")
        (bytes "abc")
        (handle_upload (λ _. true) (λ t. t) some (bytes "2") (bytes "/y") two_reads device).1
unfolding open_all
handle_upload-HasWritten_example =
    handle_upload-HasWritten (λ _. true) (λ t. t) some (λ t. refl) (bytes "2") (bytes "/y") refl
      device 2 two_reads (bytes "abc")
      (bytes "c", refl, omega arith, ([], refl, omega arith, ([], refl, omega arith, refl)))
      (omega arith) refl refl refl refl refl

-- A path that cannot be opened is answered 502.
cannot_open :
    (handle_upload (λ _. false) (λ t. t) some (bytes "2") (bytes "/y") two_reads device).0 ≡ 502
unfolding open_all
cannot_open = refl

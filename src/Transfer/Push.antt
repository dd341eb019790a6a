-- ===== src/Transfer/Push.antt =====
-- The server's side of an upload: the loop of handleUpload in internal/api/files.go, whose dispatches the
-- hub takes, and deliverFSUploadResult of internal/ws/fs_bridge.go.
use arx_mdm.Prelude.{
  ℕ, ◌+◌, ◌-◌, Bool, true, false, Option, none, some, List, [], ◌∷◌, Text, text_eq, length, ltb,
  if◌then◌else◌,
}
use arx_mdm.Transfer.Download.{ReadError, no_error, end_of_file, read_failed, Read}
use arx_mdm.Transfer.Upload.{
  Device, Command, upload_begin, chunk_b64, upload_finish, upload_abort, handle_commands,
}

abbrev pub max_upload_bytes_per_call : ℕ
max_upload_bytes_per_call = 536870912

-- How the loop over the request's body ends: with an answer, or with all of it sent.
pub data Ending : Type 0 where
  answered : ℕ → Ending
  all_sent : Ending

-- What follows a read, with the commands and the ending of the rounds to come.
abbrev pub after_read : Text → ReadError → List Command × Ending → List Command × Ending
after_read rid end_of_file later = (upload_finish rid ∷ [], all_sent)
after_read rid (read_failed e) later = (upload_abort rid ∷ [], answered 400)
after_read rid no_error later = later

abbrev pub before : Command → List Command × Ending → List Command × Ending
before c (cs, e) = (c ∷ cs, e)

-- The loop, over the reads of the body.
unfoldable pub push_loop : (Text → Text) → Text → ℕ → List Read → List Command × Ending
push_loop encode rid total [] = ([], answered 408)
push_loop encode rid total (r ∷ rs) =
    let later = push_loop encode rid (total + length r.data_read) rs in
    if text_eq r.data_read []
    then after_read rid r.read_err later
    else if ltb (max_upload_bytes_per_call - total) (length r.data_read)
    then (upload_abort rid ∷ [], answered 413)
    else before (chunk_b64 rid (encode r.data_read)) (after_read rid r.read_err later)

-- The answer, from the device's first reply; without one the request times out.
abbrev pub status_of : Ending → Option Bool → ℕ
status_of (answered n) reply = n
status_of all_sent none = 408
status_of all_sent (some true) = 200
status_of all_sent (some false) = 502

-- handleUpload with the device that handles its commands in order: the status, and the device afterwards.
module _ (opens : Text → Bool) (encode : Text → Text) (decode : Text → Option Text) where
  unfoldable pub handle_upload : Text → Text → List Read → Device → ℕ × Device
  unfolding push_loop handle_commands
  handle_upload rid path rs d =
      let (commands, ending) = push_loop encode rid 0 rs in
      let (reply, after) = handle_commands opens decode (upload_begin rid path ∷ commands) d in
      (status_of ending reply, after)

-- ===== src/Transfer/Upload.antt =====
-- The device's side of an upload, internal/ws/agent_fs.go: fsUploadState and its handlers on commands that
-- decode. What is opened takes every write.
use arx_mdm.Prelude.{
  ℕ, zero, suc, ◌+◌, ◌-◌, Bool, true, false, ◌||◌, not, Option, none, some, List, [], ◌∷◌, ◌++◌,
  Text, text_eq, length, take, drop, ltb, if◌then◌else◌, trim_space, is_none,
}

-- An open file with the count of bytes written to it, under the id of its request.
pub record Session : Type 0 where
  pub request_id : Text
  pub path : Text
  pub written : ℕ

pub record Device : Type 0 where
  pub sessions : List Session
  pub disk : Text → Option Text

abbrev pub max_agent_upload_bytes : ℕ
max_agent_upload_bytes = 536870912

unfoldable pub find_session : Text → List Session → Option Session
find_session rid [] = none
find_session rid (s ∷ ss) = if text_eq s.request_id rid then some s else find_session rid ss

unfoldable pub put_written : Text → ℕ → List Session → List Session
put_written rid n [] = []
put_written rid n (s ∷ ss) =
    if text_eq s.request_id rid then record s { written = n } ∷ ss else s ∷ put_written rid n ss

unfoldable pub delete_session_of : Text → List Session → List Session
delete_session_of rid [] = []
delete_session_of rid (s ∷ ss) =
    if text_eq s.request_id rid then ss else s ∷ delete_session_of rid ss

abbrev pub zeros : ℕ → Text
zeros zero = []
zeros (suc n) = 0 ∷ zeros n

-- A write at an offset of a file.
abbrev pub write_at : ℕ → Text → Text → Text
write_at offset data_in old =
    take offset old ++ zeros (offset - length old) ++ data_in ++ drop (offset + length data_in) old

abbrev pub set_file : Text → Text → (Text → Option Text) → Text → Option Text
set_file path bytes_of disk q = if text_eq q path then some bytes_of else disk q

abbrev pub bytes_at : Option Text → Text
bytes_at none = []
bytes_at (some b) = b

-- fsUploadState.begin; `opens` says whether OpenFileWriteTrunc succeeds.
unfoldable pub begin : (Text → Bool) → Text → Text → Device → Bool × Device
unfolding find_session
begin opens rid path d =
    if not (is_none (find_session rid d.sessions))
    then (false, d)
    else if not (opens path)
    then (false, d)
    else (
      true,
      record {
        sessions = record { request_id = rid; path = path; written = 0 } ∷ d.sessions;
        disk = set_file path [] d.disk;
      },
    )

abbrev pub write_chunk_to : Session → Text → Device → Bool × Device
write_chunk_to s data_in d =
    let total = s.written + length data_in in
    (
      not (ltb max_agent_upload_bytes total),
      record {
        sessions = put_written s.request_id total d.sessions;
        disk = set_file s.path (write_at s.written data_in (bytes_at (d.disk s.path))) d.disk;
      },
    )

-- fsUploadState.chunk
unfoldable pub upload_chunk : Text → Text → Device → Bool × Device
unfolding find_session put_written
upload_chunk rid data_in d = elim (find_session rid d.sessions) [
  | none ↦ (false, d)
  | some s ↦ write_chunk_to s data_in d
]

-- fsUploadState.finish and abort
unfoldable pub finish : Text → Device → Bool × Device
unfolding find_session delete_session_of
finish rid d = (
  not (is_none (find_session rid d.sessions)),
  record d { sessions = delete_session_of rid d.sessions },
)

unfoldable pub abort : Text → Device → Device
unfolding delete_session_of
abort rid d = record d { sessions = delete_session_of rid d.sessions }

-- The commands of an upload; a chunk is base64.
pub data Command : Type 0 where
  upload_begin : Text → Text → Command
  chunk_b64 : Text → Text → Command
  upload_finish : Text → Command
  upload_abort : Text → Command

-- A handler's reply, fsUploadReply, or none.
abbrev pub refuse_unless : Bool × Device → Option Bool × Device
refuse_unless (true, d) = (none, d)
refuse_unless (false, d) = (some false, d)

abbrev pub abort_unless : Text → Bool × Device → Option Bool × Device
abort_unless rid (true, d) = (none, d)
abort_unless rid (false, d) = (some false, abort rid d)

-- The first reply, which is the one that the server's waiter keeps.
abbrev pub first_reply : Option Bool → Option Bool → Option Bool
first_reply (some b) later = some b
first_reply none later = later

-- handleFsUploadBegin, handleFsUploadChunk, handleFsUploadFinish and handleFsUploadAbort; `decode` is base64.
module _ (opens : Text → Bool) (decode : Text → Option Text) where
  unfoldable pub handle_command : Command → Device → Option Bool × Device
  unfolding begin upload_chunk finish abort
  handle_command (upload_begin rid path) d =
      if text_eq (trim_space rid) [] || text_eq (trim_space path) []
      then (some false, d)
      else refuse_unless (begin opens (trim_space rid) (trim_space path) d)
  handle_command (chunk_b64 rid b) d = elim (decode b) [
    | none ↦ (some false, abort (trim_space rid) d)
    | some raw ↦ abort_unless (trim_space rid) (upload_chunk (trim_space rid) raw d)
  ]
  handle_command (upload_finish rid) d =
      let (done, after) = finish (trim_space rid) d in (some done, after)
  handle_command (upload_abort rid) d = (none, abort (trim_space rid) d)

  unfoldable pub handle_commands : List Command → Device → Option Bool × Device
  unfolding handle_command
  handle_commands [] d = (none, d)
  handle_commands (c ∷ cs) d =
      let (reply, d1) = handle_command c d in
      let (later, d2) = handle_commands cs d1 in (first_reply reply later, d2)

-- ===== src/Transfer/Download.antt =====
-- runFsDownload of internal/ws/agent_fs.go, the waiter of internal/ws/fs_bridge.go, and the loop of
-- handleDownload in internal/api/files.go. The connection takes every message, and messages decode.
use arx_mdm.Prelude.{
  ℕ, Bool, true, false, not, ◌||◌, List, [], ◌∷◌, ◌++◌, Text, text_eq, length, ltb, ◌==◌,
  if◌then◌else◌, trim_space,
}

-- What one Read of the file gives besides its bytes: nothing, the end of the file, or another error.
pub data ReadError : Type 0 where
  no_error end_of_file : ReadError
  read_failed : Text → ReadError

pub record Read : Type 0 where
  pub data_read : Text
  pub read_err : ReadError

abbrev pub is_eof : ReadError → Bool
is_eof end_of_file = true
is_eof _ = false

-- The size of the buffer of runFsDownload.
unfoldable pub chunk_size_for : ℕ → ℕ
chunk_size_for asked = if asked == 0 || ltb 1048576 asked then 262144 else asked

-- fs_download_chunk and fs_download_error
pub data Message : Type 0 where
  chunk : Text → Bool → Message
  failure : Text → Message

-- The end of the loop where nothing was read.
abbrev pub after_empty : ReadError → List Message → List Message
after_empty end_of_file rest = chunk [] true ∷ []
after_empty (read_failed e) rest = failure e ∷ []
after_empty no_error rest = rest

-- The loop of runFsDownload over the reads of the file.
unfoldable pub download_loop : List Read → List Message
download_loop [] = []
download_loop (r ∷ rs) =
    let rest = download_loop rs in
    if not (text_eq r.data_read [])
    then chunk r.data_read (is_eof r.read_err) ∷ (if is_eof r.read_err then [] else rest)
    else after_empty r.read_err rest

-- C2FileChunk
pub record C2FileChunk : Type 0 where
  pub content : Text
  pub eof : Bool
  pub err_text : Text

-- deliverFSDownload
unfoldable pub chunk_of : Message → C2FileChunk
chunk_of (chunk d e) = record { content = d; eof = e; err_text = [] }
chunk_of (failure e) = record { content = []; eof = false; err_text = trim_space e }

-- The queue of a waiter, and the answer that handleDownload writes.
pub record Relay : Type 0 where
  pub queue : List C2FileChunk
  pub body : Text
  pub ended : Bool

abbrev pub capacity : ℕ
capacity = 8

-- trySendFSDownload
unfoldable pub try_send : C2FileChunk → Relay → Relay
try_send c s = if ltb (length s.queue) capacity then record s { queue = s.queue ++ c ∷ [] } else s

-- One round of the loop of handleDownload, where a chunk is there and the answer is not ended.
abbrev pub write_chunk : C2FileChunk → List C2FileChunk → Relay → Relay
write_chunk c rest s =
    if text_eq c.err_text []
    then record { queue = rest; body = s.body ++ c.content; ended = c.eof }
    else record { queue = rest; body = s.body; ended = true }

abbrev pub take_chunk : List C2FileChunk → Relay → Relay
take_chunk [] s = s
take_chunk (c ∷ cs) s = write_chunk c cs s

unfoldable pub read_step : Relay → Relay
read_step s = if s.ended then s else take_chunk s.queue s

-- A message arrives, or the handler takes a chunk.
pub data Event : Type 0 where
  arrive : Message → Event
  read : Event

unfoldable pub relay_step : Relay → Event → Relay
unfolding chunk_of try_send read_step
relay_step s (arrive m) = try_send (chunk_of m) s
relay_step s read = read_step s

unfoldable pub relay : Relay → List Event → Relay
unfolding relay_step
relay s [] = s
relay s (e ∷ es) = relay (relay_step s e) es

abbrev pub fresh : Relay
fresh = record { queue = []; body = []; ended = false }

-- ===== src/Framing.antt =====
-- crates/levshell-ipc/src/framing.rs: the frames on the socket, one line each. The buffered reader and
-- the writer of tokio are parameters; `none` is an error of theirs. What the reader has still to give
-- and what the writer has been given are the views `content` and `written` of their promises.
pub mod Lines
pub mod RoundTrip
pub mod Errors
use levshell.Prelude.{
  ℕ, suc, ◌+◌, ltb, ◌==◌, Text, Bool, true, false, Option, none, some, List, [], ◌∷◌, length,
  any_of, if◌then◌else◌,
}

-- 16 MiB.
abbrev pub max_frame_size : ℕ
max_frame_size = 16777216

abbrev pub frame_delimiter : ℕ
frame_delimiter = 10

-- `take(limit)`, then `read_until(FRAME_DELIMITER)`.
pub record Reader (S : Type 0) : Type 0 where
  pub read_until : (limit : ℕ) → S → Option (Text × S)

pub record Writer (W : Type 0) : Type 0 where
  pub write_all : Text → W → Option W
  pub flush : W → Option W

-- `IpcError`, without the texts.
pub data IpcError : Type 0 where
  io codec no_runtime_dir connection_closed : IpcError
  frame_too_large : (size max : ℕ) → IpcError

pub data Read (S : Type 0) : Type 0 where
  frame : Text → S → Read S
  refused : IpcError → Read S

pub data Written (W : Type 0) : Type 0 where
  sent : W → Written W
  unsent : IpcError → Written W

-- `buf.last() == Some(&FRAME_DELIMITER)`.
unfoldable pub ends_frame : Text → Bool
ends_frame [] = false
ends_frame (b ∷ []) = b == frame_delimiter
ends_frame (b ∷ c ∷ bs) = ends_frame (c ∷ bs)

-- `Vec::pop`.
unfoldable pub pop : Text → Text
pop [] = []
pop (b ∷ []) = []
pop (b ∷ c ∷ bs) = b ∷ pop (c ∷ bs)

unfoldable pub classify : {S : Type 0} → Text → S → Read S
classify buf s =
    if length buf == 0
    then refused connection_closed
    else if ends_frame buf
    then frame (pop buf) s
    else if ltb max_frame_size (length buf)
    then refused (frame_too_large (length buf) max_frame_size)
    else refused connection_closed

unfoldable pub read_frame : {S : Type 0} → Reader S → S → Read S
read_frame reader s = elim (reader.read_until (max_frame_size + 1) s) [
  | none ↦ refused io
  | some (buf, s') ↦ classify buf s'
]

abbrev pub has_delimiter : Text → Bool
has_delimiter bs = any_of (λ b. b == frame_delimiter) bs

-- The two writes and the flush.
unfoldable pub send : {W : Type 0} → Writer W → W → Text → Written W
send writer w bytes = elim (writer.write_all bytes w) [
  | none ↦ unsent io
  | some w1 ↦ elim (writer.write_all (frame_delimiter ∷ []) w1) [
    | none ↦ unsent io
    | some w2 ↦ elim (writer.flush w2) [ none ↦ unsent io | some w3 ↦ sent w3 ]
  ]
]

unfoldable pub write_frame : {W : Type 0} → Writer W → W → Text → Written W
write_frame writer w bytes =
    if ltb max_frame_size (length bytes)
    then unsent (frame_too_large (length bytes) max_frame_size)
    else if has_delimiter bytes
    then unsent codec
    else send writer w bytes

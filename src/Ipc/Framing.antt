-- ===== src/Ipc/Framing.antt =====
-- core-ipc/src/framing.rs: frames on a socket, a length of four bytes and the payload.
pub mod Exact
pub mod Stream
use open_sesame.Prelude.{
  ℕ, ◌+◌, ◌*◌, ◌/◌, ◌%◌, ◌^◌, Option, none, some, List, [], ◌∷◌, ◌++◌, ltb, leb, if◌then◌else◌,
  length, take, drop,
}

abbrev pub Bytes : Type 0
Bytes = List ℕ

abbrev pub max_frame_size : ℕ
max_frame_size = 16 * 1024 * 1024

-- `u32::to_be_bytes` and `u32::from_be_bytes`.
unfoldable pub to_be_bytes : ℕ → Bytes
to_be_bytes n = (n / 2 ^ 24) % 256 ∷ (n / 2 ^ 16) % 256 ∷ (n / 2 ^ 8) % 256 ∷ n % 256 ∷ []

unfoldable pub from_be_bytes : Bytes → ℕ
from_be_bytes (a ∷ b ∷ c ∷ d ∷ []) = a * 2 ^ 24 + b * 2 ^ 16 + c * 2 ^ 8 + d
from_be_bytes _ = 0

-- What a reader that gives the bytes of a stream and then ends answers to `read_exact`: the bytes
-- and the rest of the stream.
unfoldable pub read_exact : ℕ → Bytes → Option (Bytes × Bytes)
read_exact n stream = if leb n (length stream) then some (take n stream, drop n stream) else none

pub data ReadResult : Type 0 where
  frame : Bytes → Bytes → ReadResult
  end_of_stream : ReadResult
  too_large : ℕ → ReadResult

unfoldable pub read_payload : ℕ → Bytes → ReadResult
unfolding read_exact
read_payload len stream =
    if ltb max_frame_size len then too_large len else elim (read_exact len stream) [
      | none ↦ end_of_stream
      | some (payload, rest) ↦ frame payload rest
    ]

unfoldable pub read_frame : Bytes → ReadResult
unfolding read_exact from_be_bytes read_payload
read_frame stream = elim (read_exact 4 stream) [
  | none ↦ end_of_stream
  | some (len_buf, rest) ↦ read_payload (from_be_bytes len_buf) rest
]

-- What has been written, on a writer that does not fail; `none` if the length is no `u32`.
unfoldable pub write_frame : Bytes → Bytes → Option Bytes
unfolding to_be_bytes
write_frame writer payload =
    if ltb (length payload) (2 ^ 32)
    then some (writer ++ to_be_bytes (length payload) ++ payload)
    else none

-- ===== src/Transport/Frames.antt =====
-- The frames of `TcpBus`, crates/sigil-cluster/src/transport.rs: `write_frame` and `read_frames`.
-- A stream is the list of the bytes that arrive before it ends.
use sigil_siem.Prelude.{
  ℕ, zero, suc, ◌+◌, ◌*◌, ◌/◌, ◌%◌, ◌^◌, Option, none, some, List, [], ◌∷◌, ◌++◌, length, take,
  drop, leb, ltb, if◌then◌else◌,
}
use sigil_siem.Prelude.Texts.{Text}
use sigil_siem.Transport.Utf8.{as_bytes, from_utf8_lossy}

-- 16 MiB
abbrev pub max_frame : ℕ
max_frame = 16 * 1024 * 1024

-- `write_u32`, big-endian.
unfoldable pub write_u32 : ℕ → List ℕ
write_u32 n = (n / 2 ^ 24 % 256) ∷ (n / 2 ^ 16 % 256) ∷ (n / 2 ^ 8 % 256) ∷ (n % 256) ∷ []

-- `len() as u32` keeps the low 32 bits.
unfoldable pub write_frame : Text → List ℕ → List ℕ
unfolding as_bytes
write_frame topic payload =
    let bytes = as_bytes topic in
    write_u32 (length bytes % 2 ^ 32) ++ (bytes ++ (write_u32 (length payload % 2 ^ 32) ++ payload))

unfoldable pub read_u32 : List ℕ → Option (ℕ × List ℕ)
read_u32 (a ∷ b ∷ c ∷ d ∷ rest) = some (a * 2 ^ 24 + b * 2 ^ 16 + c * 2 ^ 8 + d, rest)
read_u32 _ = none

-- `read_exact` into a buffer of `n` bytes.
unfoldable pub read_exact : ℕ → List ℕ → Option (List ℕ × List ℕ)
read_exact n s = if leb n (length s) then some (take n s, drop n s) else none

pub data FrameError : Type 0 where
  read oversized_topic oversized_payload : FrameError

pub data Parsed : Type 0 where
  -- topic, payload, and the bytes behind them
  frame : Text → List ℕ → List ℕ → Parsed
  failed : FrameError → Parsed

-- One length-prefixed field: its bytes and the rest, or the error of the link.
unfoldable pub read_field : FrameError → List ℕ → (List ℕ → List ℕ → Parsed) → Parsed
read_field oversized s k = elim (read_u32 s) [
  | none ↦ failed read
  | some (n, s') ↦
      if ltb max_frame n
      then failed oversized
      else elim (read_exact n s') [ none ↦ failed read | some (bytes, s'') ↦ k bytes s'' ]
]

-- The body of the loop of `read_frames`.
unfoldable pub read_frame : List ℕ → Parsed
unfolding from_utf8_lossy
read_frame s = read_field oversized_topic s λ topic s'.
    read_field oversized_payload s' λ payload s''. frame (from_utf8_lossy topic) payload s''

-- The loop of `read_frames`: the frames to publish, in order, and the error that closes the link.
-- Every frame takes eight bytes at least, so the number of the bytes is fuel enough.
unfoldable pub read_frames : ℕ → List ℕ → List (Text × List ℕ) × FrameError
read_frames zero s = ([], read)
read_frames (suc fuel) s = elim (read_frame s) [
  | failed e ↦ ([], e)
  | frame topic payload rest ↦
      let (frames, e) = read_frames fuel rest in ((topic, payload) ∷ frames, e)
]

-- `read_frames` on a whole stream.
unfoldable pub read_stream : List ℕ → List (Text × List ℕ) × FrameError
read_stream s = read_frames (suc (length s)) s

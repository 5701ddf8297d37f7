-- ===== src/Transport/Samples.antt =====
-- Streams of two frames.
use sigil_siem.Prelude.{ℕ, ◌+◌, ◌≡◌, List, [], ◌∷◌, ◌++◌, zero, suc, length, arith}
use sigil_siem.Prelude.{refl, All}
use sigil_siem.Prelude.Texts.{Text}
use sigil_siem.Raft.Init.{utf8}
use sigil_siem.Transport.Utf8.{as_bytes, from_utf8_lossy, lossy, next_char}
use sigil_siem.Transport.Frames.{max_frame, write_frame, read_stream, read, oversized_topic}
use sigil_siem.Transport.Wire.{IsSmall, write_all, read_stream-write_all, read_stream-oversized}

-- The first topic takes five bytes.
abbrev two_frames : List (Text × List ℕ)
two_frames = (0x61 ∷ 0x20ac ∷ 0x62 ∷ [], 3 ∷ []) ∷ ([], 4 ∷ 5 ∷ []) ∷ []

two_frames-IsSmall : All IsSmall two_frames
unfolding as_bytes utf8
two_frames-IsSmall = ground arith

read_stream-write_all_example : read_stream (write_all two_frames) ≡ (two_frames, read)
read_stream-write_all_example = read_stream-write_all two_frames two_frames-IsSmall

replicate : ℕ → List ℕ
replicate zero = []
replicate (suc n) = 0 ∷ replicate n

length-replicate : (n : ℕ) → length (as_bytes (replicate n)) ≡ n
unfolding replicate as_bytes utf8
length-replicate zero = omega arith
length-replicate (suc n) = omega (arith, length-replicate n)

read_stream-oversized_example :
    read_stream (write_all two_frames ++ (write_frame (replicate (max_frame + 1)) [] ++ []))
    ≡ (two_frames, oversized_topic)
read_stream-oversized_example =
    read_stream-oversized two_frames (replicate (max_frame + 1)) [] [] two_frames-IsSmall
      (omega (arith, length-replicate (max_frame + 1)))
      (omega (arith, length-replicate (max_frame + 1)))

-- A topic that is not UTF-8 is published with replacement characters.
test1 : from_utf8_lossy (0x61 ∷ 0xff ∷ 0xe2 ∷ 0x82 ∷ 0x62 ∷ []) ≡ 0x61 ∷ 0xfffd ∷ 0xfffd ∷ 0x62 ∷ []
unfolding from_utf8_lossy lossy next_char
test1 = refl

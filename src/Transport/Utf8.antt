-- ===== src/Transport/Utf8.antt =====
-- The text of a topic in crates/sigil-cluster/src/transport.rs: `as_bytes`, and
-- `String::from_utf8_lossy` on the bytes that were read.
use sigil_siem.Prelude.{
  ℕ, zero, suc, ◌+◌, ◌-◌, ◌*◌, Bool, ◌&&◌, List, [], ◌∷◌, length, leb, ltb, ◌==◌, if◌then◌else◌,
}
use sigil_siem.Prelude.Texts.{Text}
use sigil_siem.Raft.Init.{utf8}
use sigil_siem.Prelude.{◌++◌}

-- The bytes of a text.
unfoldable pub as_bytes : Text → List ℕ
as_bytes [] = []
as_bytes (c ∷ s) = utf8 c ++ as_bytes s

-- U+FFFD
abbrev pub replacement : ℕ
replacement = 0xfffd

-- A character and the bytes behind it.
abbrev pub Step : Type 0
Step = ℕ × List ℕ

abbrev pub is_tail : ℕ → Bool
is_tail b = leb 0x80 b && ltb b 0xc0

-- The second byte that a first byte of three or of four takes.
abbrev pub second_of_3 : ℕ → ℕ → Bool
second_of_3 a b =
    leb (if a == 0xe0 then 0xa0 else 0x80) b && ltb b (if a == 0xed then 0xa0 else 0xc0)

abbrev pub second_of_4 : ℕ → ℕ → Bool
second_of_4 a b =
    leb (if a == 0xf0 then 0x90 else 0x80) b && ltb b (if a == 0xf4 then 0x90 else 0xc0)

abbrev pub read_2 : ℕ → List ℕ → Step
read_2 a [] = (replacement, [])
read_2 a (b ∷ s) = if is_tail b then ((a - 0xc0) * 64 + (b - 0x80), s) else (replacement, b ∷ s)

-- An invalid sequence ends before the first byte that does not fit.
abbrev pub third_of_3 : ℕ → ℕ → List ℕ → Step
third_of_3 a b [] = (replacement, [])
third_of_3 a b (c ∷ s) =
    if is_tail c
    then ((a - 0xe0) * 4096 + (b - 0x80) * 64 + (c - 0x80), s)
    else (replacement, c ∷ s)

abbrev pub read_3 : ℕ → List ℕ → Step
read_3 a [] = (replacement, [])
read_3 a (b ∷ s) = if second_of_3 a b then third_of_3 a b s else (replacement, b ∷ s)

abbrev pub fourth_of_4 : ℕ → ℕ → ℕ → List ℕ → Step
fourth_of_4 a b c [] = (replacement, [])
fourth_of_4 a b c (d ∷ s) =
    if is_tail d
    then ((a - 0xf0) * 262144 + (b - 0x80) * 4096 + (c - 0x80) * 64 + (d - 0x80), s)
    else (replacement, d ∷ s)

abbrev pub third_of_4 : ℕ → ℕ → List ℕ → Step
third_of_4 a b [] = (replacement, [])
third_of_4 a b (c ∷ s) = if is_tail c then fourth_of_4 a b c s else (replacement, c ∷ s)

abbrev pub read_4 : ℕ → List ℕ → Step
read_4 a [] = (replacement, [])
read_4 a (b ∷ s) = if second_of_4 a b then third_of_4 a b s else (replacement, b ∷ s)

-- The character that begins with the byte `a`, or the replacement of what does not begin one.
unfoldable pub next_char : ℕ → List ℕ → Step
next_char a s =
    if ltb a 0x80
    then (a, s)
    else if leb 0xc2 a && ltb a 0xe0
    then read_2 a s
    else if leb 0xe0 a && ltb a 0xf0
    then read_3 a s
    else if leb 0xf0 a && ltb a 0xf5
    then read_4 a s
    else (replacement, s)

-- Every character takes a byte at least: the number of the bytes is fuel enough.
unfoldable pub lossy : ℕ → List ℕ → Text
lossy zero s = []
lossy (suc fuel) [] = []
lossy (suc fuel) (a ∷ s) = let r = next_char a s in r.0 ∷ lossy fuel r.1

unfoldable pub from_utf8_lossy : List ℕ → Text
unfolding next_char lossy
from_utf8_lossy s = lossy (length s) s

-- ===== src/Correlation/Timespan.antt =====
-- `parse_timespan` of crates/sigil-sigma/src/correlation.rs. An `i64` is multiplied as a release
-- build does it, with wrap-around.
use sigil_siem.Prelude.{
  ℕ, ◌+◌, ◌-◌, ◌*◌, ◌^◌, ◌&&◌, Option, none, some, [], ◌∷◌, ltb, leb, ◌==◌, if◌then◌else◌, ◌>>=◌,
}
use sigil_siem.Prelude.Int.{ℤ, pos, ◌*ℤ◌, i64, leb_ℤ, sub_ℕ}
use sigil_siem.Prelude.Texts.{Text}
use sigil_siem.Condition.Lexer.{is_whitespace}

-- `panicked` stands for a panic of the process.
pub data Parsed {ℓ} (A : Type ℓ) : Type ℓ where
  ok : A → Parsed A
  invalid : Parsed A
  panicked : Parsed A

unfoldable pub trim_start : Text → Text
trim_start [] = []
trim_start (c ∷ s) = let rest = trim_start s in if is_whitespace c then rest else c ∷ s

-- A blank is kept where something other than blanks follows it.
abbrev pub keep_before : ℕ → Text → Text
keep_before c [] = if is_whitespace c then [] else c ∷ []
keep_before c (d ∷ s) = c ∷ d ∷ s

unfoldable pub trim_end : Text → Text
trim_end [] = []
trim_end (c ∷ s) = keep_before c (trim_end s)

unfoldable pub trim : Text → Text
unfolding trim_start trim_end
trim s = trim_end (trim_start s)

-- The text without its last character, and that character.
unfoldable pub split_last : Text → Option (Text × ℕ)
split_last [] = none
split_last (c ∷ s) = elim (split_last s) [ none ↦ some ([], c) | some r ↦ some (c ∷ r.0, r.1) ]

-- Digits of a number below a bound.
unfoldable pub digits_below : ℕ → ℕ → Text → Option ℕ
digits_below bound n [] = some n
digits_below bound n (c ∷ s) =
    let more = digits_below bound (n * 10 + (c - b'0')) s in
    if leb b'0' c && leb c b'9' && ltb (n * 10 + (c - b'0')) bound then more else none

-- `parse::<i64>`, without a sign.
abbrev pub parse_unsigned : Text → Option ℤ
parse_unsigned [] = none
parse_unsigned (c ∷ s) = do n ← digits_below (2 ^ 63) 0 (c ∷ s); some (pos n)

abbrev pub parse_negative : Text → Option ℤ
parse_negative [] = none
parse_negative (c ∷ s) = do n ← digits_below (2 ^ 63 + 1) 0 (c ∷ s); some (sub_ℕ 0 n)

unfoldable pub parse_i64 : Text → Option ℤ
unfolding digits_below
parse_i64 [] = none
parse_i64 (c ∷ s) =
    if c == b'+'
    then parse_unsigned s
    else if c == b'-'
    then parse_negative s
    else parse_unsigned (c ∷ s)

-- The seconds of a unit.
unfoldable pub unit_secs : ℕ → Option ℕ
unit_secs u =
    if u == b's'
    then some 1
    else if u == b'm'
    then some 60
    else if u == b'h'
    then some 3600
    else if u == b'd'
    then some 86400
    else none

abbrev pub micros_of : ℤ → ℕ → Parsed ℤ
micros_of n k =
    let secs = i64 (n *ℤ pos k) in
    if leb_ℤ secs (pos 0) then invalid else ok (i64 (secs *ℤ pos 1000000))

abbrev pub with_unit : Option ℤ → Option ℕ → Parsed ℤ
with_unit none unit = invalid
with_unit (some n) none = invalid
with_unit (some n) (some k) = micros_of n k

-- `split_at` one byte before the end panics inside a character of several bytes.
abbrev pub read_span : Option (Text × ℕ) → Parsed ℤ
read_span none = invalid
read_span (some r) = if leb 0x80 r.1 then panicked else with_unit (parse_i64 r.0) (unit_secs r.1)

unfoldable pub parse_timespan : Text → Parsed ℤ
unfolding trim split_last parse_i64 unit_secs
parse_timespan s = read_span (split_last (trim s))

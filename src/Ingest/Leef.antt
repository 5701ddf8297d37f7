-- ===== src/Ingest/Leef.antt =====
-- `parse_leef` of crates/sigil-ingest/src/leef.rs.
use sigil_siem.Prelude.{
  ℕ, zero, suc, ◌>>=◌, ◌+◌, ◌-◌, ◌*◌, ◌^◌, Bool, true, false, ◌&&◌, ◌||◌, Option, none, some, List,
  [], ◌∷◌, ◌++◌, drop, ltb, leb, ◌==◌, if◌then◌else◌, unwrap_or,
}
use sigil_siem.Prelude.Texts.{Text, codes, starts_with}
use sigil_siem.Correlation.Timespan.{trim}
use sigil_siem.Ingest.Record.{Fields, Record, put_field, get_field, dead_letter}

-- `split_once(sep)`: what stands before and behind the first `sep`.
abbrev pub before_rest : ℕ → Option (Text × Text) → Option (Text × Text)
before_rest c none = none
before_rest c (some (s, t)) = some (c ∷ s, t)

unfoldable pub split_once : ℕ → Text → Option (Text × Text)
split_once sep [] = none
split_once sep (c ∷ s) =
    let rest = split_once sep s in if c == sep then some ([], s) else before_rest c rest

-- `splitn(n, sep)`
unfoldable pub splitn : ℕ → ℕ → Text → List Text
splitn zero sep s = []
splitn (suc zero) sep s = s ∷ []
splitn (suc (suc n)) sep s = elim (split_once sep s) [
  | none ↦ s ∷ []
  | some r ↦ r.0 ∷ splitn (suc n) sep r.1
]

-- `split(sep)`
abbrev pub onto_first : ℕ → List Text → List Text
onto_first c [] = (c ∷ []) ∷ []
onto_first c (p ∷ ps) = (c ∷ p) ∷ ps

unfoldable pub split_on : ℕ → Text → List Text
split_on sep [] = [] ∷ []
split_on sep (c ∷ s) =
    let parts = split_on sep s in if c == sep then [] ∷ parts else onto_first c parts

-- The value of a hexadecimal digit.
unfoldable pub hex_digit : ℕ → Option ℕ
hex_digit c =
    if leb b'0' c && leb c b'9'
    then some (c - b'0')
    else if leb b'a' c && leb c b'f'
    then some (c - b'a' + 10)
    else if leb b'A' c && leb c b'F'
    then some (c - b'A' + 10)
    else none

-- `u32::from_str_radix(s, 16)`: digits, with a plus sign before them or not.
unfoldable pub hex_digits : ℕ → Text → Option ℕ
unfolding hex_digit
hex_digits n [] = some n
hex_digits n (c ∷ s) = elim (hex_digit c) [
  | none ↦ none
  | some d ↦ if ltb (16 * n + d) (2 ^ 32) then hex_digits (16 * n + d) s else none
]

unfoldable pub from_hex : Text → Option ℕ
from_hex [] = none
from_hex (c ∷ []) = hex_digits 0 (c ∷ [])
from_hex (c ∷ d ∷ s) = if c == b'+' then hex_digits 0 (d ∷ s) else hex_digits 0 (c ∷ d ∷ s)

-- `char::from_u32`
unfoldable pub from_u32 : ℕ → Option ℕ
from_u32 n = if ltb n 0xd800 || (leb 0xe000 n && ltb n 0x110000) then some n else none

-- `strip_prefix("0x").or_else(|| strip_prefix('x'))`
unfoldable pub strip_x : Text → Option Text
strip_x s =
    if starts_with s (codes "0x")
    then some (drop 2 s)
    else if starts_with s (codes "x")
    then some (drop 1 s)
    else none

unfoldable pub parse_delim : Text → ℕ
unfolding from_hex from_u32 strip_x
parse_delim spec =
    let s = trim spec in
    let hex = (do digits ← strip_x s; n ← from_hex digits; from_u32 n) in
    elim s [ [] ↦ b'\t' | c ∷ rest ↦ unwrap_or hex c ]

-- One pair of the attributes.
abbrev pub put_named : Text → Text → Fields → Fields
put_named [] v fields = fields
put_named (c ∷ cs) v fields = put_field (c ∷ cs) v fields

abbrev pub put_pair : Option (Text × Text) → Fields → Fields
put_pair none fields = fields
put_pair (some (k, v)) fields = put_named (trim k) v fields

-- The loop over the attributes.
unfoldable pub put_attributes : List Text → Fields → Fields
put_attributes [] fields = fields
put_attributes (pair ∷ pairs) fields = put_attributes pairs (put_pair (split_once b'=' pair) fields)

-- An explicit `msg`, or the identifier of the event.
unfoldable pub message_of : Text → Fields → Text
message_of id fields = unwrap_or (get_field (codes "msg") fields) (codes "LEEF event " ++ id)

-- The fields of a line with all the segments of its version.
unfoldable pub leef_fields : Text → Text → Text → Text → Text → ℕ → Text → Fields
leef_fields version vendor product device id delim attributes =
    let header = put_field (codes "event_id") id (
      put_field (codes "device_version") device (
        put_field (codes "device_product") product (
          put_field (codes "device_vendor") vendor
            (put_field (codes "leef_version") (trim version) [])))) in
    let fields = put_attributes (split_on delim attributes) header in
    put_field (codes "message") (message_of id fields) fields

-- The segments of the two versions: the second has the delimiter before the attributes.
abbrev pub read_segments : Text → Text → List ℕ → Bool → List Text → Record
read_segments line version raw true (a ∷ b ∷ c ∷ id ∷ delim ∷ attributes ∷ []) = record {
  fields = leef_fields version a b c id (parse_delim delim) attributes;
  raw = raw;
}
read_segments line version raw false (a ∷ b ∷ c ∷ id ∷ attributes ∷ []) = record {
  fields = leef_fields version a b c id b'\t' attributes;
  raw = raw;
}
read_segments line version raw _ _ = dead_letter line raw (codes "incomplete LEEF header")

-- What follows the first `LEEF:`.
unfoldable pub after_leef : Text → Option Text
after_leef [] = none
after_leef (c ∷ s) =
    let rest = after_leef s in
    if starts_with (c ∷ s) (codes "LEEF:") then some (drop 5 (c ∷ s)) else rest

abbrev pub read_version : Text → List ℕ → Option (Text × Text) → Record
read_version line raw none = dead_letter line raw (codes "incomplete LEEF header")
read_version line raw (some (version, after_ver)) =
    let is_v2 = starts_with (trim version) (codes "2") in
    read_segments line version raw is_v2 (splitn (if is_v2 then 6 else 5) b'|' after_ver)

abbrev pub read_leef : Text → List ℕ → Option Text → Record
read_leef line raw none = dead_letter line raw (codes "no LEEF: header")
read_leef line raw (some rest) = read_version line raw (split_once b'|' rest)

unfoldable pub parse_leef : Text → List ℕ → Record
parse_leef line raw = read_leef line raw (after_leef line)

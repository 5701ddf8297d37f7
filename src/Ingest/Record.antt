-- ===== src/Ingest/Record.antt =====
-- `parse_cef` of crates/sigil-ingest/src/cef.rs. The matches of the regular expression for keys are a
-- parameter: each with its name and its place, in the order of the text and apart.
use sigil_siem.Prelude.{
  ℕ, ◌-◌, ◌≡◌, refl, inl, inr, Bool, true, false, ◌||◌, Option, none, some, List, [], ◌∷◌, length,
  take, drop, filter, get_elem?, unwrap_or, ltb, ◌==◌, if◌then◌else◌, arith, Bool-cases,
}
use sigil_siem.Prelude.Texts.{Text, codes, text_eq, starts_with}
use sigil_siem.Correlation.Timespan.{trim}
use sigil_siem.Ingest.Cef.{split_header, unescape}

-- `BTreeMap<String, Value>`, where every value is a text.
abbrev pub Fields : Type 0
Fields = List (Text × Text)

unfoldable pub put_field : Text → Text → Fields → Fields
put_field k v [] = (k, v) ∷ []
put_field k v ((j, w) ∷ fields) =
    let rest = put_field k v fields in if text_eq k j then (k, v) ∷ fields else (j, w) ∷ rest

unfoldable pub get_field : Text → Fields → Option Text
get_field k [] = none
get_field k ((j, w) ∷ fields) =
    let rest = get_field k fields in if text_eq k j then some w else rest

pub record Record : Type 0 where
  pub fields : Fields
  pub raw : List ℕ

unfoldable pub dead_letter : Text → List ℕ → Text → Record
dead_letter line raw err = record {
  fields = put_field (codes "decode_error") err (put_field (codes "message") line []);
  raw = raw;
}

-- What follows the first `CEF:`.
unfoldable pub after_marker : Text → Option Text
after_marker [] = none
after_marker (c ∷ s) =
    let rest = after_marker s in
    if starts_with (c ∷ s) (codes "CEF:") then some (drop 4 (c ∷ s)) else rest

abbrev pub header_keys : List Text
header_keys =
    codes "cef_version"
    ∷ codes "device_vendor"
    ∷ codes "device_product"
    ∷ codes "device_version"
    ∷ codes "signature_id"
    ∷ codes "name"
    ∷ codes "cef_severity"
    ∷ []

-- The loop over the keys and the parts, as far as both go.
unfoldable pub put_header : List Text → List Text → Fields → Fields
put_header (k ∷ ks) (p ∷ ps) fields = put_header ks ps (put_field k p fields)
put_header _ _ fields = fields

-- A match of the regular expression for keys: the key, where it starts, and where its `=` ends.
pub record Capture : Type 0 where
  pub key : Text
  pub start : ℕ
  pub stop : ℕ

-- `u8::is_ascii_whitespace`
unfoldable pub is_ascii_whitespace : ℕ → Bool
is_ascii_whitespace c = c == 32 || c == 9 || c == 10 || c == 12 || c == 13

-- A key stands at the start or behind a blank.
unfoldable pub at_word : Text → Capture → Bool
at_word ext k =
    if k.start == 0
    then true
    else (elim (get_elem? ext (k.start - 1)) [ none ↦ false | some c ↦ is_ascii_whitespace c ])

-- Where the value ends: at the next key, or with the text.
unfoldable pub value_end : Text → List Capture → ℕ
value_end ext [] = length ext
value_end ext (k ∷ ks) = k.start

-- The loop over the keys.
unfoldable pub put_values : Text → List Capture → Fields → Fields
unfolding value_end
put_values ext [] fields = fields
put_values ext (k ∷ ks) fields =
    let value = trim (take (value_end ext ks - k.stop) (drop k.stop ext)) in
    put_values ext ks (put_field k.key (unescape value) fields)

unfoldable pub parse_extension : (Text → List Capture) → Text → Fields → Fields
parse_extension captures ext fields = put_values ext (filter (at_word ext) (captures ext)) fields

abbrev pub extended : (Text → List Capture) → Option Text → Fields → Fields
extended captures none fields = fields
extended captures (some ext) fields = parse_extension captures ext fields

-- The fields of a line whose header has its 7 fields.
unfoldable pub read_fields : (Text → List Capture) → List Text → Fields
unfolding put_header
read_fields captures parts = extended captures (get_elem? parts 7) (
    put_field (codes "message") (unwrap_or (get_elem? parts 5) [])
      (put_header header_keys parts []))

abbrev pub read_body : (Text → List Capture) → Text → List ℕ → Option Text → Record
read_body captures line raw none = dead_letter line raw (codes "no CEF: header")
read_body captures line raw (some body) =
    let parts = split_header body in
    if ltb (length parts) 7
    then dead_letter line raw (codes "incomplete CEF header")
    else record { fields = read_fields captures parts; raw = raw }

unfoldable pub parse_cef : (Text → List Capture) → Text → List ℕ → Record
parse_cef captures line raw = read_body captures line raw (after_marker line)

-- The bytes are kept, whatever the line.
pub parse_cef-raw :
    (captures : Text → List Capture) (line : Text) (raw : List ℕ)
    → (parse_cef captures line raw).raw ≡ raw
unfolding parse_cef dead_letter
parse_cef-raw captures line raw = by_body (after_marker line)
  where
    by_body : (o : Option Text) → (read_body captures line raw o).raw ≡ raw
    by_body none = refl
    by_body (some body) = elim (Bool-cases (ltb (length (split_header body)) 7)) [
      | inl few ↦ ground arith
      | inr enough ↦ ground arith
    ]

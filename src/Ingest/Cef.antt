-- ===== src/Ingest/Cef.antt =====
-- The header of a CEF line of crates/sigil-ingest/src/cef.rs, and the escapes of its values.
use sigil_siem.Prelude.{
  ℕ, true, false, ◌&&◌, List, [], ◌∷◌, ◌++◌, length, ltb, ◌==◌, if◌then◌else◌, any,
}
use sigil_siem.Prelude.Texts.{Text}

-- What a backslash and the character behind it stand for in the header.
unfoldable pub header_escape : ℕ → Text
header_escape d = if d == b'|' then b'|' ∷ [] else if d == b'\\' then b'\\' ∷ [] else b'\\' ∷ d ∷ []

-- A character without a backslash before it: an open `|` ends a field, of which there are 7.
unfoldable pub take_char : List Text → Text → ℕ → List Text × Text
take_char parts cur c =
    if c == b'|' && ltb (length parts) 7 then (parts ++ cur ∷ [], []) else (parts, cur ++ c ∷ [])

-- The loop over the characters, with the parts so far and the current one.
unfoldable pub split_loop : List Text → Text → Text → List Text
unfolding take_char header_escape
split_loop parts cur [] = parts ++ cur ∷ []
split_loop parts cur (c ∷ []) =
    let r = take_char parts cur c in
    if c == b'\\' then parts ++ (cur ++ b'\\' ∷ []) ∷ [] else r.0 ++ r.1 ∷ []
split_loop parts cur (c ∷ d ∷ cs) = elim (c == b'\\') [
  | true ↦ split_loop parts (cur ++ header_escape d) cs
  | false ↦ let r = take_char parts cur c in split_loop r.0 r.1 (d ∷ cs)
]

unfoldable pub split_header : Text → List Text
split_header body = split_loop [] [] body

-- What a backslash and the character behind it stand for in a value of the extension.
unfoldable pub value_escape : ℕ → Text
value_escape d =
    if d == b'='
    then b'=' ∷ []
    else if d == b'\\'
    then b'\\' ∷ []
    else if d == b'n'
    then b'\n' ∷ []
    else if d == b'r'
    then b'\r' ∷ []
    else b'\\' ∷ d ∷ []

-- The loop of `unescape`.
unfoldable pub unescape_loop : Text → Text
unfolding value_escape
unescape_loop [] = []
unescape_loop (c ∷ []) = c ∷ []
unescape_loop (c ∷ d ∷ cs) = elim (c == b'\\') [
  | true ↦ value_escape d ++ unescape_loop cs
  | false ↦ c ∷ unescape_loop (d ∷ cs)
]

unfoldable pub unescape : Text → Text
unescape s = if any (λ c. c == b'\\') s then unescape_loop s else s

-- ===== src/Ingest/Headers.antt =====
-- Headers written with their escapes are read back, for crates/sigil-ingest/src/cef.rs.
use sigil_siem.Prelude.{
  ℕ, ◌+◌, ◌≤◌, ◌<◌, ◌≢◌, All, ◌≡◌, refl, ap, sym, ◌∙◌, inl, inr, false, List, [], ◌∷◌, ◌++◌, length,
  ◌==◌, if◌then◌else◌, arith, append-nil, append_assoc, length-append, Bool-cases,
}
use sigil_siem.Prelude.Texts.{Text}
use sigil_siem.Ingest.Cef.{split_loop, split_header, take_char, header_escape}

-- A field with its `|` and its backslashes escaped.
abbrev pub escaped_char : ℕ → Text
escaped_char c =
    if (c == b'|') then b'\\' ∷ b'|' ∷ [] else if c == b'\\' then b'\\' ∷ b'\\' ∷ [] else c ∷ []

abbrev pub escaped : Text → Text
escaped [] = []
escaped (c ∷ cs) = escaped_char c ++ escaped cs

-- Fields, each with a `|` behind it, and what follows them.
abbrev pub header : List Text → Text → Text
header [] tail = tail
header (f ∷ fs) tail = escaped f ++ b'|' ∷ header fs tail

plain_step :
    (parts : List Text) (cur : Text) (c : ℕ) (cs : Text)
    → c == b'\\' ≡ false
    → split_loop parts cur (c ∷ cs)
      ≡ split_loop (take_char parts cur c).0 (take_char parts cur c).1 cs
unfolding split_loop
plain_step parts cur c [] h = ground arith
plain_step parts cur c (d ∷ cs) h = ground arith

escape_step :
    (parts : List Text) (cur : Text) (c : ℕ) (cs : Text)
    → split_loop parts cur (escaped_char c ++ cs) ≡ split_loop parts (cur ++ c ∷ []) cs
unfolding split_loop header_escape take_char
escape_step parts cur c cs = elim (Bool-cases (c == b'|')) [
  | inl bar ↦ ground arith
  | inr other ↦ elim (Bool-cases (c == b'\\')) [
    | inl slash ↦ ground arith
    | inr plain ↦ ground (arith, plain_step parts cur c cs plain)
  ]
]

escaped-split_loop :
    (parts : List Text) (cur f rest : Text)
    → split_loop parts cur (escaped f ++ rest) ≡ split_loop parts (cur ++ f) rest
escaped-split_loop parts cur [] rest = rw (append-nil cur)
escaped-split_loop parts cur (c ∷ f) rest = rw (append_assoc (escaped_char c) (escaped f) rest) (
    escape_step parts cur c (escaped f ++ rest)
    ∙ escaped-split_loop parts (cur ++ c ∷ []) f rest
    ∙ ap (λ k. split_loop parts k rest) (append_assoc cur (c ∷ []) f))

-- An open `|` ends a field, but for the extension.
bar_step :
    (parts : List Text) (cur cs : Text)
    → length parts < 7
    → split_loop parts cur (b'|' ∷ cs) ≡ split_loop (parts ++ cur ∷ []) [] cs
unfolding take_char
bar_step parts cur cs few = ground (arith, plain_step parts cur b'|' cs refl)

header-split_loop :
    (parts fs : List Text) (tail : Text)
    → length parts + length fs ≤ 7
    → split_loop parts [] (header fs tail) ≡ split_loop (parts ++ fs) [] tail
header-split_loop parts [] tail few = rw (append-nil parts)
header-split_loop parts (f ∷ fs) tail few =
    escaped-split_loop parts [] f (b'|' ∷ header fs tail)
    ∙ bar_step parts f (header fs tail) (omega arith)
    ∙ header-split_loop (parts ++ f ∷ []) fs tail (omega (arith, length-append parts (f ∷ [])))
    ∙ ap (λ p. split_loop p [] tail) (append_assoc parts (f ∷ []) fs)

last_part :
    (fs : List Text) (last : Text)
    → length fs ≤ 7
    → split_header (header fs (escaped last)) ≡ fs ++ last ∷ []
unfolding split_header split_loop
last_part fs last few =
    header-split_loop [] fs (escaped last) (omega arith)
    ∙ ap (split_loop fs []) (sym (append-nil (escaped last)))
    ∙ escaped-split_loop fs [] last []

abbrev pub HasNoBackslash : Text → Type 0
HasNoBackslash = All (λ c. c ≢ b'\\')

extension-split_loop :
    (parts : List Text) (cur ext : Text)
    → length parts ≡ 7
    → HasNoBackslash ext
    → split_loop parts cur ext ≡ parts ++ (cur ++ ext) ∷ []
unfolding split_loop take_char
extension-split_loop parts cur [] full h = rw (append-nil cur)
extension-split_loop parts cur (c ∷ ext) full (plain, h) =
    plain_step parts cur c ext (ground arith)
    ∙ stays
    ∙ extension-split_loop parts (cur ++ c ∷ []) ext full h
    ∙ ap (λ k. parts ++ k ∷ []) (append_assoc cur (c ∷ []) ext)
  where
    stays :
        split_loop (take_char parts cur c).0 (take_char parts cur c).1 ext
        ≡ split_loop parts (cur ++ c ∷ []) ext
    stays = ground arith

-- A line of 7 header fields, each with its bars and backslashes escaped and with a bar behind it, and
-- of an extension is split into the fields as they were and the extension, if that has no backslash;
-- its bars need no escape.
pub split_header-extension :
    (fs : List Text) (ext : Text)
    → length fs ≡ 7
    → HasNoBackslash ext
    → split_header (header fs ext) ≡ fs ++ ext ∷ []
unfolding split_header
split_header-extension fs ext full h =
    header-split_loop [] fs ext (omega arith) ∙ extension-split_loop fs [] ext full h

-- The 7 fields, and an extension with escapes: the header's rules are applied to the extension too.
pub extension_unescaped :
    (fs : List Text) (ext : Text)
    → length fs ≡ 7
    → split_header (header fs (escaped ext)) ≡ fs ++ ext ∷ []
extension_unescaped fs ext full = last_part fs ext (omega arith)

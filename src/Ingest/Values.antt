-- ===== src/Ingest/Values.antt =====
-- Values of the extension written with their escapes are read back, for
-- crates/sigil-ingest/src/cef.rs.
use sigil_siem.Prelude.{
  All, ◌≢◌, ℕ, ◌≡◌, refl, ap, ◌∙◌, inl, inr, false, [], ◌∷◌, ◌++◌, any, ◌==◌, if◌then◌else◌, arith,
  Bool-cases, sym,
}
use sigil_siem.Prelude.Texts.{Text}
use sigil_siem.Ingest.Cef.{value_escape, unescape_loop, unescape}

abbrev pub value_char : ℕ → Text
value_char c =
    if c == b'='
    then b'\\' ∷ b'=' ∷ []
    else if c == b'\\'
    then b'\\' ∷ b'\\' ∷ []
    else if c == b'\n'
    then b'\\' ∷ b'n' ∷ []
    else if c == b'\r'
    then b'\\' ∷ b'r' ∷ []
    else c ∷ []

-- A value with its `=`, backslashes, line feeds and carriage returns escaped.
abbrev pub value_escaped : Text → Text
value_escaped [] = []
value_escaped (c ∷ cs) = value_char c ++ value_escaped cs

unescape_loop-plain :
    (c : ℕ) (cs : Text) → c == b'\\' ≡ false → unescape_loop (c ∷ cs) ≡ c ∷ unescape_loop cs
unfolding unescape_loop
unescape_loop-plain c [] h = refl
unescape_loop-plain c (d ∷ cs) h = ground arith

unescape_loop-value_char :
    (c : ℕ) (cs : Text) → unescape_loop (value_char c ++ cs) ≡ c ∷ unescape_loop cs
unfolding unescape_loop value_escape
unescape_loop-value_char c cs = ground (arith, unescape_loop-plain c cs)

unescape_loop-value_escaped : (v : Text) → unescape_loop (value_escaped v) ≡ v
unfolding unescape_loop
unescape_loop-value_escaped [] = refl
unescape_loop-value_escaped (c ∷ v) =
    unescape_loop-value_char c (value_escaped v) ∙ ap (λ k. c ∷ k) (unescape_loop-value_escaped v)

-- The early return gives what the loop would.
unescape-unescape_loop : (s : Text) → unescape s ≡ unescape_loop s
unfolding unescape unescape_loop
unescape-unescape_loop s = elim (Bool-cases (any (λ c. c == b'\\') s)) [
  | inl some_slash ↦ rw some_slash refl
  | inr none_of ↦ rw none_of (sym (stays s none_of))
]
  where
    stays : (s : Text) → any (λ c. c == b'\\') s ≡ false → unescape_loop s ≡ s
    stays [] h = refl
    stays (c ∷ s) h =
        unescape_loop-plain c s (ground arith) ∙ ap (λ k. c ∷ k) (stays s (ground arith))

-- Every value that is written with its escapes is read back as it was.
pub unescape-value_escaped : (v : Text) → unescape (value_escaped v) ≡ v
unescape-value_escaped v = unescape-unescape_loop (value_escaped v) ∙ unescape_loop-value_escaped v

-- Neither a bar nor a character that the values have an escape for, but the backslash.
abbrev pub IsPlain : Text → Type 0
IsPlain = All (λ c. (c ≢ b'|') × (c ≢ b'=') × (c ≢ b'\n') × (c ≢ b'\r'))

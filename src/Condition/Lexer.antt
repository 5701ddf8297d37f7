-- ===== src/Condition/Lexer.antt =====
-- `tokenize` of crates/sigil-sigma/src/condition.rs.
use sigil_siem.Prelude.{
  ℕ, ◌+◌, ◌-◌, ◌*◌, ◌^◌, Bool, ◌&&◌, ◌||◌, Option, none, some, List, [], ◌∷◌, ◌++◌, map, ltb, leb,
  ◌==◌, if◌then◌else◌,
}
use sigil_siem.Prelude.Texts.{Text, codes, text_eq, ascii_lower}
use sigil_siem.Condition.Syntax.{Tok}

-- `char::is_whitespace`: the code points with the property White_Space.
unfoldable pub is_whitespace : ℕ → Bool
is_whitespace c =
    (leb 9 c && leb c 13)
    || c == 0x20
    || c == 0x85
    || c == 0xa0
    || c == 0x1680
    || (leb 0x2000 c && leb c 0x200a)
    || c == 0x2028
    || c == 0x2029
    || c == 0x202f
    || c == 0x205f
    || c == 0x3000

-- `replace('(', " ( ").replace(')', " ) ")`
unfoldable pub space_parens : Text → Text
space_parens [] = []
space_parens (c ∷ s) =
    let rest = space_parens s in
    if c == b'('
    then 0x20 ∷ b'(' ∷ 0x20 ∷ rest
    else if c == b')'
    then 0x20 ∷ b')' ∷ 0x20 ∷ rest
    else c ∷ rest

-- A finished word is kept unless it is empty.
abbrev pub close_word : Text → List Text → List Text
close_word [] ws = ws
close_word (c ∷ w) ws = (c ∷ w) ∷ ws

-- `split_whitespace`, with the word under way.
unfoldable pub words_from : Text → Text → List Text
words_from w [] = close_word w []
words_from w (c ∷ s) =
    let closed = close_word w (words_from [] s) in
    let longer = words_from (w ++ c ∷ []) s in if is_whitespace c then closed else longer

-- `parse::<usize>` of digits, which fails past 2 ^ 64 - 1.
unfoldable pub digits_value : ℕ → Text → Option ℕ
digits_value n [] = some n
digits_value n (c ∷ s) =
    let more = digits_value (n * 10 + (c - b'0')) s in
    if leb b'0' c && leb c b'9' && ltb (n * 10 + (c - b'0')) (2 ^ 64) then more else none

-- A sign `+` is allowed, and a digit is needed.
unfoldable pub parse_usize : Text → Option ℕ
unfolding digits_value
parse_usize [] = none
parse_usize (c ∷ []) = if c == b'+' then none else digits_value 0 (c ∷ [])
parse_usize (c ∷ d ∷ s) = if c == b'+' then digits_value 0 (d ∷ s) else digits_value 0 (c ∷ d ∷ s)

-- The token of a word.
unfoldable pub token : Text → Tok
unfolding parse_usize
token word =
    let lower = map ascii_lower word in
    if text_eq lower (codes "and")
    then Tok.and
    else if text_eq lower (codes "or")
    then Tok.or
    else if text_eq lower (codes "not")
    then Tok.not
    else if text_eq lower (codes "of")
    then Tok.of
    else if text_eq lower (codes "them")
    then Tok.them
    else if text_eq lower (codes "all")
    then Tok.all
    else if text_eq lower (codes "(")
    then Tok.lparen
    else if text_eq lower (codes ")")
    then Tok.rparen
    else elim (parse_usize word) [ some n ↦ Tok.num n | none ↦ Tok.ident word ]

abbrev pub nonempty : List Tok → Option (List Tok)
nonempty [] = none
nonempty (t ∷ ts) = some (t ∷ ts)

-- `none` is the error of an empty condition.
unfoldable pub tokenize : Text → Option (List Tok)
unfolding space_parens words_from token
tokenize input = nonempty (map token (words_from [] (space_parens input)))

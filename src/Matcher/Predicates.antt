-- ===== src/Matcher/Predicates.antt =====
-- `StringPredicate` of crates/sigil-sigma/src/matcher.rs. The regular expressions of the crate
-- `regex`, and the lower case of all Unicode, are parameters.
use sigil_siem.Prelude.{
  Bool, true, false, ◌||◌, Option, none, some, [], ◌∷◌, ◌++◌, any, ◌==◌, if◌then◌else◌,
}
use sigil_siem.Prelude.Texts.{Text, text_eq, codes, starts_with}
use sigil_siem.Matcher.Modifiers.{BaseMatch, Modifiers}

-- `compile` is `Regex::new`, with `none` for its errors, and `escape` is `regex::escape`.
pub record Library : Type 1 where
  pub Regex : Type 0
  pub compile : Text → Option Regex
  pub is_match : Regex → Text → Bool
  pub escape : Text → Text
  pub to_lowercase : Text → Text

pub data StringPredicate (L : Library) : Type 0 where
  equals : Text → StringPredicate L
  contains : Text → StringPredicate L
  starting : Text → StringPredicate L
  ending : Text → StringPredicate L
  regex : L.Regex → StringPredicate L
  is_null : StringPredicate L

-- `str::contains` and `str::ends_with`
unfoldable pub has_substring : Text → Text → Bool
has_substring [] t = starts_with [] t
has_substring (c ∷ s) t = starts_with (c ∷ s) t || has_substring s t

unfoldable pub ends_with : Text → Text → Bool
ends_with [] t = text_eq [] t
ends_with (c ∷ s) t = text_eq (c ∷ s) t || ends_with s t

-- `value.contains('*') || value.contains('?')`
unfoldable pub has_wild : Text → Bool
has_wild value = any (λ c. c == b'*') value || any (λ c. c == b'?') value

unfoldable pub wildcard_body : Library → Text → Text
wildcard_body L [] = []
wildcard_body L (c ∷ s) =
    let rest = wildcard_body L s in
    if c == b'*'
    then b'.' ∷ b'*' ∷ rest
    else if c == b'?'
    then b'.' ∷ rest
    else L.escape (c ∷ []) ++ rest

unfoldable pub wildcard_regex : (L : Library) → Text → Bool → Bool → Option L.Regex
unfolding wildcard_body
wildcard_regex L pattern_text anchor_start anchor_end = L.compile (
    codes "(?i)"
    ++ (if anchor_start then b'^' ∷ [] else [])
    ++ wildcard_body L pattern_text
    ++ (if anchor_end then b'$' ∷ [] else []))

abbrev pub regex_of : (L : Library) → Option L.Regex → Option (StringPredicate L)
regex_of L none = none
regex_of L (some re) = some (regex re)

abbrev pub build_base : (L : Library) → BaseMatch → Bool → Text → Option (StringPredicate L)
build_base L BaseMatch.equals true value = regex_of L (wildcard_regex L value true true)
build_base L BaseMatch.equals false value = some (equals (L.to_lowercase value))
build_base L BaseMatch.contains true value = regex_of L (wildcard_regex L value false false)
build_base L BaseMatch.contains false value = some (contains (L.to_lowercase value))
build_base L BaseMatch.starts_with true value = regex_of L (wildcard_regex L value true false)
build_base L BaseMatch.starts_with false value = some (starting (L.to_lowercase value))
build_base L BaseMatch.ends_with true value = regex_of L (wildcard_regex L value false true)
build_base L BaseMatch.ends_with false value = some (ending (L.to_lowercase value))
build_base L BaseMatch.regex wild value = regex_of L (L.compile (codes "(?i)" ++ value))

-- The predicate of a value; `none` is the error of a regular expression.
unfoldable pub build : (L : Library) → Option Text → Modifiers → Option (StringPredicate L)
unfolding has_wild wildcard_regex
build L none mods = some is_null
build L (some value) mods = build_base L mods.base (has_wild value) value

unfoldable pub matches : {L : Library} → StringPredicate L → Text → Bool
unfolding has_substring ends_with
matches {L} (equals v) candidate = text_eq (L.to_lowercase candidate) v
matches {L} (contains v) candidate = has_substring (L.to_lowercase candidate) v
matches {L} (starting v) candidate = starts_with (L.to_lowercase candidate) v
matches {L} (ending v) candidate = ends_with (L.to_lowercase candidate) v
matches {L} (regex re) candidate = L.is_match re candidate
matches is_null candidate = false

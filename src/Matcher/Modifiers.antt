-- ===== src/Matcher/Modifiers.antt =====
-- `Modifiers` of crates/sigil-sigma/src/matcher.rs.
use sigil_siem.Prelude.{
  ℕ, Bool, true, false, Option, none, some, List, [], ◌∷◌, ◌==◌, if◌then◌else◌, ◌>>=◌,
}
use sigil_siem.Prelude.Texts.{Text, text_eq, codes}

pub data BaseMatch : Type 0 where
  equals : BaseMatch
  contains : BaseMatch
  starts_with : BaseMatch
  ends_with : BaseMatch
  regex : BaseMatch

pub record Modifiers : Type 0 where
  pub base : BaseMatch
  pub all : Bool

abbrev pub cons_part : ℕ → List Text → List Text
cons_part c [] = (c ∷ []) ∷ []
cons_part c (part ∷ parts) = (c ∷ part) ∷ parts

-- `split('|')`
unfoldable pub split_bar : Text → List Text
split_bar [] = [] ∷ []
split_bar (c ∷ s) = let parts = split_bar s in if c == b'|' then [] ∷ parts else cons_part c parts

-- One modifier; `none` is the error of an unknown one.
unfoldable pub modify : Text → Modifiers → Option Modifiers
modify m mods =
    if text_eq m (codes "contains")
    then some (record mods { base = contains })
    else if text_eq m (codes "startswith")
    then some (record mods { base = starts_with })
    else if text_eq m (codes "endswith")
    then some (record mods { base = ends_with })
    else if text_eq m (codes "re")
    then some (record mods { base = regex })
    else if text_eq m (codes "all")
    then some (record mods { all = true })
    else if text_eq m (codes "cased")
    then some mods
    else none

unfoldable pub modify_all : List Text → Modifiers → Option Modifiers
unfolding modify
modify_all [] mods = some mods
modify_all (m ∷ ms) mods = modify m mods >>= modify_all ms

abbrev pub parse_parts : List Text → Option (Text × Modifiers)
parse_parts [] = none
parse_parts (field ∷ parts) = do
  mods ← modify_all parts (record { base = equals; all = false })
  some (field, mods)

-- The first part is always there, so `none` is only the error of a modifier.
unfoldable pub parse_key : Text → Option (Text × Modifiers)
unfolding split_bar modify_all
parse_key field_key = parse_parts (split_bar field_key)

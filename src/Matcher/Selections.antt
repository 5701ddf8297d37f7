-- ===== src/Matcher/Selections.antt =====
-- `FieldCond`, `Selection` and `event_haystack` of crates/sigil-sigma/src/matcher.rs.
use sigil_siem.Prelude.{
  Bool, true, false, ◌||◌, Option, none, some, List, [], ◌∷◌, ◌++◌, any, all, if◌then◌else◌,
}
use sigil_siem.Prelude.Texts.{Text}
use sigil_siem.Event.Model.{Json, EntityRef, Event, value_to_string}
use sigil_siem.Event.Fields.{resolve_field}
use sigil_siem.Matcher.Predicates.{Library, StringPredicate, is_null, matches}

pub record FieldCond (L : Library) : Type 0 where
  pub field : Text
  pub all_of : Bool
  pub preds : List (StringPredicate L)

mutual
  pub data Selection (L : Library) : Type 0 where
    fields : List (FieldCond L) → Selection L
    any_of : Selections L → Selection L
    keywords : List (StringPredicate L) → Selection L

  pub data Selections (L : Library) : Type 0 where
    nil : Selections L
    cons : Selection L → Selections L → Selections L

abbrev pub no_candidates : List Text → Bool
no_candidates [] = true
no_candidates (c ∷ cs) = false

abbrev pub pred_hit : {L : Library} → List Text → StringPredicate L → Bool
pred_hit candidates is_null = no_candidates candidates
pred_hit candidates p = any (matches p) candidates

unfoldable pub eval_cond : {L : Library} {J : Json} → FieldCond L → Event J → Bool
unfolding matches
eval_cond cond event =
    let candidates = resolve_field event cond.field in
    if cond.all_of
    then all (pred_hit candidates) cond.preds
    else any (pred_hit candidates) cond.preds

unfoldable mutual
  pub eval_selection : {L : Library} {J : Json} → Selection L → Event J → Text → Bool
  eval_selection (fields conds) event haystack = all (λ c. eval_cond c event) conds
  eval_selection (any_of items) event haystack = any_selection items event haystack
  eval_selection (keywords preds) event haystack = any (λ p. matches p haystack) preds

  pub any_selection : {L : Library} {J : Json} → Selections L → Event J → Text → Bool
  any_selection nil event haystack = false
  any_selection (cons s items) event haystack =
      eval_selection s event haystack || any_selection items event haystack

unfoldable pub field_words : (J : Json) → List (Text × J.Value) → Text
field_words J [] = []
field_words J (entry ∷ rest) = 0x20 ∷ value_to_string J entry.1 ++ field_words J rest

abbrev pub entity_word : Option EntityRef → Text
entity_word none = []
entity_word (some e) = 0x20 ∷ e.id

unfoldable pub event_haystack : Library → {J : Json} → Event J → Text
unfolding field_words
event_haystack L {J} event = L.to_lowercase (
    event.message
    ++ field_words J event.fields
    ++ entity_word event.actor
    ++ entity_word event.host
    ++ entity_word event.target)

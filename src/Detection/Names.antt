-- ===== src/Detection/Names.antt =====
-- The names that the condition of a compiled rule in crates/sigil-sigma/src/engine.rs can select.
use mathlib.Core.Path.{subst, fun_ext}
use mathlib.Core.Option
use sigil_siem.Detection.Loading.{last_selection, last_condition, read_detection-Reads, right_none}
use sigil_siem.Prelude.{
  ap, ◌∙◌, Has, Option, ◌≡◌, ◌↔◌, refl, sym, Bool, true, none, some, List, [], ◌∷◌, map, Bool-cases,
  inl, inr, >>=-eq-some,
}
use sigil_siem.Prelude.Texts.{Text, text_eq, text_eq_iff}
use sigil_siem.Event.Model.{Json, Event, get}
use sigil_siem.Condition.Meaning.{Meaning, eval-Meaning}
use sigil_siem.Matcher.Predicates.{Library}
use sigil_siem.Matcher.Selections.{Selection, eval_selection, event_haystack}
use sigil_siem.Detection.Yaml.{Yaml}
use sigil_siem.Detection.Compile.{SigmaRule, CompiledRule, from_rule, read_detection, parsed_expr}
use sigil_siem.Condition.Parser.{parse}
use sigil_siem.Detection.Engine.{results, matches}

get-map :
    {V W : Type 0} (f : V → W) (n : Text) (entries : List (Text × V))
    → get n (map (λ entry. (entry.0, f entry.1)) entries) ≡ Option.map f (get n entries)
unfolding get
get-map f n [] = refl
get-map f n (entry ∷ rest) = elim (Bool-cases (text_eq entry.0 n)) [
  | inl same ↦ rw same refl
  | inr other ↦ rw other (get-map f n rest)
]

-- The keys are the names that are found.
Has-keys :
    {V : Type 0} (n : Text) (entries : List (Text × V))
    → Has n (map (λ entry. entry.0) entries) ↔ ((v : V) × (get n entries ≡ some v))
unfolding get
Has-keys n [] = (λ h. absurd h, λ h. absurd (let no : none ≡ some h.0 = h.1 in cc))
Has-keys n (entry ∷ rest) =
    let (to, from) = Has-keys n rest in
    elim (Bool-cases (text_eq entry.0 n)) [
      | inl same ↦ rw same (λ h. (entry.1, refl), λ h. inl (sym ((text_eq_iff entry.0 n).0 same)))
      | inr other ↦ rw other (
        λ h. elim h [
          | inl e ↦
              absurd (let yes : text_eq entry.0 n ≡ true = (text_eq_iff entry.0 n).1 (sym e) in cc)
          | inr k ↦ to k
        ],
        λ h. inr (from h),
      )
    ]

-- What a compiled rule has of its text: the selections of `detection`, the condition, and the names.
abbrev pub Compiles : (L : Library) (Y : Yaml) → SigmaRule Y → CompiledRule L → Type 0
Compiles L Y rule c =
    ((n : Text) → get n c.selections ≡ last_selection L Y n rule.detection)
    × ((str : Text) × (last_condition L Y rule.detection ≡ some str)
        × (parsed_expr (parse str) ≡ some c.condition))
    × (c.names ≡ map (λ entry. entry.0) c.selections)

from_rule-Compiles :
    (L : Library) (Y : Yaml) (to_uppercase : Text → Text) (rule : SigmaRule Y) (c : CompiledRule L)
    → from_rule L Y to_uppercase rule ≡ some c
    → Compiles L Y rule c
unfolding from_rule get
from_rule-Compiles L Y up rule c h =
    let (read, r, h1) = >>=-eq-some (read_detection L Y rule.detection [] none) _ h in
    let (str, s, h2) = >>=-eq-some read.1 _ h1 in
    let (condition, e, h3) = >>=-eq-some (parsed_expr (parse str)) _ h2 in
    let (names, ends) = read_detection-Reads L Y rule.detection [] read.0 none read.1 r in
    some-Compiles _ c
      (
        λ n. names n ∙ sym (right_none (last_selection L Y n rule.detection)),
        (str, right_none (last_condition L Y rule.detection) ∙ sym ends ∙ s, e),
        refl,
      )
      h3
  where
    some-Compiles :
        (d c : CompiledRule L) → Compiles L Y rule d → some d ≡ some c → Compiles L Y rule c
    some-Compiles d c k e = let same : d ≡ c = cc in subst (Compiles L Y rule) same k

-- What a selection says of an event, where there is one.
abbrev pub says_of : {L : Library} {J : Json} → Event J → Option (Selection L) → Option Bool
says_of {L} event o = Option.map (λ s. eval_selection s event (event_haystack L event)) o

-- A rule that compiles has for each key of `detection` but `condition` the selection that its last
-- entry compiles to, and these keys are its names; its condition is what the last entry for
-- `condition` is parsed to; and the rule matches an event exactly if the condition means something
-- true of what those selections say of the event.
pub from_rule-Meaning :
    (L : Library) (Y : Yaml) {J : Json} (to_uppercase : Text → Text) (rule : SigmaRule Y)
    (c : CompiledRule L) (event : Event J)
    → from_rule L Y to_uppercase rule ≡ some c
    → ((n : Text)
        → Has n c.names ↔ ((s : Selection L) × (last_selection L Y n rule.detection ≡ some s)))
      × ((str : Text) × (last_condition L Y rule.detection ≡ some str)
          × (parsed_expr (parse str) ≡ some c.condition))
      × ((matches c event ≡ true)
          ↔ Meaning c.condition (λ n. says_of event (last_selection L Y n rule.detection)) c.names)
unfolding matches results
from_rule-Meaning L Y up rule c event h =
    let (selections, condition, names) = from_rule-Compiles L Y up rule c h in
    (
      λ n.
          subst
            (λ ns. Has n ns ↔ ((s : Selection L) × (last_selection L Y n rule.detection ≡ some s)))
            (sym names)
            (subst
              (λ o.
                Has n (map (λ entry. entry.0) c.selections) ↔ ((s : Selection L) × (o ≡ some s)))
              (selections n) (Has-keys n c.selections)),
      condition,
      subst (λ f. (matches c event ≡ true) ↔ Meaning c.condition f c.names)
          (fun_ext (λ n.
            get-map (λ s. eval_selection s event (event_haystack L event)) n c.selections
            ∙ ap (says_of event) (selections n)))
          (eval-Meaning c.condition _ c.names),
    )

-- ===== src/Detection/Samples.antt =====
-- A rule on the user of an event.
use sigil_siem.Prelude.{
  ◌≡◌, ◌↔◌, ◌⊎◌, inl, inr, refl, Bool, Option, true, false, none, some, List, [], ◌∷◌, map,
}
use sigil_siem.Prelude.Int.{pos}
use sigil_siem.Prelude.Texts.{Text, text_eq, codes, ascii_lower}
use sigil_siem.Event.Kinds.{Severity, default_class}
use sigil_siem.Event.Model.{Json, Event}
use sigil_siem.Condition.Syntax.{Expr}
use sigil_siem.Condition.Meaning.{Meaning}
use sigil_siem.Condition.Lexer.{tokenize, is_whitespace}
use sigil_siem.Condition.Parser.{parse_tokens, parse_or}
use sigil_siem.Correlation.Rule.{level_to_severity, technique_from_tags}
use sigil_siem.Matcher.Modifiers.{parse_key}
use sigil_siem.Matcher.Predicates.{Library, StringPredicate, build}
use sigil_siem.Matcher.Selections.{Selection}
use sigil_siem.Detection.Yaml.{Node, Yaml}
use sigil_siem.Detection.Compile.{SigmaRule, CompiledRule, from_rule}
use sigil_siem.Detection.Engine.{matches}
use sigil_siem.Detection.Names.{from_rule-Meaning, says_of}
use sigil_siem.Detection.Loading.{last_selection, last_condition}
use sigil_siem.Detection.Compile.{parsed_expr}
use sigil_siem.Prelude.{Has}
use sigil_siem.Condition.Parser.{parse}

abbrev plain_library : Library
plain_library = record {
  Regex = Text;
  compile = λ s. some s;
  is_match = text_eq;
  escape = λ s. s;
  to_lowercase = map ascii_lower;
}

-- A text, or a mapping of texts to texts.
abbrev Doc : Type 0
Doc = Text ⊎ List (Text × Text)

abbrev doc_node : Doc → Node Doc
doc_node (inl s) = Node.string s
doc_node (inr entries) = Node.mapping (map (λ entry. (inl entry.0, inl entry.1)) entries)

abbrev doc_str : Doc → Option Text
doc_str (inl s) = some s
doc_str (inr entries) = none

abbrev doc_is_mapping : Doc → Bool
doc_is_mapping (inl s) = false
doc_is_mapping (inr entries) = true

abbrev doc_yaml : Yaml
doc_yaml = record {
  Value = Doc;
  view = doc_node;
  as_str = doc_str;
  is_mapping = doc_is_mapping;
  render = λ d. none;
}

abbrev plain_json : Json
plain_json = record { Value = Text; as_str = λ s. some s; to_string = λ s. s }

abbrev by_root : Event plain_json
by_root = record {
  id = codes "e1";
  ts = pos 1;
  ingest_ts = pos 1;
  ocsf_class = default_class;
  tenant = [];
  severity = Severity.low;
  host = none;
  actor = some (record { kind = codes "user"; id = codes "root"; name = none });
  target = none;
  message = [];
  fields = [];
  template_id = none;
  labels = [];
  raw = [];
}

abbrev root_rule : SigmaRule doc_yaml
root_rule = record {
  title = codes "r";
  id = none;
  level = none;
  detection =
      (inl (codes "s"), inr ((codes "user", codes "root") ∷ []))
      ∷ (inl (codes "condition"), inl (codes "not s"))
      ∷ [];
  tags = [];
}

abbrev root_compiled : CompiledRule plain_library
root_compiled = record {
  rule_id = codes "r";
  title = codes "r";
  severity = Severity.medium;
  technique = none;
  tags = [];
  selections =
      (
        codes "s",
        Selection.fields (
            record {
              field = codes "user";
              all_of = false;
              preds = StringPredicate.equals (codes "root") ∷ [];
            }
            ∷ []),
      )
      ∷ [];
  names = codes "s" ∷ [];
  condition = Expr.not (Expr.ref (codes "s"));
}

from_rule-Meaning_example :
    ((n : Text)
      → Has n root_compiled.names ↔ (
          (s : Selection plain_library) × (last_selection plain_library doc_yaml n
              root_rule.detection
            ≡ some s)))
    × ((str : Text) × (last_condition plain_library doc_yaml root_rule.detection ≡ some str)
        × (parsed_expr (parse str) ≡ some root_compiled.condition))
    × ((matches root_compiled by_root ≡ true)
        ↔ Meaning root_compiled.condition
            (λ n. says_of by_root (last_selection plain_library doc_yaml n root_rule.detection))
            root_compiled.names)
unfolding from_rule text_eq parse_key build tokenize is_whitespace parse_tokens parse_or ascii_lower
    level_to_severity technique_from_tags
from_rule-Meaning_example =
    from_rule-Meaning plain_library doc_yaml (λ s. s) root_rule root_compiled by_root refl

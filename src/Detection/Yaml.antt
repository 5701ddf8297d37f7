-- ===== src/Detection/Yaml.antt =====
-- The YAML values of a rule, as crates/sigil-sigma/src/engine.rs looks at them. The values of
-- serde_yaml are a parameter.
use sigil_siem.Prelude.{Bool, Option, List}
use sigil_siem.Prelude.Texts.{Text}

-- `plain` is a Boolean or a number with its `to_string`; `tagged` is any other value.
pub data Node (V : Type 0) : Type 0 where
  null : Node V
  string : Text → Node V
  plain : Text → Node V
  sequence : List V → Node V
  mapping : List (V × V) → Node V
  tagged : Node V

-- `as_str` and `is_mapping` look through tags, as a `match` on a value does not. `render` is `serde_yaml::to_string`, with `none` for its errors.
pub record Yaml : Type 1 where
  pub Value : Type 0
  pub view : Value → Node Value
  pub as_str : Value → Option Text
  pub is_mapping : Value → Bool
  pub render : Value → Option Text

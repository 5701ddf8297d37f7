-- ===== src/Event/Model.antt =====
-- `EntityRef` and `Event` of crates/sigil-core/src/event.rs, and `Alert` of plugin.rs. Texts are lists
-- of code points. JSON values are a parameter: a type with what serde_json answers of its values.
use sigil_siem.Prelude.{ℕ, Option, none, some, List, [], ◌∷◌, if◌then◌else◌}
use sigil_siem.Prelude.Texts.{Text, text_eq}
use sigil_siem.Prelude.Int.{ℤ}
use sigil_siem.Event.Kinds.{OcsfClass, Severity}

-- `as_str` is the text of a JSON string, and `to_string` the JSON text of a value.
pub record Json : Type 1 where
  pub Value : Type 0
  pub as_str : Value → Option Text
  pub to_string : Value → Text

pub record EntityRef : Type 0 where
  pub kind : Text
  pub id : Text
  pub name : Option Text

abbrev pub Timestamp : Type 0
Timestamp = ℤ

-- `fields` lists the entries of the `BTreeMap` in the order of their keys.
pub record Event (J : Json) : Type 0 where
  pub id : Text
  pub ts : Timestamp
  pub ingest_ts : Timestamp
  pub ocsf_class : OcsfClass
  pub tenant : Text
  pub severity : Severity
  pub host : Option EntityRef
  pub actor : Option EntityRef
  pub target : Option EntityRef
  pub message : Text
  pub fields : List (Text × J.Value)
  pub template_id : Option ℕ
  pub labels : List Text
  pub raw : List ℕ

pub record Alert : Type 0 where
  pub rule_id : Text
  pub title : Text
  pub severity : Severity
  pub technique : Option Text
  pub events : List Text
  pub ts : Timestamp

unfoldable pub value_to_string : (J : Json) → J.Value → Text
value_to_string J v = elim (J.as_str v) [ some s ↦ s | none ↦ J.to_string v ]

-- `BTreeMap::get`
unfoldable pub get {ℓ} : {V : Type ℓ} → Text → List (Text × V) → Option V
get key [] = none
get key (entry ∷ rest) = if text_eq entry.0 key then some entry.1 else get key rest

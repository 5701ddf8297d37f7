-- ===== src/Detection/Compile.antt =====
-- The compilation of a rule in crates/sigil-sigma/src/engine.rs. `none` is the error that the source
-- returns, whatever its text.
use sigil_siem.Prelude.{
  Option, none, some, List, [], ◌∷◌, ◌++◌, map, any, if◌then◌else◌, ◌>>=◌, unwrap_or,
}
use sigil_siem.Prelude.Texts.{Text, text_eq, codes}
use sigil_siem.Event.Kinds.{Severity}
use sigil_siem.Condition.Syntax.{Expr}
use sigil_siem.Condition.Parser.{Result, ok, bad, starved, parse}
use sigil_siem.Correlation.Timespan.{trim}
use sigil_siem.Correlation.Rule.{level_to_severity, technique_from_tags}
use sigil_siem.Matcher.Modifiers.{Modifiers, parse_key}
use sigil_siem.Matcher.Predicates.{Library, StringPredicate, contains, is_null, build}
use sigil_siem.Matcher.Selections.{
  FieldCond, Selection, Selections, fields, any_of, keywords, nil, cons,
}
use sigil_siem.Detection.Yaml.{Node, Yaml, null, string, plain, sequence, mapping}

-- `detection` lists the entries of the mapping.
pub record SigmaRule (Y : Yaml) : Type 0 where
  pub title : Text
  pub id : Option Text
  pub level : Option Text
  pub detection : List (Y.Value × Y.Value)
  pub tags : List Text

pub record CompiledRule (L : Library) : Type 0 where
  pub rule_id : Text
  pub title : Text
  pub severity : Severity
  pub technique : Option Text
  pub tags : List Text
  pub selections : List (Text × Selection L)
  pub names : List Text
  pub condition : Expr

-- `collect::<Result<Vec<_>>>` of what a function gives for each item.
unfoldable pub collect {ℓ κ} : {A : Type ℓ} {B : Type κ} → (A → Option B) → List A → Option (List B)
collect f [] = some []
collect f (x ∷ xs) = do y ← f x; ys ← collect f xs; some (y ∷ ys)

abbrev pub scalar_of : {V : Type 0} → Option Text → Node V → Option Text
scalar_of rendered null = none
scalar_of rendered (string s) = some s
scalar_of rendered (plain s) = some s
scalar_of rendered n = rendered >>= λ s. some (trim s)

unfoldable pub scalar_str : (Y : Yaml) → Y.Value → Option Text
scalar_str Y v = scalar_of (Y.render v) (Y.view v)

unfoldable pub keyword_pred : (L : Library) (Y : Yaml) → Y.Value → StringPredicate L
unfolding scalar_str
keyword_pred L Y v = contains (L.to_lowercase (unwrap_or (scalar_str Y v) []))

abbrev pub preds_of :
    (L : Library) (Y : Yaml)
    → Y.Value
    → Modifiers
    → Node Y.Value
    → Option (List (StringPredicate L))
preds_of L Y v mods (sequence seq) = collect (λ x. build L (scalar_str Y x) mods) seq
preds_of L Y v mods null = some (is_null ∷ [])
preds_of L Y v mods n = build L (scalar_str Y v) mods >>= λ p. some (p ∷ [])

unfoldable pub build_preds :
    (L : Library) (Y : Yaml) → Y.Value → Modifiers → Option (List (StringPredicate L))
unfolding collect scalar_str
build_preds L Y v mods = preds_of L Y v mods (Y.view v)

unfoldable pub compile_field : (L : Library) (Y : Yaml) → Y.Value × Y.Value → Option (FieldCond L)
unfolding build_preds
compile_field L Y entry = do
  key ← Y.as_str entry.0
  parsed ← parse_key key
  preds ← build_preds L Y entry.1 parsed.1
  some (record { field = parsed.0; all_of = parsed.1.all; preds = preds })

unfoldable pub compile_field_map :
    (L : Library) (Y : Yaml) → List (Y.Value × Y.Value) → Option (Selection L)
unfolding collect compile_field
compile_field_map L Y entries = collect (compile_field L Y) entries >>= λ conds. some (fields conds)

-- An item of a list in which a mapping stands.
abbrev pub compile_item : (L : Library) (Y : Yaml) → Y.Value → Node Y.Value → Option (Selection L)
compile_item L Y v (mapping entries) = compile_field_map L Y entries
compile_item L Y v n = some (keywords (keyword_pred L Y v ∷ []))

abbrev pub selections_of : {L : Library} → List (Selection L) → Selections L
selections_of [] = nil
selections_of (s ∷ ss) = cons s (selections_of ss)

abbrev pub compile_node : (L : Library) (Y : Yaml) → Y.Value → Node Y.Value → Option (Selection L)
compile_node L Y v (mapping entries) = compile_field_map L Y entries
compile_node L Y v (sequence seq) =
    if any Y.is_mapping seq
    then (collect (λ x. compile_item L Y x (Y.view x)) seq >>= λ items.
        some (any_of (selections_of items)))
    else some (keywords (map (keyword_pred L Y) seq))
compile_node L Y v n = some (keywords (keyword_pred L Y v ∷ []))

unfoldable pub compile_selection : (L : Library) (Y : Yaml) → Y.Value → Option (Selection L)
unfolding compile_field_map keyword_pred collect
compile_selection L Y v = compile_node L Y v (Y.view v)

-- `filter_map(as_str)`, each in parentheses.
unfoldable pub parenthesized : (Y : Yaml) → List Y.Value → List Text
parenthesized Y [] = []
parenthesized Y (v ∷ vs) =
    let rest = parenthesized Y vs in
    elim (Y.as_str v) [ none ↦ rest | some s ↦ (b'(' ∷ s ++ b')' ∷ []) ∷ rest ]

abbrev pub join_or : List Text → Option Text
join_or [] = none
join_or (s ∷ []) = some s
join_or (s ∷ t ∷ ts) = join_or (t ∷ ts) >>= λ rest. some (s ++ codes " or " ++ rest)

abbrev pub condition_of : (Y : Yaml) → Node Y.Value → Option Text
condition_of Y (string s) = some s
condition_of Y (sequence seq) = join_or (parenthesized Y seq)
condition_of Y n = none

unfoldable pub condition_to_string : (Y : Yaml) → Y.Value → Option Text
unfolding parenthesized
condition_to_string Y v = condition_of Y (Y.view v)

-- `HashMap::insert`
unfoldable pub put_selection {ℓ} : {V : Type ℓ} → Text → V → List (Text × V) → List (Text × V)
put_selection key v [] = (key, v) ∷ []
put_selection key v (entry ∷ rest) =
    let later = put_selection key v rest in
    if text_eq entry.0 key then (key, v) ∷ rest else entry ∷ later

-- The loop over the entries of `detection`, with the selections and the condition so far.
unfoldable pub read_detection :
    (L : Library) (Y : Yaml)
    → List (Y.Value × Y.Value)
    → List (Text × Selection L)
    → Option Text
    → Option (List (Text × Selection L) × Option Text)
unfolding put_selection condition_to_string compile_selection
read_detection L Y [] selections condition = some (selections, condition)
read_detection L Y (entry ∷ rest) selections condition =
    let as_condition =
      condition_to_string Y entry.1 >>= λ c. read_detection L Y rest selections (some c) in
    Y.as_str entry.0 >>= λ key.
    if text_eq key (codes "condition")
    then as_condition
    else (compile_selection L Y entry.1 >>= λ s.
        read_detection L Y rest (put_selection key s selections) condition)

abbrev pub parsed_expr : Result Expr → Option Expr
parsed_expr (ok e) = some e
parsed_expr bad = none
parsed_expr starved = none

unfoldable pub from_rule :
    (L : Library) (Y : Yaml) → (Text → Text) → SigmaRule Y → Option (CompiledRule L)
unfolding read_detection parse
from_rule L Y to_uppercase rule = do
  read ← read_detection L Y rule.detection [] none
  condition_str ← read.1
  condition ← parsed_expr (parse condition_str)
  some (record {
    rule_id = unwrap_or rule.id rule.title;
    title = rule.title;
    severity = level_to_severity rule.level;
    technique = technique_from_tags to_uppercase rule.tags;
    tags = rule.tags;
    selections = read.0;
    names = map (λ entry. entry.0) read.0;
    condition = condition;
  })

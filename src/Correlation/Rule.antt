-- ===== src/Correlation/Rule.antt =====
-- The correlation rules of crates/sigil-sigma/src/correlation.rs and their compilation, with the
-- levels and techniques of engine.rs. Reading YAML is left to the caller.
use sigil_siem.Prelude.{
  ℕ, Bool, true, false, ◌&&◌, Option, none, some, List, [], ◌∷◌, map, ltb, leb, ◌==◌, if◌then◌else◌,
  unwrap_or,
}
use sigil_siem.Prelude.Texts.{Text, text_eq, codes, ascii_lower}
use sigil_siem.Prelude.Int.{ℤ}
use sigil_siem.Event.Kinds.{Severity}
use sigil_siem.Correlation.Timespan.{Parsed, ok, invalid, panicked, parse_timespan}

pub record CountCondition : Type 0 where
  pub field : Option Text
  pub gt : Option ℕ
  pub gte : Option ℕ
  pub lt : Option ℕ
  pub lte : Option ℕ
  pub eq : Option ℕ

-- `CountCondition::default`
abbrev pub no_condition : CountCondition
no_condition = record { field = none; gt = none; gte = none; lt = none; lte = none; eq = none }

-- `map_or(true, test)`
abbrev pub or_true {ℓ} : {A : Type ℓ} → Option A → (A → Bool) → Bool
or_true none test = true
or_true (some a) test = test a

abbrev pub is_none {ℓ} : {A : Type ℓ} → Option A → Bool
is_none none = true
is_none (some a) = false

unfoldable pub satisfied : CountCondition → ℕ → Bool
satisfied c n =
    or_true c.gt (λ v. ltb v n)
    && or_true c.gte (λ v. leb v n)
    && or_true c.lt (λ v. ltb n v)
    && or_true c.lte (λ v. leb n v)
    && or_true c.eq (λ v. n == v)

unfoldable pub is_vacuous : CountCondition → Bool
is_vacuous c = is_none c.gt && is_none c.gte && is_none c.lt && is_none c.lte && is_none c.eq

pub data CorrelationKind : Type 0 where
  event_count : CorrelationKind
  value_count : CorrelationKind
  temporal : CorrelationKind
  temporal_ordered : CorrelationKind

pub record CorrelationSpec : Type 0 where
  pub kind : CorrelationKind
  pub rules : List Text
  pub group_by : List Text
  pub timespan : Text
  pub condition : Option CountCondition
  pub generate : Bool

pub record CorrelationRule : Type 0 where
  pub title : Text
  pub id : Option Text
  pub level : Option Text
  pub tags : List Text
  pub correlation : CorrelationSpec

pub record CompiledCorrelation : Type 0 where
  pub rule_id : Text
  pub title : Text
  pub severity : Severity
  pub technique : Option Text
  pub tags : List Text
  pub kind : CorrelationKind
  pub rules : List Text
  pub group_by : List Text
  pub timespan : ℤ
  pub condition : CountCondition
  pub generate : Bool

abbrev pub severity_of : Text → Severity
severity_of level =
    if text_eq level (codes "informational")
    then Severity.informational
    else if text_eq level (codes "low")
    then Severity.low
    else if text_eq level (codes "medium")
    then Severity.medium
    else if text_eq level (codes "high")
    then Severity.high
    else if text_eq level (codes "critical")
    then Severity.critical
    else Severity.medium

unfoldable pub level_to_severity : Option Text → Severity
level_to_severity none = Severity.medium
level_to_severity (some level) = severity_of (map ascii_lower level)

-- `strip_prefix`
unfoldable pub strip_prefix : Text → Text → Option Text
strip_prefix [] s = some s
strip_prefix (c ∷ p) [] = none
strip_prefix (c ∷ p) (d ∷ s) = let rest = strip_prefix p s in if c == d then rest else none

-- The technique of a tag behind `attack.t`. The whole rest is put in upper case.
abbrev pub technique_in : (Text → Text) → Option Text → Option Text
technique_in to_uppercase none = none
technique_in to_uppercase (some []) = none
technique_in to_uppercase (some (c ∷ s)) =
    if leb b'0' c && leb c b'9' then some (b'T' ∷ to_uppercase (c ∷ s)) else none

-- The first tag that names a technique. `str::to_uppercase` is a parameter, of all Unicode.
unfoldable pub technique_from_tags : (Text → Text) → List Text → Option Text
unfolding strip_prefix
technique_from_tags to_uppercase [] = none
technique_from_tags to_uppercase (tag ∷ tags) =
    let later = technique_from_tags to_uppercase tags in
    elim (technique_in to_uppercase (strip_prefix (codes "attack.t") (map ascii_lower tag))) [
      | some t ↦ some t
      | none ↦ later
    ]

-- The checks of a count: a comparison for `event_count`, a field for `value_count`.
unfoldable pub lacks_condition : CorrelationKind → CountCondition → Bool
unfolding is_vacuous
lacks_condition event_count c = is_vacuous c
lacks_condition value_count c = is_none c.field
lacks_condition temporal c = false
lacks_condition temporal_ordered c = false

abbrev pub compiled :
    (Text → Text) → CorrelationRule → CountCondition → Parsed ℤ → Parsed CompiledCorrelation
compiled to_uppercase rule condition invalid = invalid
compiled to_uppercase rule condition panicked = panicked
compiled to_uppercase rule condition (ok timespan) = ok (record {
  rule_id = unwrap_or rule.id rule.title;
  title = rule.title;
  severity = level_to_severity rule.level;
  technique = technique_from_tags to_uppercase rule.tags;
  tags = rule.tags;
  kind = rule.correlation.kind;
  rules = rule.correlation.rules;
  group_by = rule.correlation.group_by;
  timespan = timespan;
  condition = condition;
  generate = rule.correlation.generate;
})

abbrev pub is_empty {ℓ} : {A : Type ℓ} → List A → Bool
is_empty [] = true
is_empty (x ∷ xs) = false

unfoldable pub from_rule : (Text → Text) → CorrelationRule → Parsed CompiledCorrelation
unfolding lacks_condition level_to_severity technique_from_tags
from_rule to_uppercase rule =
    let condition = unwrap_or rule.correlation.condition no_condition in
    if is_empty rule.correlation.rules
    then invalid
    else if lacks_condition rule.correlation.kind condition
    then invalid
    else compiled to_uppercase rule condition (parse_timespan rule.correlation.timespan)

-- ===== src/Correlation/Loading.antt =====
-- What crates/sigil-sigma/src/correlation.rs makes of the rules that it loads: which compile, and
-- whose base alerts are dropped.
use mathlib.Core.Path.{subst}
use sigil_siem.Prelude.{
  ◌≡◌, ◌≢◌, ◌↔◌, ◌⊎◌, inl, inr, refl, true, false, Option, none, some, List, [], ◌∷◌, ◌++◌,
  Bool-cases, unwrap_or, arith,
}
use sigil_siem.Prelude.Texts.{Text}
use sigil_siem.Prelude.Int.{ℤ}
use sigil_siem.Correlation.Timespan.{Parsed, ok, invalid, panicked, parse_timespan}
use sigil_siem.Correlation.Rule.{
  CountCondition, no_condition, is_vacuous, is_none, CorrelationKind, event_count, value_count,
  temporal, temporal_ordered, CorrelationRule, CompiledCorrelation, lacks_condition, is_empty,
  compiled, from_rule, level_to_severity, technique_from_tags,
}
use sigil_siem.Correlation.Engine.{referenced, new, suppressed}
use sigil_siem.Correlation.Fires.{Occurs, contains_iff}

-- A rule that does not set `generate` refers to the base rule.
abbrev pub IsSilenced : Text → List CompiledCorrelation → Type 0
IsSilenced s [] = ⊥
IsSilenced s (r ∷ rs) = ((r.generate ≡ false) × Occurs s r.rules) ⊎ IsSilenced s rs

Occurs-append : (s : Text) (ts us : List Text) → Occurs s (ts ++ us) ↔ (Occurs s ts ⊎ Occurs s us)
Occurs-append s [] us = (λ h. inr h, λ h. elim h [ inl x ↦ absurd x | inr y ↦ y ])
Occurs-append s (t ∷ ts) us =
    let (to, from) = Occurs-append s ts us in
    (
      λ h. elim h [
        | inl e ↦ inl (inl e)
        | inr later ↦ elim (to later) [ inl x ↦ inl (inr x) | inr y ↦ inr y ]
      ],
      λ h. elim h [
        | inl x ↦ elim x [ inl e ↦ inl e | inr later ↦ inr (from (inl later)) ]
        | inr y ↦ inr (from (inr y))
      ],
    )

referenced_iff :
    (s : Text) (rules : List CompiledCorrelation) → Occurs s (referenced rules) ↔ IsSilenced s rules
unfolding referenced
referenced_iff s [] = (λ h. h, λ h. h)
referenced_iff s (r ∷ rs) =
    let (to, from) = referenced_iff s rs in
    let (split, unite) = Occurs-append s r.rules (referenced rs) in
    elim (Bool-cases r.generate) [
      | inl loud ↦ rw loud (
        λ h. inr (to h),
        λ h. elim h [ inl x ↦ absurd (let no : true ≡ false = x.0 in cc) | inr y ↦ from y ],
      )
      | inr quiet ↦ rw quiet (
        λ h. elim (split h) [ inl x ↦ inl (refl, x) | inr y ↦ inr (to y) ],
        λ h. elim h [ inl x ↦ unite (inl x.1) | inr y ↦ unite (inr (from y)) ],
      )
    ]

-- The base alerts of a rule are dropped exactly if a correlation that does not set `generate` refers
-- to the rule.
pub suppressed_iff :
    (rules : List CompiledCorrelation) (s : Text)
    → (suppressed (new rules) s ≡ true) ↔ IsSilenced s rules
unfolding suppressed new
suppressed_iff rules s =
    let (to, from) = contains_iff s (referenced rules) in
    let (there, back) = referenced_iff s rules in (λ h. there (to h), λ h. from (back h))

-- A count has something to compare, and the count of values a field.
abbrev pub HasCondition : CorrelationKind → CountCondition → Type 0
HasCondition event_count c = is_vacuous c ≡ false
HasCondition value_count c = (f : Text) × (c.field ≡ some f)
HasCondition temporal c = Unit
HasCondition temporal_ordered c = Unit

lacks-HasCondition :
    (kind : CorrelationKind) (c : CountCondition)
    → lacks_condition kind c ≡ false
    → HasCondition kind c
unfolding lacks_condition
lacks-HasCondition event_count c h = h
lacks-HasCondition value_count c h = field_of c.field refl h
  where
    field_of : (o : Option Text) → c.field ≡ o → is_none o ≡ false → (f : Text) × (c.field ≡ some f)
    field_of none e n = cc
    field_of (some f) e n = (f, e)
lacks-HasCondition temporal c h = tt
lacks-HasCondition temporal_ordered c h = tt

-- The record that a rule compiles to.
abbrev pub compiled_with :
    (Text → Text) → CorrelationRule → CountCondition → ℤ → CompiledCorrelation
compiled_with to_uppercase rule condition timespan = record {
  rule_id = unwrap_or rule.id rule.title;
  title = rule.title;
  severity = level_to_severity rule.level;
  technique = technique_from_tags to_uppercase rule.tags;
  tags = rule.tags;
  kind = rule.correlation.kind;
  rules = rule.correlation.rules;
  group_by = rule.correlation.group_by;
  timespan = timespan;
  condition = condition;
  generate = rule.correlation.generate;
}

compiled-ok :
    (up : Text → Text) (rule : CorrelationRule) (condition : CountCondition) (span : Parsed ℤ)
    (c : CompiledCorrelation)
    → compiled up rule condition span ≡ ok c
    → (t : ℤ) × (span ≡ ok t) × (compiled_with up rule condition t ≡ c)
compiled-ok up rule condition invalid c h = cc
compiled-ok up rule condition panicked c h = cc
compiled-ok up rule condition (ok t) c h = (t, refl, cc)

is_empty-false : (ts : List Text) → is_empty ts ≡ false → ts ≢ []
is_empty-false [] h = cc
is_empty-false (t ∷ ts) h = λ e. cc

-- What a compiled rule is fit for: it refers to a rule, has the condition that its kind needs, and
-- the timespan that its text says.
abbrev pub IsUsable : CorrelationRule → CompiledCorrelation → Type 0
IsUsable rule c =
    (c.rules ≢ [])
    × HasCondition c.kind c.condition
    × (parse_timespan rule.correlation.timespan ≡ ok c.timespan)
    × (c.rules ≡ rule.correlation.rules)

-- A rule that compiles refers to a rule, and to those of its text; it has a comparison if it counts
-- events, and a field if it counts values; and its timespan is that of its text.
pub from_rule-IsUsable :
    (to_uppercase : Text → Text) (rule : CorrelationRule) (c : CompiledCorrelation)
    → from_rule to_uppercase rule ≡ ok c
    → IsUsable rule c
unfolding from_rule
from_rule-IsUsable up rule c h =
    let condition = unwrap_or rule.correlation.condition no_condition in
    elim (Bool-cases (is_empty rule.correlation.rules)) [
      | inl empty ↦ absurd (let no : invalid ≡ ok c = ground (arith, empty, h) in cc)
      | inr full ↦ elim (Bool-cases (lacks_condition rule.correlation.kind condition)) [
        | inl lacks ↦ absurd (let no : invalid ≡ ok c = ground (arith, full, lacks, h) in cc)
        | inr has ↦
            let done : compiled up rule condition (parse_timespan rule.correlation.timespan)
                ≡ ok c =
              ground (arith, full, has, h) in
            let (t, p, same) = compiled-ok up rule condition _ c done in
            subst (IsUsable rule) same (
              is_empty-false rule.correlation.rules full,
              lacks-HasCondition rule.correlation.kind condition has,
              p,
              refl,
            )
      ]
    ]

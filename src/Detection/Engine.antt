-- ===== src/Detection/Engine.antt =====
-- `CompiledRule::matches` and `to_alert`, and `SigmaEngine`, of crates/sigil-sigma/src/engine.rs.
use sigil_siem.Prelude.{ℕ, ◌+◌, Bool, Option, List, [], ◌∷◌, map, if◌then◌else◌}
use sigil_siem.Prelude.Texts.{Text}
use sigil_siem.Event.Kinds.{Severity}
use sigil_siem.Event.Model.{Json, Event, Alert, Timestamp, get}
use sigil_siem.Condition.Eval.{eval}
use sigil_siem.Correlation.Engine.{event_time}
use sigil_siem.Matcher.Predicates.{Library}
use sigil_siem.Matcher.Selections.{Selection, eval_selection, event_haystack}
use sigil_siem.Detection.Compile.{CompiledRule}

-- The results of the selections by name.
unfoldable pub results :
    {L : Library} {J : Json} → List (Text × Selection L) → Event J → Text → Text → Option Bool
results selections event haystack name =
    get name (map (λ entry. (entry.0, eval_selection entry.1 event haystack)) selections)

unfoldable pub matches : {L : Library} {J : Json} → CompiledRule L → Event J → Bool
unfolding results
matches {L} rule event =
    eval rule.condition (results rule.selections event (event_haystack L event)) rule.names

-- `clock` is what `now_micros` reads, for an event without a time.
unfoldable pub to_alert : {L : Library} {J : Json} → Timestamp → CompiledRule L → Event J → Alert
unfolding event_time
to_alert clock rule event = record {
  rule_id = rule.rule_id;
  title = rule.title;
  severity = rule.severity;
  technique = rule.technique;
  events = event.id ∷ [];
  ts = event_time clock event.ts;
}

-- The alerts of the rules that match, the clock read from the `i`-th time on.
unfoldable pub eval_rules :
    {L : Library} {J : Json} → (ℕ → Timestamp) → ℕ → List (CompiledRule L) → Event J → List Alert
unfolding matches to_alert
eval_rules clock i [] event = []
eval_rules clock i (r ∷ rs) event =
    let rest = eval_rules clock (i + 1) rs event in
    let skipped = eval_rules clock i rs event in
    if matches r event then to_alert (clock i) r event ∷ rest else skipped

pub record RuleInfo : Type 0 where
  pub rule_id : Text
  pub title : Text
  pub severity : Severity
  pub technique : Option Text
  pub tags : List Text

unfoldable pub rule_infos : {L : Library} → List (CompiledRule L) → List RuleInfo
rule_infos rules =
    map
      (λ r. record {
        rule_id = r.rule_id;
        title = r.title;
        severity = r.severity;
        technique = r.technique;
        tags = r.tags;
      })
      rules

-- ===== src/Correlation/Engine.antt =====
-- `CorrelationEngine` of crates/sigil-sigma/src/correlation.rs. The windows of a rule are a function
-- of the group: a group that has none yet has the empty one, which `or_default` gives it.
use sigil_siem.Prelude.{
  ℕ, ◌+◌, Bool, true, false, ◌&&◌, ◌||◌, Option, none, some, List, [], ◌∷◌, ◌++◌, map, filter, any,
  all, length, ltb, ◌==◌, if◌then◌else◌,
}
use sigil_siem.Prelude.Texts.{Text, text_eq}
use sigil_siem.Prelude.Int.{◌-ℤ◌, i64, ltb_ℤ, pos_part, neg_part}
use sigil_siem.Event.Model.{Json, Event, Alert, Timestamp}
use sigil_siem.Event.Fields.{resolve_field}
use sigil_siem.Correlation.Rule.{
  satisfied, CorrelationKind, event_count, value_count, temporal, temporal_ordered,
  CompiledCorrelation,
}

pub record WindowEntry : Type 0 where
  pub ts : Timestamp
  pub rule_id : Text
  pub event_id : Text
  pub value : Option Text

abbrev pub Windows : Type 0
Windows = Text → List WindowEntry

pub record CorrelationEngine : Type 0 where
  pub rules : List CompiledCorrelation
  pub windows : List Windows
  pub suppressed_ids : List Text

unfoldable pub contains : Text → List Text → Bool
contains s texts = any (text_eq s) texts

-- `filter(|r| !r.generate).flat_map(|r| r.rules)`
unfoldable pub referenced : List CompiledCorrelation → List Text
referenced [] = []
referenced (r ∷ rs) = let rest = referenced rs in if r.generate then rest else r.rules ++ rest

abbrev pub no_windows : Windows
no_windows group = []

unfoldable pub new : List CompiledCorrelation → CorrelationEngine
unfolding referenced
new rules = record {
  rules = rules;
  windows = map (λ r. no_windows) rules;
  suppressed_ids = referenced rules;
}

unfoldable pub suppressed : CorrelationEngine → Text → Bool
unfolding contains
suppressed engine base_rule_id = contains base_rule_id engine.suppressed_ids

-- The order of strings, by code points as by the bytes of UTF-8.
unfoldable pub text_le : Text → Text → Bool
text_le [] t = true
text_le (c ∷ s) [] = false
text_le (c ∷ s) (d ∷ t) = ltb c d || (c == d && text_le s t)

unfoldable pub insert_sorted : Text → List Text → List Text
insert_sorted s [] = s ∷ []
insert_sorted s (t ∷ ts) =
    let later = insert_sorted s ts in if text_le s t then s ∷ t ∷ ts else t ∷ later

unfoldable pub sort : List Text → List Text
unfolding insert_sorted
sort [] = []
sort (s ∷ ss) = insert_sorted s (sort ss)

unfoldable pub join : Text → List Text → Text
join sep [] = []
join sep (s ∷ []) = s
join sep (s ∷ t ∷ ts) = s ++ sep ++ join sep (t ∷ ts)

unfoldable pub group_key : {J : Json} → CompiledCorrelation → Event J → Text
unfolding sort join
group_key rule event =
    join (0x1f ∷ []) (map (λ f. join (b',' ∷ []) (sort (resolve_field event f))) rule.group_by)

-- The values of a window, each once.
unfoldable pub distinct : List Text → List Text
distinct [] = []
distinct (v ∷ vs) = let rest = distinct vs in if contains v vs then rest else v ∷ rest

unfoldable pub values_in : List WindowEntry → List Text
values_in [] = []
values_in (e ∷ es) = let rest = values_in es in elim e.value [ none ↦ rest | some v ↦ v ∷ rest ]

-- The referenced rules that are still wanted after an entry.
unfoldable pub wanted_after : List Text → WindowEntry → List Text
wanted_after [] e = []
wanted_after (r ∷ rs) e = if text_eq r e.rule_id then rs else r ∷ rs

unfoldable pub still_wanted : List Text → List WindowEntry → List Text
unfolding wanted_after
still_wanted want [] = want
still_wanted want (e ∷ es) = still_wanted (wanted_after want e) es

abbrev pub none_wanted : List Text → Bool
none_wanted [] = true
none_wanted (r ∷ rs) = false

abbrev pub evaluate_kind : CorrelationKind → CompiledCorrelation → List WindowEntry → Bool
evaluate_kind event_count rule window = satisfied rule.condition (length window)
evaluate_kind value_count rule window =
    satisfied rule.condition (length (distinct (values_in window)))
evaluate_kind temporal rule window = all (λ r. any (λ e. text_eq e.rule_id r) window) rule.rules
evaluate_kind temporal_ordered rule window = none_wanted (still_wanted rule.rules window)

unfoldable pub evaluate : CompiledCorrelation → List WindowEntry → Bool
unfolding distinct values_in still_wanted satisfied
evaluate rule window = evaluate_kind rule.kind rule window

-- Entries older than the cut leave from the front, up to the first that is not.
unfoldable pub evict : Timestamp → List WindowEntry → List WindowEntry
evict cut [] = []
evict cut (e ∷ es) = let rest = evict cut es in if ltb_ℤ e.ts cut then rest else e ∷ es

abbrev pub first? : List Text → Option Text
first? [] = none
first? (s ∷ ss) = some s

abbrev pub field_value : {J : Json} → Event J → Option Text → Option Text
field_value event none = none
field_value event (some f) = first? (resolve_field event f)

unfoldable pub entry_of :
    {J : Json} → CompiledCorrelation → Event J → Timestamp → Alert → WindowEntry
entry_of rule event now alert = record {
  ts = now;
  rule_id = alert.rule_id;
  event_id = event.id;
  value = field_value event rule.condition.field;
}

-- `Vec::dedup`: of a run of equal ids the first is kept.
unfoldable pub dedup_after : Text → List Text → List Text
dedup_after s [] = []
dedup_after s (t ∷ ts) = let rest = dedup_after t ts in if text_eq s t then rest else t ∷ rest

unfoldable pub dedup : List Text → List Text
unfolding dedup_after
dedup [] = []
dedup (s ∷ ss) = s ∷ dedup_after s ss

unfoldable pub correlation_alert : CompiledCorrelation → Timestamp → List WindowEntry → Alert
unfolding dedup
correlation_alert rule now window = record {
  rule_id = rule.rule_id;
  title = rule.title;
  severity = rule.severity;
  technique = rule.technique;
  events = dedup (map (λ e. e.event_id) window);
  ts = now;
}

-- The window of a group after the entries of an event, the old ones evicted.
unfoldable pub slid :
    CompiledCorrelation → Timestamp → List WindowEntry → List WindowEntry → List WindowEntry
unfolding evict
slid rule now entries window = evict (i64 (now -ℤ rule.timespan)) (window ++ entries)

abbrev pub put : Text → List WindowEntry → Windows → Windows
put group window windows other = if text_eq group other then window else windows other

abbrev pub Fired : Type 0
Fired = Windows × List Alert

-- A rule with the alerts that it refers to.
unfoldable pub feed :
    {J : Json} → CompiledCorrelation → Event J → Timestamp → List Alert → Windows → Fired
unfolding entry_of slid evaluate correlation_alert group_key
feed rule event now matched windows =
    let group = group_key rule event in
    let window = slid rule now (map (entry_of rule event now) matched) (windows group) in
    if evaluate rule window
    then (put group [] windows, correlation_alert rule now window ∷ [])
    else (put group window windows, [])

-- `event.ts`, or the clock for an event without a time.
unfoldable pub event_time : Timestamp → Timestamp → Timestamp
event_time clock ts = if pos_part ts + neg_part ts == 0 then clock else ts

abbrev pub feed_any :
    {J : Json} → CompiledCorrelation → Event J → Timestamp → List Alert → Windows → Fired
feed_any rule event now [] windows = (windows, [])
feed_any rule event now (a ∷ later) windows = feed rule event now (a ∷ later) windows

-- The loop's body for one rule; `clock` is what `now_micros` reads there.
unfoldable pub process_rule :
    {J : Json} → Timestamp → CompiledCorrelation → Event J → List Alert → Windows → Fired
unfolding feed contains event_time
process_rule clock rule event base_alerts windows =
    feed_any rule event (event_time clock event.ts)
      (filter (λ a. contains a.rule_id rule.rules) base_alerts) windows

-- The loop over the rules and their windows, from the `i`-th reading of the clock on.
unfoldable pub process_all :
    {J : Json}
    → (ℕ → Timestamp)
    → ℕ
    → List CompiledCorrelation
    → List Windows
    → Event J
    → List Alert
    → List Windows × List Alert
unfolding process_rule
process_all clock i [] windows event base_alerts = (windows, [])
process_all clock i (r ∷ rs) [] event base_alerts = ([], [])
process_all clock i (r ∷ rs) (w ∷ ws) event base_alerts =
    let (kept, fired) = process_rule (clock i) r event base_alerts w in
    let (rest, later) = process_all clock (i + 1) rs ws event base_alerts in
    (kept ∷ rest, fired ++ later)

unfoldable pub process :
    {J : Json}
    → (ℕ → Timestamp)
    → CorrelationEngine
    → Event J
    → List Alert
    → CorrelationEngine × List Alert
unfolding process_all
process clock engine event base_alerts =
    let (windows, fired) = process_all clock 0 engine.rules engine.windows event base_alerts in
    (record engine { windows = windows }, fired)

-- ===== src/Correlation/Firing.antt =====
-- What an event does to the windows and alerts of crates/sigil-sigma/src/correlation.rs.
use sigil_siem.Prelude.{
  suc, ap, ◌+◌, ◌≤◌, length, length-append, arith, ℕ, ◌≡◌, ◌≢◌, ◌⊎◌, inl, inr, refl, true, List, [],
  ◌∷◌, map, filter, Bool-cases,
}
use sigil_siem.Prelude.Texts.{Text, text_eq, text_eq_iff}
use sigil_siem.Event.Model.{Json, Event, Alert, Timestamp}
use sigil_siem.Correlation.Rule.{CompiledCorrelation}
use sigil_siem.Correlation.Engine.{
  WindowEntry, Windows, Fired, contains, put, feed, feed_any, group_key, slid, entry_of, evaluate,
  correlation_alert, event_time, process_rule, process_all, process, CorrelationEngine, new,
  no_windows,
}
use sigil_siem.Correlation.Fires.{Fires, evaluate-Fires}

put-same : (group : Text) (w : List WindowEntry) (ws : Windows) → put group w ws group ≡ w
put-same group w ws =
    let yes : text_eq group group ≡ true = (text_eq_iff group group).1 refl in rw yes refl

put-other :
    (group other : Text) (w : List WindowEntry) (ws : Windows)
    → group ≢ other
    → put group w ws other ≡ ws other
put-other group other w ws n = elim (Bool-cases (text_eq group other)) [
  | inl same ↦ absurd (n ((text_eq_iff group other).0 same))
  | inr differ ↦ rw differ refl
]

-- An event with alerts for a rule slides the window of its group and leaves the others; the rule
-- fires its alert and empties the window exactly if the window is what its kind asks for.
abbrev pub Slides :
    {J : Json} → CompiledCorrelation → Event J → Timestamp → List Alert → Windows → Fired → Type 0
Slides rule event now matched windows (after, fired) =
    let group = group_key rule event in
    let window = slid rule now (map (entry_of rule event now) matched) (windows group) in
    ((other : Text) → group ≢ other → after other ≡ windows other)
    × ((Fires rule.kind rule window
          × (after group ≡ [])
          × (fired ≡ correlation_alert rule now window ∷ []))
        ⊎ ((¬ Fires rule.kind rule window) × (after group ≡ window) × (fired ≡ [])))

feed-Slides :
    {J : Json} (rule : CompiledCorrelation) (event : Event J) (now : Timestamp)
    (matched : List Alert) (windows : Windows)
    → Slides rule event now matched windows (feed rule event now matched windows)
unfolding feed
feed-Slides rule event now matched windows =
    let group = group_key rule event in
    let window = slid rule now (map (entry_of rule event now) matched) (windows group) in
    let (to, from) = evaluate-Fires rule window in
    elim (Bool-cases (evaluate rule window)) [
      | inl holds ↦ rw holds (
        λ other n. put-other group other [] windows n,
        inl (to holds, put-same group [] windows, refl),
      )
      | inr fails ↦ rw fails (
        λ other n. put-other group other window windows n,
        inr (
          λ f. absurd (let met : evaluate rule window ≡ true = from f in cc),
          put-same group window windows,
          refl,
        ),
      )
    ]

-- The alerts of an event that a rule refers to.
abbrev pub matched_by : CompiledCorrelation → List Alert → List Alert
matched_by rule base_alerts = filter (λ a. contains a.rule_id rule.rules) base_alerts

-- For one rule an event either has no alert that the rule refers to, and changes nothing; or it has
-- one, and its group's window slides, and is emptied with an alert exactly if it is what the kind
-- asks for.
pub process_rule-Slides :
    {J : Json} (clock : Timestamp) (rule : CompiledCorrelation) (event : Event J)
    (base_alerts : List Alert) (windows : Windows)
    → let result = process_rule clock rule event base_alerts windows in
      ((matched_by rule base_alerts ≡ []) × (result ≡ (windows, [])))
      ⊎ ((matched_by rule base_alerts ≢ [])
          × Slides rule event
              (event_time clock event.ts)
              (matched_by rule base_alerts)
              windows
              result)
unfolding process_rule
process_rule-Slides clock rule event base_alerts windows = cases (matched_by rule base_alerts)
  where
    cases :
        (matched : List Alert)
        → let now = event_time clock event.ts in
          let result = feed_any rule event now matched windows in
          ((matched ≡ []) × (result ≡ (windows, [])))
          ⊎ ((matched ≢ []) × Slides rule event now matched windows result)
    cases [] = inl (refl, refl)
    cases (a ∷ later) =
        inr ((λ e. cc), feed-Slides rule event (event_time clock event.ts) (a ∷ later) windows)

length-map :
    (w : Windows) (rules : List CompiledCorrelation) → length (map (λ r. w) rules) ≡ length rules
length-map w [] = refl
length-map w (r ∷ rs) = ap suc (length-map w rs)

process_rule-le :
    {J : Json} (clock : Timestamp) (rule : CompiledCorrelation) (event : Event J)
    (base_alerts : List Alert) (windows : Windows)
    → length (process_rule clock rule event base_alerts windows).1 ≤ 1
process_rule-le clock rule event base_alerts windows =
    elim (process_rule-Slides clock rule event base_alerts windows) [
      | inl (none_matched, e) ↦ omega (arith, ap (λ r. length r.1) e)
      | inr (some_matched, (others, outcome)) ↦ elim outcome [
        | inl (fires, emptied, e) ↦ omega (arith, ap (λ fired. length fired) e)
        | inr (fires, slides, e) ↦ omega (arith, ap (λ fired. length fired) e)
      ]
    ]

process_all-length :
    {J : Json} (clock : ℕ → Timestamp) (i : ℕ) (rules : List CompiledCorrelation)
    (windows : List Windows) (event : Event J) (base_alerts : List Alert)
    → length windows ≡ length rules
    → let result = process_all clock i rules windows event base_alerts in
      (length result.0 ≡ length rules) × (length result.1 ≤ length rules)
unfolding process_all
process_all-length clock i [] windows event base_alerts h = (h, omega arith)
process_all-length clock i (r ∷ rs) [] event base_alerts h = absurd (omega arith)
process_all-length clock i (r ∷ rs) (w ∷ ws) event base_alerts h =
    let fired = process_rule (clock i) r event base_alerts w in
    let later = process_all clock (i + 1) rs ws event base_alerts in
    let (size, bound) = process_all-length clock (i + 1) rs ws event base_alerts (omega arith) in
    let one = process_rule-le (clock i) r event base_alerts w in
    (omega arith, omega (arith, one, bound, length-append fired.1 later.1))

-- An engine with windows for each rule keeps them so, its rules and what it suppresses, and fires at
-- most one alert for each rule on an event; a new engine is one.
pub process-length :
    {J : Json} (clock : ℕ → Timestamp) (engine : CorrelationEngine) (event : Event J)
    (base_alerts : List Alert)
    → length engine.windows ≡ length engine.rules
    → let result = process clock engine event base_alerts in
      (result.0.rules ≡ engine.rules)
      × (result.0.suppressed_ids ≡ engine.suppressed_ids)
      × (length result.0.windows ≡ length engine.rules)
      × (length result.1 ≤ length engine.rules)
      × (length (new engine.rules).windows ≡ length engine.rules)
unfolding process new
process-length clock engine event base_alerts h =
    let (size, bound) =
      process_all-length clock 0 engine.rules engine.windows event base_alerts h in
    (refl, refl, size, bound, length-map no_windows engine.rules)

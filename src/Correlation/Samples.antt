-- ===== src/Correlation/Samples.antt =====
-- Two failed logins of a user within ten minutes, and timespans.
use sigil_siem.Prelude.{
  ◌≢◌, ℕ, ◌≡◌, ◌↔◌, ◌⊎◌, refl, true, false, none, some, List, [], ◌∷◌, ◌++◌, map, filter, arith,
}
use sigil_siem.Prelude.Texts.{Text, codes, text_eq, ascii_lower}
use sigil_siem.Prelude.Int.{pos, negsuc, ◌-ℤ◌, ◌*ℤ◌, i64}
use sigil_siem.Condition.Lexer.{is_whitespace}
use sigil_siem.Event.Kinds.{Severity, default_class}
use sigil_siem.Event.Model.{Json, Event, Alert}
use sigil_siem.Correlation.Timespan.{ok, trim, split_last, parse_i64, unit_secs, parse_timespan}
use sigil_siem.Correlation.Spans.{parse_timespan-wraps}
use sigil_siem.Correlation.Rule.{
  no_condition, CorrelationRule, event_count, CompiledCorrelation, from_rule,
}
use sigil_siem.Correlation.Engine.{
  WindowEntry, Windows, process_rule, evaluate, slid, entry_of, event_time,
}
use sigil_siem.Correlation.Fires.{Fires, evaluate-Fires}
use sigil_siem.Correlation.Eviction.{IsInTime, is_recent, slid-IsInTime}
use sigil_siem.Correlation.Firing.{Slides, matched_by, process_rule-Slides}
use sigil_siem.Correlation.Loading.{IsUsable, from_rule-IsUsable}

abbrev plain_json : Json
plain_json = record { Value = Text; as_str = λ s. some s; to_string = λ s. s }

abbrev login : ℕ → Event plain_json
login t = record {
  id = codes "e" ++ t ∷ [];
  ts = pos t;
  ingest_ts = pos t;
  ocsf_class = default_class;
  tenant = codes "acme";
  severity = Severity.low;
  host = none;
  actor = some (record { kind = codes "user"; id = codes "root"; name = none });
  target = none;
  message = [];
  fields = [];
  template_id = none;
  labels = [];
  raw = [];
}

abbrev failed : Alert
failed = record {
  rule_id = codes "ssh";
  title = codes "SSH";
  severity = Severity.low;
  technique = none;
  events = [];
  ts = pos 0;
}

abbrev brute_rule : CorrelationRule
brute_rule = record {
  title = codes "Brute force";
  id = none;
  level = some (codes "High");
  tags = codes "attack.t1110" ∷ [];
  correlation = record {
    kind = event_count;
    rules = codes "ssh" ∷ [];
    group_by = codes "user" ∷ [];
    timespan = codes " 10m";
    condition = some (record no_condition { gte = some 2 });
    generate = false;
  };
}

abbrev brute : CompiledCorrelation
brute = record {
  rule_id = codes "Brute force";
  title = codes "Brute force";
  severity = Severity.high;
  technique = some (codes "T1110");
  tags = codes "attack.t1110" ∷ [];
  kind = event_count;
  rules = codes "ssh" ∷ [];
  group_by = codes "user" ∷ [];
  timespan = pos 600000000;
  condition = record no_condition { gte = some 2 };
  generate = false;
}

abbrev one_login : List WindowEntry
one_login = record { ts = pos 1; rule_id = codes "ssh"; event_id = codes "e1"; value = none } ∷ []

parse_timespan-wraps_example : (t : ℕ) × (parse_timespan (codes "106751992d") ≡ ok (negsuc t))
unfolding trim parse_i64 unit_secs is_whitespace
parse_timespan-wraps_example =
    parse_timespan-wraps (codes "106751992d") (codes "106751992") b'd' 106751992 86400 refl refl
      refl (omega arith) (omega arith) (omega arith)

evaluate-Fires_example : (evaluate brute one_login ≡ true) ↔ Fires event_count brute one_login
evaluate-Fires_example = evaluate-Fires brute one_login

slid-IsInTime_example :
    let entries = map (entry_of brute (login 5) (pos 5)) (failed ∷ []) in
    (slid brute (pos 5) entries one_login
      ≡ filter (is_recent (i64 (pos 5 -ℤ pos 600000000))) (one_login ++ entries))
    × IsInTime (pos 5) (slid brute (pos 5) entries one_login)
slid-IsInTime_example =
    slid-IsInTime brute (login 5) (pos 5) (failed ∷ []) one_login ((tt, tt), (omega arith, tt))

process_rule-Slides_example :
    let windows : Windows = λ group. one_login in
    let result = process_rule (pos 9) brute (login 5) (failed ∷ []) windows in
    ((matched_by brute (failed ∷ []) ≡ []) × (result ≡ (windows, [])))
    ⊎ ((matched_by brute (failed ∷ []) ≢ [])
        × Slides brute
            (login 5)
            (event_time (pos 9) (pos 5))
            (matched_by brute (failed ∷ []))
            windows
            result)
process_rule-Slides_example =
    process_rule-Slides (pos 9) brute (login 5) (failed ∷ []) (λ group. one_login)

from_rule-IsUsable_example : IsUsable brute_rule brute
unfolding from_rule parse_timespan trim split_last parse_i64 unit_secs is_whitespace i64 ◌*ℤ◌
    text_eq ascii_lower
from_rule-IsUsable_example = from_rule-IsUsable (λ s. s) brute_rule brute refl

-- ===== src/Correlation/Eviction.antt =====
-- The sliding windows of crates/sigil-sigma/src/correlation.rs where events come in their order.
use sigil_siem.Prelude.{
  ◌≡◌, refl, sym, Bool, true, false, not, List, [], ◌∷◌, ◌++◌, map, filter, filter-cons,
  filter-skip, All, arith, Bool-cases, inl, inr, ap, ◌∙◌,
}
use sigil_siem.Prelude.Int.{◌≤ℤ◌, ◌-ℤ◌, i64, ltb_ℤ}
use sigil_siem.Event.Model.{Json, Event, Alert, Timestamp}
use sigil_siem.Correlation.Rule.{CompiledCorrelation}
use sigil_siem.Correlation.Engine.{WindowEntry, evict, slid, entry_of}

-- The times do not decrease.
abbrev pub IsSorted : List WindowEntry → Type 0
IsSorted [] = Unit
IsSorted (e ∷ es) = All (λ x. e.ts ≤ℤ x.ts) es × IsSorted es

-- A window in order, with nothing later than a time.
abbrev pub IsInTime : Timestamp → List WindowEntry → Type 0
IsInTime now es = IsSorted es × All (λ e. e.ts ≤ℤ now) es

-- The entry is not older than the cut.
abbrev pub is_recent : Timestamp → WindowEntry → Bool
is_recent cut e = not (ltb_ℤ e.ts cut)

filter-recent :
    (cut t : Timestamp) (es : List WindowEntry)
    → ltb_ℤ t cut ≡ false
    → All (λ x. t ≤ℤ x.ts) es
    → filter (is_recent cut) es ≡ es
filter-recent cut t [] h a = refl
filter-recent cut t (e ∷ es) h (le, a) =
    let keeps : is_recent cut e ≡ true = ground arith in
    filter-cons (is_recent cut) e es keeps ∙ ap (λ rest. e ∷ rest) (filter-recent cut t es h a)

evict-filter :
    (cut : Timestamp) (es : List WindowEntry)
    → IsSorted es
    → evict cut es ≡ filter (is_recent cut) es
unfolding evict
evict-filter cut [] s = refl
evict-filter cut (e ∷ es) (above, s) = elim (Bool-cases (ltb_ℤ e.ts cut)) [
  | inl old ↦ rw old (evict-filter cut es s ∙ sym (filter-skip (is_recent cut) e es (ap not old)))
  | inr recent ↦ rw recent (
      ap (λ rest. e ∷ rest) (sym (filter-recent cut e.ts es recent above))
      ∙ sym (filter-cons (is_recent cut) e es (ap not recent)))
]

evict-All :
    (P : WindowEntry → Type 0) (cut : Timestamp) (es : List WindowEntry)
    → All P es
    → All P (evict cut es)
unfolding evict
evict-All P cut [] a = tt
evict-All P cut (e ∷ es) (p, a) = elim (Bool-cases (ltb_ℤ e.ts cut)) [
  | inl old ↦ rw old (evict-All P cut es a)
  | inr recent ↦ rw recent (p, a)
]

evict-IsSorted : (cut : Timestamp) (es : List WindowEntry) → IsSorted es → IsSorted (evict cut es)
unfolding evict
evict-IsSorted cut [] s = tt
evict-IsSorted cut (e ∷ es) (above, s) = elim (Bool-cases (ltb_ℤ e.ts cut)) [
  | inl old ↦ rw old (evict-IsSorted cut es s)
  | inr recent ↦ rw recent (above, s)
]

-- New entries of a time go behind what is not later.
IsInTime-push :
    (now : Timestamp) (es entries : List WindowEntry)
    → IsInTime now es
    → IsInTime now entries
    → All (λ e. now ≤ℤ e.ts) entries
    → IsInTime now (es ++ entries)
IsInTime-push now [] entries (s, a) t n = t
IsInTime-push now (e ∷ es) entries ((above, s), (le, a)) t n =
    let (s', a') = IsInTime-push now es entries (s, a) t n in
    ((All_push es entries above (later_all entries n), s'), (le, a'))
  where
    All_push :
        (es entries : List WindowEntry)
        → All (λ x. e.ts ≤ℤ x.ts) es
        → All (λ x. e.ts ≤ℤ x.ts) entries
        → All (λ x. e.ts ≤ℤ x.ts) (es ++ entries)
    All_push [] entries h g = g
    All_push (x ∷ xs) entries (p, h) g = (p, All_push xs entries h g)

    later_all :
        (entries : List WindowEntry)
        → All (λ x. now ≤ℤ x.ts) entries
        → All (λ x. e.ts ≤ℤ x.ts) entries
    later_all [] h = tt
    later_all (x ∷ xs) (p, h) = (ground arith, later_all xs h)

-- The entries of an event all have its time.
entries_timed :
    {J : Json} (rule : CompiledCorrelation) (event : Event J) (now : Timestamp)
    (matched : List Alert)
    → let entries = map (entry_of rule event now) matched in
      IsInTime now entries × All (λ e. now ≤ℤ e.ts) entries
unfolding entry_of
entries_timed rule event now [] = ((tt, tt), tt)
entries_timed rule event now (a ∷ later) =
    let ((s, b), above) = entries_timed rule event now later in
    (((above, s), (omega arith, b)), (omega arith, above))

-- Where the events of a group come in the order of their times, its window after an event is what
-- is not older than the timespan, of the entries before and those of the event, and is in order.
pub slid-IsInTime :
    {J : Json} (rule : CompiledCorrelation) (event : Event J) (now : Timestamp)
    (matched : List Alert) (window : List WindowEntry)
    → IsInTime now window
    → let entries = map (entry_of rule event now) matched in
      (slid rule now entries window
        ≡ filter (is_recent (i64 (now -ℤ rule.timespan))) (window ++ entries))
      × IsInTime now (slid rule now entries window)
unfolding slid
slid-IsInTime rule event now matched window h =
    let (t, n) = entries_timed rule event now matched in
    let (s, a) = IsInTime-push now window _ h t n in
    let cut = i64 (now -ℤ rule.timespan) in
    (evict-filter cut _ s, (evict-IsSorted cut _ s, evict-All (λ e. e.ts ≤ℤ now) cut _ a))

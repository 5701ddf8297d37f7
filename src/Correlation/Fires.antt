-- ===== src/Correlation/Fires.antt =====
-- What `evaluate` of crates/sigil-sigma/src/correlation.rs asks of a window, kind by kind.
use sigil_siem.Prelude.{
  ℕ, ◌≤◌, ◌<◌, ◌≡◌, ◌↔◌, ◌⊎◌, inl, inr, refl, sym, Bool, true, false, ◌&&◌, ◌||◌, Option, none,
  some, List, [], ◌∷◌, length, map, any, all, All, arith, ltb, leb, ◌==◌, Bool-cases,
}
use sigil_siem.Prelude.Texts.{Text, text_eq, text_eq_iff}
use sigil_siem.Correlation.Rule.{
  or_true, CountCondition, satisfied, CorrelationKind, event_count, value_count, temporal,
  temporal_ordered, CompiledCorrelation,
}
use sigil_siem.Correlation.Engine.{
  WindowEntry, contains, distinct, values_in, wanted_after, still_wanted, none_wanted, evaluate,
  evaluate_kind,
}

-- The bound, if there is one, holds.
abbrev pub Bounded : Option ℕ → (ℕ → Type 0) → Type 0
Bounded none P = Unit
Bounded (some v) P = P v

-- Every comparison that the condition makes holds of a count.
abbrev pub IsMet : CountCondition → ℕ → Type 0
IsMet c n =
    (((Bounded c.gt (λ v. v < n) × Bounded c.gte (λ v. v ≤ n)) × Bounded c.lt (λ v. n < v))
      × Bounded c.lte (λ v. n ≤ v))
    × Bounded c.eq (λ v. n ≡ v)

or_true_iff :
    (o : Option ℕ) (test : ℕ → Bool) (P : ℕ → Type 0)
    → ((v : ℕ) → (test v ≡ true) ↔ P v)
    → (or_true o test ≡ true) ↔ Bounded o P
or_true_iff none test P h = (λ e. tt, λ p. refl)
or_true_iff (some v) test P h = h v

&&_iff {ℓ κ} :
    {P : Type ℓ} {Q : Type κ} (a b : Bool)
    → (a ≡ true) ↔ P
    → (b ≡ true) ↔ Q
    → ((a && b) ≡ true) ↔ (P × Q)
&&_iff true b p q = (λ h. (p.0 refl, q.0 h), λ h. q.1 h.1)
&&_iff false b p q = (λ h. cc, λ h. p.1 h.0)

||_iff {ℓ κ} :
    {P : Type ℓ} {Q : Type κ} (a b : Bool)
    → (a ≡ true) ↔ P
    → (b ≡ true) ↔ Q
    → ((a || b) ≡ true) ↔ (P ⊎ Q)
||_iff true b p q = (λ h. inl (p.0 refl), λ h. refl)
||_iff false b p q = (
  λ h. inr (q.0 h),
  λ h. elim h [ inl x ↦ absurd (let no : false ≡ true = p.1 x in cc) | inr y ↦ q.1 y ],
)

satisfied_iff : (c : CountCondition) (n : ℕ) → (satisfied c n ≡ true) ↔ IsMet c n
unfolding satisfied
satisfied_iff c n =
    let gt = or_true_iff c.gt (λ v. ltb v n) (λ v. v < n) (λ v. ground arith) in
    let gte = or_true_iff c.gte (λ v. leb v n) (λ v. v ≤ n) (λ v. ground arith) in
    let lt = or_true_iff c.lt (λ v. ltb n v) (λ v. n < v) (λ v. ground arith) in
    let lte = or_true_iff c.lte (λ v. leb n v) (λ v. n ≤ v) (λ v. ground arith) in
    let eq = or_true_iff c.eq (λ v. n == v) (λ v. n ≡ v) (λ v. ground arith) in
    &&_iff _ _ (&&_iff _ _ (&&_iff _ _ (&&_iff _ _ gt gte) lt) lte) eq

-- A text is an item of a list.
abbrev pub Occurs : Text → List Text → Type 0
Occurs s [] = ⊥
Occurs s (t ∷ ts) = (s ≡ t) ⊎ Occurs s ts

pub contains_iff : (s : Text) (ts : List Text) → (contains s ts ≡ true) ↔ Occurs s ts
unfolding contains
contains_iff s [] = (λ h. cc, λ h. absurd h)
contains_iff s (t ∷ ts) = ||_iff _ _ (text_eq_iff s t) (contains_iff s ts)

-- The items of the first list stand in the second in the same order.
abbrev pub IsSubsequence : List Text → List Text → Type 0
IsSubsequence [] ts = Unit
IsSubsequence (s ∷ ss) [] = ⊥
IsSubsequence (s ∷ ss) (t ∷ ts) = ((s ≡ t) × IsSubsequence ss ts) ⊎ IsSubsequence (s ∷ ss) ts

IsSubsequence-tail :
    (s : Text) (ss ts : List Text) → IsSubsequence (s ∷ ss) ts → IsSubsequence ss ts
IsSubsequence-tail s [] ts h = tt
IsSubsequence-tail s (r ∷ ss) [] h = absurd h
IsSubsequence-tail s (r ∷ ss) (t ∷ ts) h = elim h [
  | inl p ↦ inr p.1
  | inr q ↦ inr (IsSubsequence-tail s (r ∷ ss) ts q)
]

still_wanted-nil : (es : List WindowEntry) → still_wanted [] es ≡ []
unfolding still_wanted wanted_after
still_wanted-nil [] = refl
still_wanted-nil (e ∷ es) = still_wanted-nil es

-- Taking the first entry that fits each rule finds the order whenever there is one.
still_wanted_iff :
    (want : List Text) (es : List WindowEntry)
    → (none_wanted (still_wanted want es) ≡ true) ↔ IsSubsequence want (map (λ e. e.rule_id) es)
unfolding still_wanted wanted_after
still_wanted_iff [] es = (λ h. tt, λ h. rw (still_wanted-nil es) refl)
still_wanted_iff (r ∷ rs) [] = (λ h. cc, λ h. absurd h)
still_wanted_iff (r ∷ rs) (e ∷ es) = elim (Bool-cases (text_eq r e.rule_id)) [
  | inl same ↦
      let (to, from) = still_wanted_iff rs es in
      let eq : r ≡ e.rule_id = (text_eq_iff r e.rule_id).0 same in
      rw same (
        λ h. inl (eq, to h),
        λ h. elim h [ inl p ↦ from p.1 | inr q ↦ from (IsSubsequence-tail r rs _ q) ],
      )
  | inr differ ↦
      let (to, from) = still_wanted_iff (r ∷ rs) es in
      rw differ (
        λ h. inr (to h),
        λ h. elim h [
          | inl p ↦
              absurd (let yes : text_eq r e.rule_id ≡ true = (text_eq_iff r e.rule_id).1 p.0 in cc)
          | inr q ↦ from q
        ],
      )
]

all_iff :
    (p : Text → Bool) (P : Text → Type 0) (ts : List Text)
    → ((t : Text) → (p t ≡ true) ↔ P t)
    → (all p ts ≡ true) ↔ All P ts
all_iff p P [] h = (λ e. tt, λ q. refl)
all_iff p P (t ∷ ts) h = &&_iff _ _ (h t) (all_iff p P ts h)

any_rule_iff :
    (r : Text) (window : List WindowEntry)
    → (any (λ e. text_eq e.rule_id r) window ≡ true) ↔ Occurs r (map (λ e. e.rule_id) window)
any_rule_iff r [] = (λ h. cc, λ h. absurd h)
any_rule_iff r (e ∷ es) =
    let (to, from) = text_eq_iff e.rule_id r in
    ||_iff _ _ (λ h. sym (to h), λ h. from (sym h)) (any_rule_iff r es)

-- What a correlation of each kind asks of a window: its count of entries, or of different values,
-- meets the condition; every rule occurs; the rules occur in their order.
abbrev pub Fires : CorrelationKind → CompiledCorrelation → List WindowEntry → Type 0
Fires event_count rule window = IsMet rule.condition (length window)
Fires value_count rule window = IsMet rule.condition (length (distinct (values_in window)))
Fires temporal rule window = All (λ r. Occurs r (map (λ e. e.rule_id) window)) rule.rules
Fires temporal_ordered rule window = IsSubsequence rule.rules (map (λ e. e.rule_id) window)

evaluate_kind_iff :
    (kind : CorrelationKind) (rule : CompiledCorrelation) (window : List WindowEntry)
    → (evaluate_kind kind rule window ≡ true) ↔ Fires kind rule window
evaluate_kind_iff event_count rule window = satisfied_iff rule.condition (length window)
evaluate_kind_iff value_count rule window =
    satisfied_iff rule.condition (length (distinct (values_in window)))
evaluate_kind_iff temporal rule window =
    all_iff _ (λ r. Occurs r (map (λ e. e.rule_id) window)) rule.rules (λ r. any_rule_iff r window)
evaluate_kind_iff temporal_ordered rule window = still_wanted_iff rule.rules window

-- The evaluation of a window is true exactly if the window is what the kind of the rule asks for:
-- for a count, every comparison of the condition holds of it; for a temporal correlation, every
-- rule has an entry; for an ordered one, the rules are a subsequence of the entries' rules.
pub evaluate-Fires :
    (rule : CompiledCorrelation) (window : List WindowEntry)
    → (evaluate rule window ≡ true) ↔ Fires rule.kind rule window
unfolding evaluate
evaluate-Fires rule window = evaluate_kind_iff rule.kind rule window

-- ===== src/Condition/Meaning.antt =====
-- What `eval` of crates/sigil-sigma/src/condition.rs decides, said without counting loops.
use sigil_siem.Prelude.{
  ℕ, suc, ◌≤◌, ◌<◌, ◌≡◌, ◌↔◌, ◌⊎◌, inl, inr, refl, Bool, true, false, not, ◌&&◌, ◌||◌, Option, none,
  some, List, [], ◌∷◌, length, filter, unwrap_or, arith, All, leb→le, le→leb,
}
use sigil_siem.Prelude.Texts.{Text}
use sigil_siem.Condition.Syntax.{Target, Expr}
use sigil_siem.Condition.Eval.{selects, select, Results, holds, enough, eval}

-- How many names satisfy a test.
abbrev pub count : (Text → Bool) → List Text → ℕ
count p [] = 0
count p (n ∷ names) = let rest = count p names in elim (p n) [ true ↦ suc rest | false ↦ rest ]

-- Every selected name holds.
abbrev pub EveryHolds : Target → Results → List Text → Type 0
EveryHolds t results = All (λ n. selects t n ≡ true → holds results n ≡ true)

-- What a condition says of the results.
abbrev pub Meaning : Expr → Results → List Text → Type 0
Meaning (Expr.ref n) results names = results n ≡ some true
Meaning (Expr.not e) results names = ¬ Meaning e results names
Meaning (Expr.and a b) results names = Meaning a results names × Meaning b results names
Meaning (Expr.or a b) results names = Meaning a results names ⊎ Meaning b results names
Meaning (Expr.quant none t) results names =
    (0 < count (selects t) names) × EveryHolds t results names
Meaning (Expr.quant (some k) t) results names =
    k ≤ count (λ n. selects t n && holds results n) names

length-select : (t : Target) (names : List Text) → length (select t names) ≡ count (selects t) names
unfolding select
length-select t [] = refl
length-select t (n ∷ names) = ground (arith, length-select t names)

hits-count :
    (t : Target) (results : Results) (names : List Text)
    → length (filter (holds results) (select t names))
      ≡ count (λ n. selects t n && holds results n) names
unfolding select
hits-count t results [] = refl
hits-count t results (n ∷ names) = ground (arith, hits-count t results names)

hits-le :
    (t : Target) (results : Results) (names : List Text)
    → count (λ n. selects t n && holds results n) names ≤ count (selects t) names
hits-le t results [] = omega arith
hits-le t results (n ∷ names) = ground (arith, hits-le t results names)

all_hit :
    (t : Target) (results : Results) (names : List Text)
    → count (λ n. selects t n && holds results n) names ≡ count (selects t) names
    → EveryHolds t results names
all_hit t results [] h = tt
all_hit t results (n ∷ names) h = (
  ground (arith, hits-le t results names),
  all_hit t results names (ground (arith, hits-le t results names)),
)

all_hit-count :
    (t : Target) (results : Results) (names : List Text)
    → EveryHolds t results names
    → count (λ n. selects t n && holds results n) names ≡ count (selects t) names
all_hit-count t results [] h = refl
all_hit-count t results (n ∷ names) h = ground (arith, h.0, all_hit-count t results names h.1)

not-true : (b : Bool) → ¬ (b ≡ true) → not b ≡ true
not-true true h = absurd (h refl)
not-true false h = refl

or-true {ℓ} :
    {P Q : Type ℓ} (a b : Bool) → (a ≡ true → P) → (b ≡ true → Q) → (a || b) ≡ true → P ⊎ Q
or-true true b p q h = inl (p refl)
or-true false b p q h = inr (q h)

unwrap_or-true : (o : Option Bool) → unwrap_or o false ≡ true → o ≡ some true
unwrap_or-true none h = cc
unwrap_or-true (some b) h = cc

quant-all :
    (t : Target) (results : Results) (names : List Text)
    → let hits = count (λ n. selects t n && holds results n) names in
      (enough none hits (count (selects t) names) ≡ true)
      ↔ ((0 < count (selects t) names) × EveryHolds t results names)
quant-all t results names = (
  λ h. (ground arith, all_hit t results names (ground arith)),
  λ m. ground (arith, m.0, all_hit-count t results names m.1),
)

-- A condition evaluates to true exactly if it means something true of the results: a name whose
-- result is true; `not`, `and` and `or` as the connectives; `all of` a selection that is not empty
-- and in which every name holds; `N of` one in which `N` names hold at least.
pub eval-Meaning :
    (e : Expr) (results : Results) (names : List Text)
    → (eval e results names ≡ true) ↔ Meaning e results names
unfolding eval
eval-Meaning (Expr.ref n) results names = (λ h. unwrap_or-true (results n) h, λ h. ground arith)
eval-Meaning (Expr.not e) results names =
    let (to, from) = eval-Meaning e results names in
    (λ h m. cc (from m), λ h. not-true (eval e results names) (λ p. h (to p)))
eval-Meaning (Expr.and a b) results names =
    let (ta, fa) = eval-Meaning a results names in
    let (tb, fb) = eval-Meaning b results names in
    (λ h. (ta (ground arith), tb (ground arith)), λ h. ground (arith, fa h.0, fb h.1))
eval-Meaning (Expr.or a b) results names =
    let (ta, fa) = eval-Meaning a results names in
    let (tb, fb) = eval-Meaning b results names in
    (
      λ h. or-true (eval a results names) (eval b results names) ta tb h,
      λ h. elim h [ inl m ↦ ground (arith, fa m) | inr m ↦ ground (arith, fb m) ],
    )
eval-Meaning (Expr.quant none t) results names =
    rw (length-select t names) (rw (hits-count t results names) (quant-all t results names))
eval-Meaning (Expr.quant (some k) t) results names =
    rw (hits-count t results names) (leb→le k _, le→leb k _)

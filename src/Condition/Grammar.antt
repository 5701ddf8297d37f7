-- ===== src/Condition/Grammar.antt =====
-- The grammar that crates/sigil-sigma/src/condition.rs describes, as a relation without fuel:
-- `not` binds tighter than `and`, `and` than `or`, and `and` and `or` associate to the left.
use sigil_siem.Prelude.{ℕ, Bool, true, false, ◌≡◌, none, some, List, ◌∷◌}
use sigil_siem.Prelude.Texts.{Text}
use sigil_siem.Condition.Syntax.{Tok, Target, Expr}

-- What is being read: an operand of a level, or the operators of a level behind a left operand.
pub data Job : Type 0 where
  disjunction conjunction negation primary : Job
  ors_after ands_after : Expr → Job

abbrev pub starts_or : List Tok → Bool
starts_or (Tok.or ∷ ts) = true
starts_or _ = false

abbrev pub starts_and : List Tok → Bool
starts_and (Tok.and ∷ ts) = true
starts_and _ = false

abbrev pub starts_not : List Tok → Bool
starts_not (Tok.not ∷ ts) = true
starts_not _ = false

-- A target of a quantifier, with what follows it.
pub data Targets : List Tok → Target → List Tok → Type 0 where
  everything : {rest : List Tok} → Targets (Tok.them ∷ rest) Target.them rest
  named : {p : Text} {rest : List Tok} → Targets (Tok.ident p ∷ rest) (Target.pattern_of p) rest

-- `Derives job ts e rest`: the job reads the expression `e` from the front of `ts` and leaves `rest`.
pub data Derives : Job → List Tok → Expr → List Tok → Type 0 where
  disjunct :
      {ts mid rest : List Tok} {a e : Expr}
      → Derives conjunction ts a mid
      → Derives (ors_after a) mid e rest
      → Derives disjunction ts e rest
  more_or :
      {ts mid rest : List Tok} {a b e : Expr}
      → Derives conjunction ts b mid
      → Derives (ors_after (Expr.or a b)) mid e rest
      → Derives (ors_after a) (Tok.or ∷ ts) e rest
  last_or : {ts : List Tok} {a : Expr} → starts_or ts ≡ false → Derives (ors_after a) ts a ts
  conjunct :
      {ts mid rest : List Tok} {a e : Expr}
      → Derives negation ts a mid
      → Derives (ands_after a) mid e rest
      → Derives conjunction ts e rest
  more_and :
      {ts mid rest : List Tok} {a b e : Expr}
      → Derives negation ts b mid
      → Derives (ands_after (Expr.and a b)) mid e rest
      → Derives (ands_after a) (Tok.and ∷ ts) e rest
  last_and : {ts : List Tok} {a : Expr} → starts_and ts ≡ false → Derives (ands_after a) ts a ts
  negate :
      {ts rest : List Tok} {e : Expr}
      → Derives negation ts e rest
      → Derives negation (Tok.not ∷ ts) (Expr.not e) rest
  plain :
      {ts rest : List Tok} {e : Expr}
      → starts_not ts ≡ false
      → Derives primary ts e rest
      → Derives negation ts e rest
  group :
      {ts rest : List Tok} {e : Expr}
      → Derives disjunction ts e (Tok.rparen ∷ rest)
      → Derives primary (Tok.lparen ∷ ts) e rest
  all_of :
      {ts rest : List Tok} {t : Target}
      → Targets ts t rest
      → Derives primary (Tok.all ∷ Tok.of ∷ ts) (Expr.quant none t) rest
  some_of :
      {n : ℕ} {ts rest : List Tok} {t : Target}
      → Targets ts t rest
      → Derives primary (Tok.num n ∷ Tok.of ∷ ts) (Expr.quant (some n) t) rest
  name : {x : Text} {rest : List Tok} → Derives primary (Tok.ident x ∷ rest) (Expr.ref x) rest

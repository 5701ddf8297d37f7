-- ===== src/Condition/Print.antt =====
-- A printer for the expressions of crates/sigil-sigma/src/condition.rs, with the parentheses that
-- the grammar needs, and its round trip through the parser.
use mathlib.Core.Path.{subst}
use sigil_siem.Prelude.{
  ℕ, ◌≡◌, refl, sym, false, Option, none, some, List, [], ◌∷◌, ◌++◌, leb, append_assoc, append-nil,
  if◌then◌else◌,
}
use sigil_siem.Condition.Syntax.{Tok, Target, Expr}
use sigil_siem.Condition.Parser.{ok, parse_tokens}
use sigil_siem.Condition.Grammar.{
  disjunction, conjunction, negation, primary, ors_after, ands_after, starts_and, starts_not,
  everything, named, Derives, disjunct, more_or, last_or, conjunct, more_and, last_and, negate,
  plain, group, name,
}
use sigil_siem.Condition.Sound.{quantifier, quant_of, parse_tokens-Derives}

-- How tight an expression binds: `or`, `and`, `not`, all else.
abbrev pub level : Expr → ℕ
level (Expr.or a b) = 0
level (Expr.and a b) = 1
level (Expr.not e) = 2
level _ = 3

abbrev pub target_token : Target → Tok
target_token Target.them = Tok.them
target_token (Target.pattern_of p) = Tok.ident p

abbrev pub grouped : List Tok → List Tok
grouped ts = Tok.lparen ∷ (ts ++ Tok.rparen ∷ [])

-- The tokens of an operand at a place that wants level `k`.
abbrev pub fit : ℕ → ℕ → List Tok → List Tok
fit k l ts = if leb k l then ts else grouped ts

pub print : Expr → List Tok
print (Expr.ref x) = Tok.ident x ∷ []
print (Expr.quant q t) = quantifier q ∷ Tok.of ∷ target_token t ∷ []
print (Expr.not e) = Tok.not ∷ fit 2 (level e) (print e)
print (Expr.and a b) = fit 1 (level a) (print a) ++ (Tok.and ∷ fit 2 (level b) (print b))
print (Expr.or a b) = print a ++ (Tok.or ∷ fit 1 (level b) (print b))

-- The tokens are read as the expression at a job, whatever follows.
abbrev Atom : List Tok → Expr → Type 0
Atom ts e =
    (rest : List Tok) → (starts_not (ts ++ rest) ≡ false) × Derives primary (ts ++ rest) e rest

abbrev Operand : List Tok → Expr → Type 0
Operand ts e = (rest : List Tok) → Derives negation (ts ++ rest) e rest

-- With the operators that follow.
abbrev Ands : List Tok → Expr → Type 0
Ands ts e =
    (rest rest' : List Tok) (x : Expr)
    → Derives (ands_after e) rest x rest'
    → Derives conjunction (ts ++ rest) x rest'

abbrev Ors : List Tok → Expr → Type 0
Ors ts e =
    (rest rest' : List Tok) (x : Expr)
    → starts_and rest ≡ false
    → Derives (ors_after e) rest x rest'
    → Derives disjunction (ts ++ rest) x rest'

Atom-Operand : (ts : List Tok) (e : Expr) → Atom ts e → Operand ts e
Atom-Operand ts e a rest = let (n, d) = a rest in plain n d

Operand-Ands : (ts : List Tok) (e : Expr) → Operand ts e → Ands ts e
Operand-Ands ts e o rest rest' x k = conjunct (o rest) k

Ands-Ors : (ts : List Tok) (e : Expr) → Ands ts e → Ors ts e
Ands-Ors ts e a rest rest' x n k = disjunct (a rest rest e (last_and n)) k

Ors-grouped : (ts : List Tok) (e : Expr) → Ors ts e → Atom (grouped ts) e
Ors-grouped ts e o rest = (
  refl,
  group (
      subst (λ s. Derives disjunction s e (Tok.rparen ∷ rest))
        (sym (append_assoc ts (Tok.rparen ∷ []) rest))
        (o (Tok.rparen ∷ rest) (Tok.rparen ∷ rest) e refl (last_or refl))),
)

-- An expression printed, at the places that want it at each level.
record Reads (e : Expr) : Type 0 where
  operand : Operand (fit 2 (level e) (print e)) e
  ands : Ands (fit 1 (level e) (print e)) e
  ors : Ors (print e) e

Reads_of_Atom : (ts : List Tok) (e : Expr) → Atom ts e → Operand ts e × Ands ts e × Ors ts e
Reads_of_Atom ts e a =
    let o = Atom-Operand ts e a in let s = Operand-Ands ts e o in (o, s, Ands-Ors ts e s)

quant-Atom : (q : Option ℕ) (t : Target) → Atom (print (Expr.quant q t)) (Expr.quant q t)
unfolding print
quant-Atom none Target.them rest = (refl, quant_of none everything)
quant-Atom none (Target.pattern_of p) rest = (refl, quant_of none named)
quant-Atom (some n) Target.them rest = (refl, quant_of (some n) everything)
quant-Atom (some n) (Target.pattern_of p) rest = (refl, quant_of (some n) named)

and-Ands : (a b : Expr) → Reads a → Reads b → Ands (print (Expr.and a b)) (Expr.and a b)
unfolding print
and-Ands a b ra rb rest rest' x k =
    subst (λ s. Derives conjunction s x rest')
      (sym (append_assoc (fit 1 (level a) (print a)) (Tok.and ∷ fit 2 (level b) (print b)) rest))
      (ra.ands _ rest' x (more_and (rb.operand rest) k))

or-Ors : (a b : Expr) → Reads a → Reads b → Ors (print (Expr.or a b)) (Expr.or a b)
unfolding print
or-Ors a b ra rb rest rest' x n k =
    subst (λ s. Derives disjunction s x rest')
      (sym (append_assoc (print a) (Tok.or ∷ fit 1 (level b) (print b)) rest))
      (ra.ors _ rest' x refl (more_or (rb.ands rest rest b (last_and n)) k))

reads : (e : Expr) → Reads e
unfolding print
reads (Expr.ref x) =
    let (o, s, d) = Reads_of_Atom (print (Expr.ref x)) (Expr.ref x) (λ rest. (refl, name)) in
    record { operand = o; ands = s; ors = d }
reads (Expr.quant q t) =
    let (o, s, d) = Reads_of_Atom (print (Expr.quant q t)) (Expr.quant q t) (quant-Atom q t) in
    record { operand = o; ands = s; ors = d }
reads (Expr.not e) =
    let o : Operand (print (Expr.not e)) (Expr.not e) = λ rest. negate ((reads e).operand rest) in
    let p = print (Expr.not e) in
    let s = Operand-Ands p (Expr.not e) o in
    record { operand = o; ands = s; ors = Ands-Ors p (Expr.not e) s }
reads (Expr.and a b) =
    let s = and-Ands a b (reads a) (reads b) in
    let d = Ands-Ors (print (Expr.and a b)) (Expr.and a b) s in
    record {
      operand =
          Atom-Operand (grouped (print (Expr.and a b))) (Expr.and a b)
            (Ors-grouped (print (Expr.and a b)) (Expr.and a b) d);
      ands = s;
      ors = d;
    }
reads (Expr.or a b) =
    let d = or-Ors a b (reads a) (reads b) in
    let p = print (Expr.or a b) in
    let (o, s, _) = Reads_of_Atom (grouped p) (Expr.or a b) (Ors-grouped p (Expr.or a b) d) in
    record { operand = o; ands = s; ors = d }

-- Printing an expression, with parentheses only where an operand binds looser than its place, and
-- parsing the tokens gives the expression back.
pub parse_tokens-print : (e : Expr) → parse_tokens (print e) ≡ ok e
parse_tokens-print e = (parse_tokens-Derives (print e) e).1 (
    subst (λ s. Derives disjunction s e []) (append-nil (print e))
      ((reads e).ors [] [] e refl (last_or refl)))

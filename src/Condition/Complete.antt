-- ===== src/Condition/Complete.antt =====
-- The parser of crates/sigil-sigma/src/condition.rs reads every expression of the grammar, on a fuel
-- that grows with the tokens.
use sigil_siem.Prelude.{
  ℕ, zero, suc, ◌+◌, ◌*◌, ◌≤◌, ◌<◌, ◌≡◌, refl, false, Option, none, some, List, ◌∷◌, length, arith,
}
use sigil_siem.Condition.Syntax.{Tok, Target, Expr}
use sigil_siem.Condition.Parser.{
  Parse, ok, expect_rparen, parse_quant, parse_or, or_loop, parse_and, and_loop, parse_not,
  parse_primary,
}
use sigil_siem.Condition.Grammar.{
  Job, disjunction, conjunction, negation, primary, ors_after, ands_after, starts_or, starts_and,
  starts_not, Targets, everything, named, Derives, disjunct, more_or, last_or, conjunct, more_and,
  last_and, negate, plain, group, all_of, some_of, name,
}

-- The function of the parser that does a job.
abbrev pub run : Job → ℕ → List Tok → Parse
run disjunction f ts = parse_or f ts
run conjunction f ts = parse_and f ts
run negation f ts = parse_not f ts
run primary f ts = parse_primary f ts
run (ors_after a) f ts = or_loop f a ts
run (ands_after a) f ts = and_loop f a ts

-- The fuel of a job beside four for each token.
abbrev pub need : Job → ℕ
need disjunction = 4
need conjunction = 3
need negation = 2
need _ = 1

need-pos : (job : Job) → 0 < need job
need-pos disjunction = omega arith
need-pos _ = omega arith

-- The tokens that a job takes at the least.
abbrev pub taken : Job → ℕ
taken (ors_after a) = 0
taken (ands_after a) = 0
taken _ = 1

Targets-length : {ts rest : List Tok} {t : Target} → Targets ts t rest → length rest < length ts
Targets-length everything = omega arith
Targets-length named = omega arith

pub Derives-length :
    {job : Job} {ts rest : List Tok} {e : Expr}
    → Derives job ts e rest
    → length rest + taken job ≤ length ts
Derives-length (disjunct d l) = omega (arith, Derives-length d, Derives-length l)
Derives-length (more_or d l) = omega (arith, Derives-length d, Derives-length l)
Derives-length (last_or h) = omega arith
Derives-length (conjunct d l) = omega (arith, Derives-length d, Derives-length l)
Derives-length (more_and d l) = omega (arith, Derives-length d, Derives-length l)
Derives-length (last_and h) = omega arith
Derives-length (negate d) = omega (arith, Derives-length d)
Derives-length (plain h d) = omega (arith, Derives-length d)
Derives-length (group d) = omega (arith, Derives-length d)
Derives-length (all_of t) = omega (arith, Targets-length t)
Derives-length (some_of t) = omega (arith, Targets-length t)
Derives-length name = omega arith

parse_quant-Targets :
    {ts rest : List Tok} {t : Target} (at_least : Option ℕ)
    → Targets ts t rest
    → parse_quant at_least (Tok.of ∷ ts) ≡ ok (Expr.quant at_least t, rest)
unfolding parse_quant
parse_quant-Targets at_least everything = refl
parse_quant-Targets at_least named = refl

or_loop-last :
    (f : ℕ) (a : Expr) (ts : List Tok) → starts_or ts ≡ false → or_loop (suc f) a ts ≡ ok (a, ts)
unfolding or_loop
or_loop-last f a ts h = ground arith

and_loop-last :
    (f : ℕ) (a : Expr) (ts : List Tok) → starts_and ts ≡ false → and_loop (suc f) a ts ≡ ok (a, ts)
unfolding and_loop
and_loop-last f a ts h = ground arith

parse_not-plain :
    (f : ℕ) (ts : List Tok) → starts_not ts ≡ false → parse_not (suc f) ts ≡ parse_primary f ts
unfolding parse_not
parse_not-plain f ts h = ground arith

pub complete :
    {job : Job} {ts rest : List Tok} {e : Expr} (f : ℕ)
    → Derives job ts e rest
    → 4 * length ts + need job ≤ f
    → run job f ts ≡ ok (e, rest)
unfolding parse_or expect_rparen
complete {job} zero d h = absurd (omega (arith, need-pos job))
complete (suc f) (disjunct d l) h = ground (arith, complete f d, complete f l, Derives-length d)
complete (suc f) (more_or d l) h = ground (arith, complete f d, complete f l, Derives-length d)
complete (suc f) (last_or {ts = ts} {a = a} p) h = or_loop-last f a ts p
complete (suc f) (conjunct d l) h = ground (arith, complete f d, complete f l, Derives-length d)
complete (suc f) (more_and d l) h = ground (arith, complete f d, complete f l, Derives-length d)
complete (suc f) (last_and {ts = ts} {a = a} p) h = and_loop-last f a ts p
complete (suc f) (negate d) h = ground (arith, complete f d)
complete (suc f) (plain {ts = ts} p d) h = ground (arith, parse_not-plain f ts p, complete f d)
complete (suc f) (group d) h = ground (arith, complete f d)
complete (suc f) (all_of t) h = parse_quant-Targets none t
complete (suc f) (some_of {n = n} t) h = parse_quant-Targets (some n) t
complete (suc f) name h = refl

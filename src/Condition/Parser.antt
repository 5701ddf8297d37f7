-- ===== src/Condition/Parser.antt =====
-- The parser of crates/sigil-sigma/src/condition.rs. The tokens from `pos` on stand for the parser's
-- state. The functions call one another without a bound in the source; here every call takes one
-- from the fuel, and `starved` is the result where the fuel runs out.
use sigil_siem.Prelude.{ℕ, zero, suc, ◌+◌, ◌*◌, Option, none, some, List, [], ◌∷◌, length}
use sigil_siem.Prelude.Texts.{Text}
use sigil_siem.Condition.Syntax.{Tok, Target, Expr}
use sigil_siem.Condition.Lexer.{tokenize}

pub data Result {ℓ} (A : Type ℓ) : Type ℓ where
  ok : A → Result A
  bad : Result A
  starved : Result A

infixl 5 ◌>>=◌
abbrev pub ◌>>=◌ {ℓ κ} : {A : Type ℓ} {B : Type κ} → Result A → (A → Result B) → Result B
ok a >>= f = f a
bad >>= f = bad
starved >>= f = starved

abbrev pub Parse : Type 0
Parse = Result (Expr × List Tok)

-- `self.expect(Tok::Of)`
unfoldable pub expect_of : List Tok → Result (List Tok)
expect_of (Tok.of ∷ ts) = ok ts
expect_of _ = bad

unfoldable pub expect_rparen : List Tok → Result (List Tok)
expect_rparen (Tok.rparen ∷ ts) = ok ts
expect_rparen _ = bad

unfoldable pub parse_target : List Tok → Result (Target × List Tok)
parse_target (Tok.them ∷ ts) = ok (Target.them, ts)
parse_target (Tok.ident p ∷ ts) = ok (Target.pattern_of p, ts)
parse_target _ = bad

-- A quantifier from behind its number or `all`.
unfoldable pub parse_quant : Option ℕ → List Tok → Parse
unfolding expect_of parse_target
parse_quant at_least ts = do
  ts' ← expect_of ts
  (target, rest) ← parse_target ts'
  ok (Expr.quant at_least target, rest)

unfoldable mutual
  pub parse_or : ℕ → List Tok → Parse
  parse_or zero ts = starved
  parse_or (suc f) ts = parse_and f ts >>= λ r. or_loop f r.0 r.1

  -- The `while` loop of `parse_or`, from the left operand so far.
  pub or_loop : ℕ → Expr → List Tok → Parse
  or_loop zero lhs ts = starved
  or_loop (suc f) lhs (Tok.or ∷ ts) = parse_and f ts >>= λ r. or_loop f (Expr.or lhs r.0) r.1
  or_loop (suc f) lhs ts = ok (lhs, ts)

  pub parse_and : ℕ → List Tok → Parse
  parse_and zero ts = starved
  parse_and (suc f) ts = parse_not f ts >>= λ r. and_loop f r.0 r.1

  pub and_loop : ℕ → Expr → List Tok → Parse
  and_loop zero lhs ts = starved
  and_loop (suc f) lhs (Tok.and ∷ ts) = parse_not f ts >>= λ r. and_loop f (Expr.and lhs r.0) r.1
  and_loop (suc f) lhs ts = ok (lhs, ts)

  pub parse_not : ℕ → List Tok → Parse
  parse_not zero ts = starved
  parse_not (suc f) (Tok.not ∷ ts) = parse_not f ts >>= λ r. ok (Expr.not r.0, r.1)
  parse_not (suc f) ts = parse_primary f ts

  pub parse_primary : ℕ → List Tok → Parse
  parse_primary zero ts = starved
  parse_primary (suc f) (Tok.lparen ∷ ts) =
      parse_or f ts >>= λ r. expect_rparen r.1 >>= λ rest. ok (r.0, rest)
  parse_primary (suc f) (Tok.all ∷ ts) = parse_quant none ts
  parse_primary (suc f) (Tok.num n ∷ ts) = parse_quant (some n) ts
  parse_primary (suc f) (Tok.ident name ∷ ts) = ok (Expr.ref name, ts)
  parse_primary (suc f) ts = bad

-- No token may be left over.
abbrev pub finish : Expr × List Tok → Result Expr
finish (e, []) = ok e
finish (e, t ∷ ts) = bad

-- `parse` from the tokens on, with fuel enough for them.
unfoldable pub parse_tokens : List Tok → Result Expr
parse_tokens ts = parse_or (4 * length ts + 4) ts >>= finish

unfoldable pub parse : Text → Result Expr
parse input = elim (tokenize input) [ none ↦ bad | some ts ↦ parse_tokens ts ]

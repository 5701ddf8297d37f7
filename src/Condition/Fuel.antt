-- ===== src/Condition/Fuel.antt =====
-- The parser of crates/sigil-sigma/src/condition.rs ends on every input: the fuel is enough.
use sigil_siem.Prelude.{
  ℕ, zero, suc, ◌+◌, ◌*◌, ◌≤◌, ◌≡◌, ◌≢◌, refl, Option, none, some, List, [], ◌∷◌, length, arith,
}
use native.Mathlib.Nat.{le_refl}
use sigil_siem.Condition.Syntax.{Tok, Expr}
use sigil_siem.Condition.Parser.{
  Result, ok, bad, starved, expect_rparen, parse_quant, parse_or, or_loop, parse_and, and_loop,
  parse_not, parse_primary, finish, parse_tokens, ◌>>=◌,
}
use sigil_siem.Condition.Complete.{Derives-length}
use sigil_siem.Condition.Sound.{sound_and, sound_not}

>>=-ne-starved {ℓ κ} :
    {A : Type ℓ} {B : Type κ} (m : Result A) (k : A → Result B)
    → m ≢ starved
    → ((a : A) → m ≡ ok a → k a ≢ starved)
    → (m >>= k) ≢ starved
>>=-ne-starved (ok a) k h g = g a refl
>>=-ne-starved bad k h g = λ e. cc
>>=-ne-starved starved k h g = λ e. h refl

expect_rparen-ne-starved : (ts : List Tok) → expect_rparen ts ≢ starved
unfolding expect_rparen
expect_rparen-ne-starved ts h = ground arith

parse_quant-ne-starved : (q : Option ℕ) (ts : List Tok) → parse_quant q ts ≢ starved
unfolding parse_quant
parse_quant-ne-starved q ts h = ground arith

mutual
  unfolding parse_or

  fed_or : (f : ℕ) (ts : List Tok) → 4 * length ts + 4 ≤ f → parse_or f ts ≢ starved
  fed_or zero ts h = absurd (omega arith)
  fed_or (suc f) ts h =
      >>=-ne-starved (parse_and f ts) _ (fed_and f ts (omega arith))
        λ r p. fed_or_loop f r.0 r.1 (omega (arith, Derives-length (sound_and f ts r.0 r.1 p)))

  fed_or_loop :
      (f : ℕ) (a : Expr) (ts : List Tok) → 4 * length ts + 1 ≤ f → or_loop f a ts ≢ starved
  fed_or_loop zero a ts h = absurd (omega arith)
  fed_or_loop (suc f) a (Tok.or ∷ ts) h =
      >>=-ne-starved (parse_and f ts) _ (fed_and f ts (omega arith)) λ r p.
        fed_or_loop f (Expr.or a r.0) r.1 (omega (arith, Derives-length (sound_and f ts r.0 r.1 p)))
  fed_or_loop (suc f) a [] h = λ e. cc
  fed_or_loop (suc f) a (t ∷ ts) h = λ e. cc

  fed_and : (f : ℕ) (ts : List Tok) → 4 * length ts + 3 ≤ f → parse_and f ts ≢ starved
  fed_and zero ts h = absurd (omega arith)
  fed_and (suc f) ts h =
      >>=-ne-starved (parse_not f ts) _ (fed_not f ts (omega arith))
        λ r p. fed_and_loop f r.0 r.1 (omega (arith, Derives-length (sound_not f ts r.0 r.1 p)))

  fed_and_loop :
      (f : ℕ) (a : Expr) (ts : List Tok) → 4 * length ts + 1 ≤ f → and_loop f a ts ≢ starved
  fed_and_loop zero a ts h = absurd (omega arith)
  fed_and_loop (suc f) a (Tok.and ∷ ts) h =
      >>=-ne-starved (parse_not f ts) _ (fed_not f ts (omega arith)) λ r p.
        fed_and_loop f (Expr.and a r.0) r.1
          (omega (arith, Derives-length (sound_not f ts r.0 r.1 p)))
  fed_and_loop (suc f) a [] h = λ e. cc
  fed_and_loop (suc f) a (t ∷ ts) h = λ e. cc

  fed_not : (f : ℕ) (ts : List Tok) → 4 * length ts + 2 ≤ f → parse_not f ts ≢ starved
  fed_not zero ts h = absurd (omega arith)
  fed_not (suc f) (Tok.not ∷ ts) h =
      >>=-ne-starved (parse_not f ts) _ (fed_not f ts (omega arith)) (λ r p e. cc)
  fed_not (suc f) [] h = fed_primary f [] (omega arith)
  fed_not (suc f) (t ∷ ts) h = fed_primary f (t ∷ ts) (omega arith)

  fed_primary : (f : ℕ) (ts : List Tok) → 4 * length ts + 1 ≤ f → parse_primary f ts ≢ starved
  fed_primary zero ts h = absurd (omega arith)
  fed_primary (suc f) (Tok.lparen ∷ ts) h =
      >>=-ne-starved (parse_or f ts) _ (fed_or f ts (omega arith))
        λ r p. >>=-ne-starved (expect_rparen r.1) _ (expect_rparen-ne-starved r.1) (λ s q e. cc)
  fed_primary (suc f) (Tok.all ∷ ts) h = parse_quant-ne-starved none ts
  fed_primary (suc f) (Tok.num n ∷ ts) h = parse_quant-ne-starved (some n) ts
  fed_primary (suc f) (Tok.ident x ∷ ts) h = λ e. cc
  fed_primary (suc f) _ h = λ e. cc

finish-ne-starved : (r : Expr × List Tok) → finish r ≢ starved
finish-ne-starved (e, []) h = cc
finish-ne-starved (e, t ∷ ts) h = cc

-- Four units of fuel for a token, and four more, are enough for every list of tokens: the parser
-- ends with an expression or an error.
pub parse_tokens-ne-starved : (ts : List Tok) → parse_tokens ts ≢ starved
unfolding parse_tokens
parse_tokens-ne-starved ts =
    let fuel = 4 * length ts + 4 in
    >>=-ne-starved (parse_or fuel ts) finish (fed_or fuel ts (le_refl fuel))
      λ r p. finish-ne-starved r

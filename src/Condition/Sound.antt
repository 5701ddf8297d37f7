-- ===== src/Condition/Sound.antt =====
-- What the parser of crates/sigil-sigma/src/condition.rs accepts is in the grammar.
use mathlib.Core.Path.{subst₂}
use native.Mathlib.Nat.{le_refl}
use sigil_siem.Prelude.{
  ℕ, zero, suc, ◌+◌, ◌*◌, ◌≡◌, ◌∙◌, ap, ◌↔◌, refl, Option, none, some, List, [], ◌∷◌, length, arith,
}
use sigil_siem.Condition.Syntax.{Tok, Target, Expr}
use sigil_siem.Condition.Parser.{
  Parse, Result, ok, bad, starved, expect_rparen, parse_quant, parse_or, or_loop, parse_and,
  and_loop, parse_not, parse_primary, finish, parse_tokens, ◌>>=◌,
}
use sigil_siem.Condition.Grammar.{
  Job, disjunction, conjunction, negation, primary, ors_after, ands_after, Targets, everything,
  named, Derives, disjunct, more_or, last_or, conjunct, more_and, last_and, negate, plain, group,
  all_of, some_of, name,
}
use sigil_siem.Condition.Complete.{complete}

pub >>=-eq-ok {ℓ κ} :
    {X : Type ℓ} {Y : Type κ} (first : Result X) (next : X → Result Y) {y : Y}
    → (first >>= next) ≡ ok y
    → (x : X) × (first ≡ ok x) × (next x ≡ ok y)
>>=-eq-ok bad next h = cc
>>=-eq-ok starved next h = cc
>>=-eq-ok (ok x) next h = (x, refl, h)

abbrev pub read_as : Expr → List Tok → Parse
read_as e rest = ok (e, rest)

-- A derivation may be carried along an equation of results.
carry :
    {job : Job} {ts rest rest' : List Tok} {e e' : Expr}
    → read_as e rest ≡ read_as e' rest'
    → Derives job ts e rest
    → Derives job ts e' rest'
carry {job} {ts} h d = subst₂ (λ x r. Derives job ts x r) (cc) (cc) d

expect_rparen_sound : (ts rest : List Tok) → expect_rparen ts ≡ ok rest → ts ≡ Tok.rparen ∷ rest
unfolding expect_rparen
expect_rparen_sound ts rest h = ground arith

-- The token that opens a quantifier.
abbrev pub quantifier : Option ℕ → Tok
quantifier none = Tok.all
quantifier (some n) = Tok.num n

pub quant_of :
    (q : Option ℕ) {ts rest : List Tok} {t : Target}
    → Targets ts t rest
    → Derives primary (quantifier q ∷ Tok.of ∷ ts) (Expr.quant q t) rest
quant_of none t = all_of t
quant_of (some n) t = some_of t

parse_quant_sound :
    (q : Option ℕ) (ts : List Tok) (e : Expr) (rest : List Tok)
    → parse_quant q ts ≡ ok (e, rest)
    → Derives primary (quantifier q ∷ ts) e rest
unfolding parse_quant
parse_quant_sound q (Tok.of ∷ Tok.them ∷ ts) e rest h = carry h (quant_of q everything)
parse_quant_sound q (Tok.of ∷ Tok.ident p ∷ ts) e rest h = carry h (quant_of q named)
parse_quant_sound q _ e rest h = cc

mutual
  unfolding parse_or

  pub sound_or :
      (f : ℕ) (ts : List Tok) (e : Expr) (rest : List Tok)
      → parse_or f ts ≡ ok (e, rest)
      → Derives disjunction ts e rest
  sound_or zero ts e rest h = cc
  sound_or (suc f) ts e rest h =
      let (r, p, q) = >>=-eq-ok (parse_and f ts) (λ r. or_loop f r.0 r.1) h in
      disjunct (sound_and f ts r.0 r.1 p) (sound_or_loop f r.0 r.1 e rest q)

  pub sound_or_loop :
      (f : ℕ) (a : Expr) (ts : List Tok) (e : Expr) (rest : List Tok)
      → or_loop f a ts ≡ ok (e, rest)
      → Derives (ors_after a) ts e rest
  sound_or_loop zero a ts e rest h = cc
  sound_or_loop (suc f) a (Tok.or ∷ ts) e rest h =
      let (r, p, q) = >>=-eq-ok (parse_and f ts) (λ r. or_loop f (Expr.or a r.0) r.1) h in
      more_or (sound_and f ts r.0 r.1 p) (sound_or_loop f (Expr.or a r.0) r.1 e rest q)
  sound_or_loop (suc f) a [] e rest h = carry h (last_or refl)
  sound_or_loop (suc f) a (t ∷ ts) e rest h = carry h (last_or refl)

  pub sound_and :
      (f : ℕ) (ts : List Tok) (e : Expr) (rest : List Tok)
      → parse_and f ts ≡ ok (e, rest)
      → Derives conjunction ts e rest
  sound_and zero ts e rest h = cc
  sound_and (suc f) ts e rest h =
      let (r, p, q) = >>=-eq-ok (parse_not f ts) (λ r. and_loop f r.0 r.1) h in
      conjunct (sound_not f ts r.0 r.1 p) (sound_and_loop f r.0 r.1 e rest q)

  pub sound_and_loop :
      (f : ℕ) (a : Expr) (ts : List Tok) (e : Expr) (rest : List Tok)
      → and_loop f a ts ≡ ok (e, rest)
      → Derives (ands_after a) ts e rest
  sound_and_loop zero a ts e rest h = cc
  sound_and_loop (suc f) a (Tok.and ∷ ts) e rest h =
      let (r, p, q) = >>=-eq-ok (parse_not f ts) (λ r. and_loop f (Expr.and a r.0) r.1) h in
      more_and (sound_not f ts r.0 r.1 p) (sound_and_loop f (Expr.and a r.0) r.1 e rest q)
  sound_and_loop (suc f) a [] e rest h = carry h (last_and refl)
  sound_and_loop (suc f) a (t ∷ ts) e rest h = carry h (last_and refl)

  pub sound_not :
      (f : ℕ) (ts : List Tok) (e : Expr) (rest : List Tok)
      → parse_not f ts ≡ ok (e, rest)
      → Derives negation ts e rest
  sound_not zero ts e rest h = cc
  sound_not (suc f) (Tok.not ∷ ts) e rest h =
      let (r, p, q) = >>=-eq-ok (parse_not f ts) (λ r. ok (Expr.not r.0, r.1)) h in
      carry q (negate (sound_not f ts r.0 r.1 p))
  sound_not (suc f) [] e rest h = plain refl (sound_primary f [] e rest h)
  sound_not (suc f) (t ∷ ts) e rest h = plain refl (sound_primary f (t ∷ ts) e rest h)

  pub sound_primary :
      (f : ℕ) (ts : List Tok) (e : Expr) (rest : List Tok)
      → parse_primary f ts ≡ ok (e, rest)
      → Derives primary ts e rest
  sound_primary zero ts e rest h = cc
  sound_primary (suc f) (Tok.lparen ∷ ts) e rest h =
      let (r, p, q) = >>=-eq-ok (parse_or f ts) (λ r. expect_rparen r.1 >>= λ s. ok (r.0, s)) h in
      let (s, u, v) = >>=-eq-ok (expect_rparen r.1) (λ s. ok (r.0, s)) q in
      carry v (
        group
          (sound_or f ts r.0 (Tok.rparen ∷ s) (p ∙ ap (read_as r.0) (expect_rparen_sound r.1 s u))))
  sound_primary (suc f) (Tok.all ∷ ts) e rest h = parse_quant_sound none ts e rest h
  sound_primary (suc f) (Tok.num n ∷ ts) e rest h = parse_quant_sound (some n) ts e rest h
  sound_primary (suc f) (Tok.ident x ∷ ts) e rest h = carry h name
  sound_primary (suc f) _ e rest h = cc

finish-ok : (r : Expr × List Tok) (e : Expr) → finish r ≡ ok e → r ≡ (e, [])
finish-ok (x, []) e h = cc
finish-ok (x, t ∷ ts) e h = cc

-- The parser accepts a list of tokens with a result exactly if the grammar derives that result from
-- all of the tokens.
pub parse_tokens-Derives :
    (ts : List Tok) (e : Expr) → (parse_tokens ts ≡ ok e) ↔ Derives disjunction ts e []
unfolding parse_tokens
parse_tokens-Derives ts e =
    let fuel = 4 * length ts + 4 in
    (
      λ h.
          let (r, p, q) = >>=-eq-ok (parse_or fuel ts) finish h in
          sound_or fuel ts e [] (p ∙ ap ok (finish-ok r e q)),
      λ d. ap (λ r. r >>= finish) (complete fuel d (le_refl fuel)),
    )

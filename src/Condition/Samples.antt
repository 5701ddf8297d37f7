-- ===== src/Condition/Samples.antt =====
-- `selection and not filter`, and other conditions of the source's tests.
use sigil_siem.Prelude.{◌≡◌, ◌≢◌, ◌↔◌, refl, true, none, some, List, [], ◌∷◌, if◌then◌else◌}
use sigil_siem.Prelude.Texts.{codes, text_eq, ascii_lower}
use sigil_siem.Condition.Syntax.{Tok, Target, Expr}
use sigil_siem.Condition.Lexer.{tokenize, is_whitespace}
use sigil_siem.Condition.Parser.{ok, starved, parse_tokens, parse, parse_or}
use sigil_siem.Condition.Grammar.{Derives, disjunction}
use sigil_siem.Condition.Sound.{parse_tokens-Derives}
use sigil_siem.Condition.Fuel.{parse_tokens-ne-starved}
use sigil_siem.Condition.Print.{print, parse_tokens-print}
use sigil_siem.Condition.Eval.{Results, eval}
use sigil_siem.Condition.Meaning.{Meaning, eval-Meaning}

abbrev and_not : Expr
and_not = Expr.and (Expr.ref (codes "selection")) (Expr.not (Expr.ref (codes "filter")))

parse-and_not : parse (codes "selection and not filter") ≡ ok and_not
unfolding parse tokenize is_whitespace ascii_lower text_eq parse_tokens parse_or
parse-and_not = refl

abbrev tokens : List Tok
tokens = Tok.ident (codes "selection") ∷ Tok.and ∷ Tok.not ∷ Tok.ident (codes "filter") ∷ []

parse_tokens-Derives_example :
    (parse_tokens tokens ≡ ok and_not) ↔ Derives disjunction tokens and_not []
parse_tokens-Derives_example = parse_tokens-Derives tokens and_not

parse_tokens-ne-starved_example : parse_tokens tokens ≢ starved
parse_tokens-ne-starved_example = parse_tokens-ne-starved tokens

abbrev mixed : Expr
mixed =
    Expr.and (Expr.or (Expr.ref (codes "a")) (Expr.quant (some 1) (Target.pattern_of (codes "f*"))))
      (Expr.quant none Target.them)

parse_tokens-print_example : parse_tokens (print mixed) ≡ ok mixed
parse_tokens-print_example = parse_tokens-print mixed

abbrev results : Results
results n = if text_eq n (codes "selection") then some true else none

eval-Meaning_example :
    (eval and_not results (codes "selection" ∷ codes "filter" ∷ []) ≡ true)
    ↔ Meaning and_not results (codes "selection" ∷ codes "filter" ∷ [])
eval-Meaning_example = eval-Meaning and_not results (codes "selection" ∷ codes "filter" ∷ [])

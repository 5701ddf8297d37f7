-- ===== src/Condition/Eval.antt =====
-- `Target::select` and `eval` of crates/sigil-sigma/src/condition.rs. The map of the results of the
-- selections is a function; a missing name counts as false.
use sigil_siem.Prelude.{
  ℕ, Bool, true, false, not, ◌&&◌, ◌||◌, Option, none, some, List, [], ◌∷◌, leb, ◌==◌, length,
  filter, unwrap_or, if◌then◌else◌,
}
use sigil_siem.Prelude.Texts.{Text, text_eq, starts_with}
use sigil_siem.Condition.Syntax.{Target, Expr}

-- `strip_suffix('*')`
unfoldable pub strip_star : Text → Option Text
strip_star [] = none
strip_star (c ∷ []) = if c == b'*' then some [] else none
strip_star (c ∷ d ∷ s) = elim (strip_star (d ∷ s)) [ none ↦ none | some p ↦ some (c ∷ p) ]

-- The name is one that the target selects.
abbrev pub selects_prefix : Option Text → Text → Text → Bool
selects_prefix none p n = text_eq n p
selects_prefix (some prefix) p n = starts_with n prefix

unfoldable pub selects : Target → Text → Bool
unfolding strip_star
selects Target.them n = true
selects (Target.pattern_of p) n = selects_prefix (strip_star p) p n

unfoldable pub select : Target → List Text → List Text
unfolding selects
select t names = filter (selects t) names

abbrev pub Results : Type 0
Results = Text → Option Bool

unfoldable pub holds : Results → Text → Bool
holds results n = unwrap_or (results n) false

-- `all of` wants a selection and every one of them; `N of` wants `N` at least.
abbrev pub enough : Option ℕ → ℕ → ℕ → Bool
enough none hits selected = not (selected == 0) && hits == selected
enough (some k) hits selected = leb k hits

unfoldable pub eval : Expr → Results → List Text → Bool
unfolding select holds
eval (Expr.ref n) results names = holds results n
eval (Expr.not e) results names = not (eval e results names)
eval (Expr.and a b) results names = eval a results names && eval b results names
eval (Expr.or a b) results names = eval a results names || eval b results names
eval (Expr.quant at_least t) results names =
    let selected = select t names in
    enough at_least (length (filter (holds results) selected)) (length selected)

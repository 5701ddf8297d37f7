-- ===== src/Condition/Syntax.antt =====
-- Tokens and expressions of crates/sigil-sigma/src/condition.rs.
use sigil_siem.Prelude.{ℕ, Option}
use sigil_siem.Prelude.Texts.{Text}

-- The keywords `and`, `or`, `not`, `of`, `them` and `all`, numbers, names and parentheses.
pub data Tok : Type 0 where
  and or not of them all : Tok
  num : ℕ → Tok
  ident : Text → Tok
  lparen rparen : Tok

-- A name, or a prefix where it ends with a star.
pub data Target : Type 0 where
  them : Target
  pattern_of : Text → Target

pub data Expr : Type 0 where
  ref : Text → Expr
  not : Expr → Expr
  and : Expr → Expr → Expr
  or : Expr → Expr → Expr
  -- at_least (`none` for `all of`), target
  quant : Option ℕ → Target → Expr

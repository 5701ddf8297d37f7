-- ===== src/Edr/Calls.antt =====
-- Sequences of calls of the token store, crates/sigil-edr/src/tokens.rs, and the set they keep.
use mathlib.Core.Path.{fun_ext}
use sigil_siem.Prelude.{
  ℕ, ◌≡◌, refl, sym, ap, ◌∙◌, Bool, true, false, Option, none, some, List, [], ◌∷◌, ◌>>=◌,
  >>=-eq-some, if◌then◌else◌,
}
use sigil_siem.Prelude.Texts.{Text, text_eq}
use sigil_siem.Event.Model.{Timestamp}
use sigil_siem.Store.Tables.{Backend, IsLawful, Store}
use sigil_siem.Edr.Enrolment.{contains_token, valid-write, valid-revoke, valid-seed}
use sigil_siem.Edr.Codec.{Codec}
use sigil_siem.Edr.Tokens.{TokenRecord, is_empty, write, seed, issue, valid, revoke}

-- A call of the token store that succeeds.
pub data TokenCall : Type 0 where
  issue_call : Timestamp → (fresh : Text) → is_empty fresh ≡ false → Text → Option Text → TokenCall
  seed_call : (ℕ → Timestamp) → List Text → TokenCall
  revoke_call : Text → TokenCall

abbrev pub seeded : {B : Backend} → Store B × Bool → Option (Store B)
seeded (s, true) = some s
seeded (s, false) = none

abbrev pub call : {B : Backend} → Codec B.Value TokenRecord → TokenCall → Store B → Option (Store B)
call c (issue_call now fresh n label by) store = issue c now fresh store label by >>= λ r. some r.0
call c (seed_call clock tokens) store = seeded (seed c clock 0 store tokens)
call c (revoke_call token) store = revoke store token >>= λ r. some r.0

unfoldable pub calls :
    {B : Backend} → Codec B.Value TokenRecord → List TokenCall → Store B → Option (Store B)
calls c [] store = some store
calls c (op ∷ ops) store = call c op store >>= calls c ops

-- The same calls on the function that answers which tokens are accepted.
abbrev pub accept : TokenCall → (Text → Option Bool) → Text → Option Bool
accept (issue_call now fresh n label by) f q = if text_eq fresh q then some true else f q
accept (seed_call clock tokens) f q = if contains_token tokens q then some true else f q
accept (revoke_call token) f q = if text_eq token q then some false else f q

unfoldable pub accepts : List TokenCall → (Text → Option Bool) → Text → Option Bool
accepts [] f = f
accepts (op ∷ ops) f = accepts ops (accept op f)

module _ {B : Backend} (lawful : IsLawful B) (c : Codec B.Value TokenRecord) where
  call-valid :
      (op : TokenCall) (store s : Store B)
      → call c op store ≡ some s
      → valid s ≡ accept op (valid store)
  unfolding issue
  call-valid (issue_call now fresh n label by) store s h =
      let (r, e, h1) = >>=-eq-some (issue c now fresh store label by) _ h in
      let (t, w, h2) = >>=-eq-some (write c store _) _ e in
      let same : t ≡ s = cc in
      fun_ext (λ q. valid-write lawful c store s _ q n (w ∙ ap (λ u. some u) same))
  call-valid (seed_call clock tokens) store s h = outcome (seed c clock 0 store tokens) refl h
    where
      outcome :
          (r : Store B × Bool)
          → seed c clock 0 store tokens ≡ r
          → seeded r ≡ some s
          → valid s ≡ accept (seed_call clock tokens) (valid store)
      outcome (u, true) e h =
          let same : u ≡ s = cc in
          fun_ext (λ q. valid-seed lawful c clock 0 store s tokens q (e ∙ ap (λ v. (v, true)) same))
      outcome (u, false) e h = cc
  call-valid (revoke_call token) store s h =
      let ((t, found), e, h1) = >>=-eq-some (revoke store token) _ h in
      let same : t ≡ s = cc in
      fun_ext (λ q. valid-revoke lawful store s token q found (e ∙ ap (λ u. some (u, found)) same))

  -- The token store refines a set: after any calls that succeed, a token is accepted exactly as the
  -- same calls on a set of tokens say, in which issuing and seeding put tokens and revoking takes
  -- one out. The empty token is never put.
  pub calls-valid :
      (ops : List TokenCall) (store s : Store B)
      → calls c ops store ≡ some s
      → valid s ≡ accepts ops (valid store)
  unfolding calls accepts
  calls-valid [] store s h = let same : store ≡ s = cc in ap valid (sym same)
  calls-valid (op ∷ ops) store s h =
      let (t, e, rest) = >>=-eq-some (call c op store) _ h in
      calls-valid ops t s rest ∙ ap (accepts ops) (call-valid op store t e)

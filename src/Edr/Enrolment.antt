-- ===== src/Edr/Enrolment.antt =====
-- Which enrolment tokens crates/sigil-edr/src/tokens.rs accepts, over any sequence of calls.

use sigil_siem.Prelude.{
  ℕ, ◌+◌, ◌≡◌, refl, sym, ap, ◌∙◌, Bool, true, false, not, ◌&&◌, ◌||◌, any, Option, none, some,
  List, [], ◌∷◌, ◌>>=◌, >>=-eq-some, if◌then◌else◌, Bool-cases, inl, inr,
}
use sigil_siem.Prelude.Texts.{Text, text_eq, text_eq_iff}
use sigil_siem.Event.Model.{Timestamp}
use sigil_siem.Store.Records.{SavedObject}
use sigil_siem.Store.Tables.{Backend, IsLawful, Store}
use sigil_siem.Store.Saved.{get_saved}
use sigil_siem.Store.Triage.{if_map}
use sigil_siem.Store.Objects.{
  IsKind, all-IsKind, same_object-id, get_saved-put_saved, get_saved-delete_saved,
}
use sigil_siem.Edr.Codec.{Codec}
use sigil_siem.Edr.Tokens.{
  TokenRecord, token_kind, token_object, is_empty, is_some, write, seed_one, seed_found, after_seed,
  seed, valid, revoke,
}

token_kind-IsKind : IsKind token_kind
token_kind-IsKind = all-IsKind token_kind refl

-- What `valid` answers, by what is stored.
abbrev pub verdict {ℓ} : {A : Type ℓ} → Option (Option A) → Option Bool
verdict found = found >>= λ o. some (is_some o)

valid_of :
    {B : Backend} (store : Store B) (c_ : ℕ) (s_ : Text)
    → valid store (c_ ∷ s_) ≡ verdict (get_saved store token_kind (c_ ∷ s_))
unfolding valid
valid_of store c_ s_ = refl

valid_empty : {B : Backend} (store : Store B) → valid store [] ≡ some false
unfolding valid
valid_empty store = refl

text_eq-nil : (t : Text) → is_empty t ≡ false → text_eq t [] ≡ false
unfolding text_eq
text_eq-nil [] h = cc
text_eq-nil (c ∷ s) h = refl

module _ {B : Backend} (lawful : IsLawful B) where
  module _ (c : Codec B.Value TokenRecord) where
    -- A token that is written is valid, and the others are what they were.
    pub valid-write :
        (store s : Store B) (rec : TokenRecord) (q : Text)
        → is_empty rec.token ≡ false
        → write c store rec ≡ some s
        → valid s q ≡ (if text_eq rec.token q then some true else valid store q)
    unfolding write
    valid-write store s rec [] n h =
        valid_empty s
        ∙ sym (
            ap (λ b. if b then some true else valid store []) (text_eq-nil rec.token n)
            ∙ valid_empty store)
    valid-write store s rec (q ∷ qs) n h =
        let (body, _, put) = >>=-eq-some (c.to_value rec) _ h in
        valid_of s q qs
        ∙ ap verdict (
            get_saved-put_saved lawful store s (token_object rec body) token_kind (q ∷ qs) put
            ∙ ap
                (λ b.
                  if b
                  then some (some (token_object rec body))
                  else get_saved store token_kind (q ∷ qs))
                (same_object-id token_kind rec.token (q ∷ qs) token_kind-IsKind))
        ∙ if_map verdict (text_eq rec.token (q ∷ qs)) _ _
        ∙ ap (λ v. if text_eq rec.token (q ∷ qs) then some true else v) (sym (valid_of store q qs))

  pub valid-revoke :
      (store s : Store B) (token q : Text) (found : Bool)
      → revoke store token ≡ some (s, found)
      → valid s q ≡ (if text_eq token q then some false else valid store q)
  unfolding revoke
  valid-revoke store s token [] found h =
      valid_empty s ∙ sym (empty_either (text_eq token []) (valid_empty store))
    where
      empty_either :
          (b : Bool) {v : Option Bool} → v ≡ some false → (if b then some false else v) ≡ some false
      empty_either true e = refl
      empty_either false e = e
  valid-revoke store s token (q ∷ qs) found h =
      valid_of s q qs
      ∙ ap verdict (
          get_saved-delete_saved lawful store s token_kind token token_kind (q ∷ qs) found h
          ∙ ap (λ b. if b then some none else get_saved store token_kind (q ∷ qs))
              (same_object-id token_kind token (q ∷ qs) token_kind-IsKind))
      ∙ if_map verdict (text_eq token (q ∷ qs)) _ _
      ∙ ap (λ v. if text_eq token (q ∷ qs) then some false else v) (sym (valid_of store q qs))

abbrev pub contains_token : List Text → Text → Bool
contains_token ts q = any (λ t. not (is_empty t) && text_eq t q) ts

module _ {B : Backend} (lawful : IsLawful B) (c : Codec B.Value TokenRecord) where
  found-valid :
      (store : Store B) (c_ : ℕ) (s_ : Text) (held : SavedObject B.Value)
      → get_saved store token_kind (c_ ∷ s_) ≡ some (some held)
      → valid store (c_ ∷ s_) ≡ some true
  found-valid store c_ s_ held g = valid_of store c_ s_ ∙ ap verdict g

  kept_valid :
      (store : Store B) (t q : Text)
      → valid store t ≡ some true
      → valid store q ≡ (if text_eq t q then some true else valid store q)
  kept_valid store t q v = elim (Bool-cases (text_eq t q)) [
    | inl same ↦
        ap (valid store) (sym ((text_eq_iff t q).0 same))
        ∙ v
        ∙ sym (ap (λ b. if b then some true else valid store q) same)
    | inr differ ↦ sym (ap (λ b. if b then some true else valid store q) differ)
  ]

  valid-seed_one :
      (now : Timestamp) (store s : Store B) (t q : Text)
      → seed_one c now store t ≡ some s
      → valid s q ≡ (if not (is_empty t) && text_eq t q then some true else valid store q)
  unfolding seed_one
  valid-seed_one now store s [] q h = let same : store ≡ s = cc in ap (λ u. valid u q) (sym same)
  valid-seed_one now store s (t ∷ ts) q h =
      let (found, g, e) = >>=-eq-some (get_saved store token_kind (t ∷ ts)) _ h in outcome found g e
    where
      outcome :
          (found : Option (SavedObject B.Value))
          → get_saved store token_kind (t ∷ ts) ≡ some found
          → seed_found c now store (t ∷ ts) found ≡ some s
          → valid s q ≡ (if text_eq (t ∷ ts) q then some true else valid store q)
      outcome (some held) g e =
          let same : store ≡ s = cc in
          ap (λ u. valid u q) (sym same)
          ∙ kept_valid store (t ∷ ts) q (found-valid store t ts held g)
      outcome none g e = valid-write lawful c store s _ q refl e

  either_true :
      (a b : Bool) (v : Option Bool)
      → (if b then some true else (if a then some true else v)) ≡ (if a || b then some true else v)
  either_true true true v = refl
  either_true true false v = refl
  either_true false true v = refl
  either_true false false v = refl

  pub valid-seed :
      (clock : ℕ → Timestamp) (i : ℕ) (store s : Store B) (tokens : List Text) (q : Text)
      → seed c clock i store tokens ≡ (s, true)
      → valid s q ≡ (if contains_token tokens q then some true else valid store q)
  unfolding seed
  valid-seed clock i store s [] q h = let same : store ≡ s = cc in ap (λ u. valid u q) (sym same)
  valid-seed clock i store s (t ∷ ts) q h =
      outcome (seed_one c (clock i) store t) refl h
        (λ u rest. valid-seed clock (i + 1) u s ts q rest)
    where
      outcome :
          (o : Option (Store B))
          → seed_one c (clock i) store t ≡ o
          → after_seed c o store (λ u. seed c clock (i + 1) u ts) ≡ (s, true)
          → ((u : Store B)
              → seed c clock (i + 1) u ts ≡ (s, true)
              → valid s q ≡ (if contains_token ts q then some true else valid u q))
          → valid s q ≡ (if contains_token (t ∷ ts) q then some true else valid store q)
      outcome none e h later = cc
      outcome (some u) e h later =
          later u h
          ∙ ap (λ v. if contains_token ts q then some true else v)
              (valid-seed_one (clock i) store u t q e)
          ∙ either_true (not (is_empty t) && text_eq t q) (contains_token ts q) (valid store q)

-- ===== src/Store/Memory.antt =====
-- A table in memory meets what crates/sigil-store/src/lib.rs relies on.
use sigil_siem.Prelude.{
  ◌≡◌, refl, sym, ap, ◌∙◌, ◌⊎◌, inl, inr, Bool, true, false, Option, none, some, List, [], ◌∷◌,
  if◌then◌else◌, arith,
}
use sigil_siem.Prelude.Texts.{Text, text_eq, text_eq_iff}
use sigil_siem.Event.Model.{get}
use sigil_siem.Detection.Compile.{put_selection}
use sigil_siem.Detection.Loading.{get-put_selection}
use sigil_siem.Store.Records.{AlertRecord, SavedObject}
use sigil_siem.Store.Tables.{Backend, IsLawful, Store}

-- The rows without a key.
unfoldable pub without {ℓ} : {V : Type ℓ} → Text → List (Text × V) → List (Text × V)
without key [] = []
without key (entry ∷ rest) =
    let later = without key rest in if text_eq entry.0 key then later else entry ∷ later

get-without {ℓ} :
    {V : Type ℓ} (key other : Text) (rows : List (Text × V))
    → get other (without key rows) ≡ (if text_eq key other then none else get other rows)
unfolding get without
get-without key other [] = ground arith
get-without key other ((held, old) ∷ rows) = ground (
  arith,
  get-without key other rows,
  text_eq_iff held key,
  text_eq_iff key other,
  text_eq_iff held other,
)

abbrev pub is_found {ℓ} : {A : Type ℓ} → Option A → Bool
is_found none = false
is_found (some a) = true

abbrev pub alert_in : {V : Type 0} → AlertRecord ⊎ SavedObject V → Option AlertRecord
alert_in (inl r) = some r
alert_in (inr o) = none

abbrev pub saved_in : {V : Type 0} → AlertRecord ⊎ SavedObject V → Option (SavedObject V)
saved_in (inl r) = none
saved_in (inr o) = some o

abbrev pub memory : Type 0 → Backend
memory V = record {
  Table = List (Text × (AlertRecord ⊎ SavedObject V));
  Json = AlertRecord ⊎ SavedObject V;
  get = λ t k. some (get k t);
  insert = λ t k v. some (put_selection k v t);
  remove = λ t k. some (without k t, is_found (get k t));
  rows = λ t. some t;
  Value = V;
  alert_to_json = λ r. some (inl r);
  alert_from_json = alert_in;
  saved_to_json = λ o. some (inr o);
  saved_from_json = saved_in;
}

some-if {ℓ} :
    {A : Type ℓ} (b : Bool) (x y : A) → some (if b then x else y) ≡ (if b then some x else some y)
some-if true x y = refl
some-if false x y = refl

pub memory-IsLawful : (V : Type 0) → IsLawful (memory V)
memory-IsLawful V = record {
  get-insert = λ t u k l v e.
      ap (λ w. some (get l w)) (sym (let same : put_selection k v t ≡ u = cc in same))
      ∙ ap (λ r. some r) (get-put_selection k l v t)
      ∙ some-if (text_eq k l) (some v) (get l t);
  get-remove = λ t u k l found e.
      ap (λ w. some (get l w)) (sym (let same : without k t ≡ u = cc in same))
      ∙ ap (λ r. some r) (get-without k l t)
      ∙ some-if (text_eq k l) none (get l t);
  alert_json = λ r s e. ap alert_in (sym (let same : inl r ≡ s = cc in same));
  saved_json = λ o s e. ap saved_in (sym (let same : inr o ≡ s = cc in same));
}

abbrev pub empty_store : (V : Type 0) → Store (memory V)
empty_store V = record { alerts = []; saved = [] }

-- ===== src/Store/Objects.antt =====
-- Saved objects of crates/sigil-store/src/lib.rs, by kind and id.

use sigil_siem.Prelude.{
  ℕ, ◌≡◌, ◌≢◌, refl, sym, ap, ◌∙◌, Bool, true, false, none, some, [], ◌∷◌, ◌>>=◌, >>=-eq-some,
  if◌then◌else◌, Bool-cases, inl, inr, All, arith, all, not, ◌==◌,
}
use sigil_siem.Prelude.Texts.{Text, text_eq, text_eq_iff}
use sigil_siem.Store.Records.{SavedObject}
use sigil_siem.Store.Tables.{Backend, IsLawful, Store}
use sigil_siem.Store.Alerts.{parsed_row}
use sigil_siem.Store.Triage.{if_map}
use sigil_siem.Store.Saved.{saved_key, put_saved, get_saved, delete_saved}

-- A kind without the separator.
abbrev pub IsKind : Text → Type 0
IsKind = All (λ c. c ≢ 0x1f)

pub all-IsKind : (s : Text) → all (λ c. not (c == 0x1f)) s ≡ true → IsKind s
all-IsKind [] h = tt
all-IsKind (c ∷ s) h = (ground arith, all-IsKind s (ground arith))

cons_head : (c d : ℕ) (s t : Text) → c ∷ s ≡ d ∷ t → (c ≡ d) × (s ≡ t)
cons_head c d s t e = (cc, cc)

-- Kind and id are told from their key.
saved_key-injective :
    (kind other id id' : Text)
    → IsKind kind
    → IsKind other
    → saved_key kind id ≡ saved_key other id'
    → (kind ≡ other) × (id ≡ id')
unfolding saved_key
saved_key-injective [] [] id id' k o e = (refl, (cons_head _ _ id id' e).1)
saved_key-injective [] (d ∷ other) id id' k (n, o) e = absurd (n (sym (cons_head _ _ _ _ e).0))
saved_key-injective (c ∷ kind) [] id id' (n, k) o e = absurd (n (cons_head _ _ _ _ e).0)
saved_key-injective (c ∷ kind) (d ∷ other) id id' (_, k) (_, o) e =
    let (head, tail) = cons_head _ _ _ _ e in
    let (kinds, ids) = saved_key-injective kind other id id' k o tail in
    (let both : c ∷ kind ≡ d ∷ other = cc in both, ids)

-- Whether two pairs of kind and id are the same.
abbrev pub same_object : Text → Text → Text → Text → Bool
same_object kind id other id' = text_eq (saved_key kind id) (saved_key other id')

module _ {B : Backend} (lawful : IsLawful B) where
  -- An object that is written is read back under its key, and the reads under other keys stay.
  pub get_saved-put_saved :
      (store s : Store B) (obj : SavedObject B.Value) (kind id : Text)
      → put_saved store obj ≡ some s
      → get_saved s kind id
        ≡ (if same_object obj.kind obj.id kind id then some (some obj) else get_saved store kind id)
  unfolding get_saved put_saved parsed_row
  get_saved-put_saved store s obj kind id h =
      let (json, e, h1) = >>=-eq-some (B.saved_to_json obj) _ h in
      let (saved, i, h2) =
        >>=-eq-some (B.insert store.saved (saved_key obj.kind obj.id) json) _ h1 in
      let same : record store { saved = saved } ≡ s = cc in
      let key = saved_key kind id in
      ap (λ t. B.get t key >>= parsed_row B.saved_from_json) (sym (ap (λ t. t.saved) same))
      ∙ ap (λ row. row >>= parsed_row B.saved_from_json)
          (lawful.get-insert store.saved saved (saved_key obj.kind obj.id) key json i)
      ∙ if_map (λ row. row >>= parsed_row B.saved_from_json) (same_object obj.kind obj.id kind id) _
          _
      ∙ ap
          (λ row.
            if same_object obj.kind obj.id kind id
            then row >>= (λ a. some (some a))
            else B.get store.saved key >>= parsed_row B.saved_from_json)
          (lawful.saved_json obj json e)

  -- An object that is deleted is gone, and the reads under other keys stay.
  pub get_saved-delete_saved :
      (store s : Store B) (kind id other id' : Text) (found : Bool)
      → delete_saved store kind id ≡ some (s, found)
      → get_saved s other id'
        ≡ (if same_object kind id other id' then some none else get_saved store other id')
  unfolding get_saved delete_saved parsed_row
  get_saved-delete_saved store s kind id other id' found h =
      let ((saved, hit), e, h1) = >>=-eq-some (B.remove store.saved (saved_key kind id)) _ h in
      let same : record store { saved = saved } ≡ s = cc in
      let key = saved_key other id' in
      ap (λ t. B.get t key >>= parsed_row B.saved_from_json) (sym (ap (λ t. t.saved) same))
      ∙ ap (λ row. row >>= parsed_row B.saved_from_json)
          (lawful.get-remove store.saved saved (saved_key kind id) key hit e)
      ∙ if_map (λ row. row >>= parsed_row B.saved_from_json) (same_object kind id other id') _ _

pub same_object_refl : (kind id : Text) → same_object kind id kind id ≡ true
same_object_refl kind id = (text_eq_iff _ _).1 refl

same_object-false :
    (kind id other id' : Text)
    → IsKind kind
    → IsKind other
    → ¬ ((kind ≡ other) × (id ≡ id'))
    → same_object kind id other id' ≡ false
same_object-false kind id other id' k o n = elim (Bool-cases (same_object kind id other id')) [
  | inl same ↦ absurd (n (saved_key-injective kind other id id' k o ((text_eq_iff _ _).0 same)))
  | inr differ ↦ differ
]

module _ {B : Backend} (lawful : IsLawful B) where
  -- Kinds without the separator do not mix: when an object is written, an object of another kind or
  -- id reads as before.
  pub put_saved-apart :
      (store s : Store B) (obj : SavedObject B.Value) (kind id : Text)
      → IsKind obj.kind
      → IsKind kind
      → ¬ ((obj.kind ≡ kind) × (obj.id ≡ id))
      → put_saved store obj ≡ some s
      → get_saved s kind id ≡ get_saved store kind id
  put_saved-apart store s obj kind id k o n h =
      get_saved-put_saved lawful store s obj kind id h
      ∙ ap (λ b. if b then some (some obj) else get_saved store kind id)
          (same_object-false obj.kind obj.id kind id k o n)

-- Within one kind two objects are the same if their ids are.
pub same_object-id :
    (kind id id' : Text) → IsKind kind → same_object kind id kind id' ≡ text_eq id id'
same_object-id kind id id' k = elim (Bool-cases (text_eq id id')) [
  | inl same ↦
      ap (λ other. same_object kind id kind other) (sym ((text_eq_iff _ _).0 same))
      ∙ same_object_refl kind id
      ∙ sym same
  | inr differ ↦
      same_object-false kind id kind id' k k
        (λ p. absurd (let hit : text_eq id id' ≡ true = (text_eq_iff _ _).1 p.1 in cc))
      ∙ sym differ
]

-- ===== src/Edr/Codec.antt =====
-- How crates/sigil-edr/src puts its records into the bodies of saved objects: `serde_json::to_value`
-- and `from_value` of a type of records.
use sigil_siem.Prelude.{◌≡◌, Option, none, some, List, [], ◌∷◌}
use sigil_siem.Store.Records.{SavedObject}

pub record Codec (V A : Type 0) : Type 0 where
  pub to_value : A → Option V
  pub from_value : V → Option A

-- What is written is read back.
abbrev pub IsRoundTrip : {V A : Type 0} → Codec V A → Type 0
IsRoundTrip {V} {A} c = (a : A) (v : V) → c.to_value a ≡ some v → c.from_value v ≡ some a

-- `and_then(from_value(..).ok())` of an object that may be missing.
abbrev pub body_of : {V A : Type 0} → Codec V A → Option (SavedObject V) → Option A
body_of c none = none
body_of c (some obj) = c.from_value obj.body

-- `filter_map(from_value(..).ok())`
unfoldable pub bodies : {V A : Type 0} → Codec V A → List (SavedObject V) → List A
bodies c [] = []
bodies c (obj ∷ objs) =
    let rest = bodies c objs in elim (c.from_value obj.body) [ none ↦ rest | some a ↦ a ∷ rest ]

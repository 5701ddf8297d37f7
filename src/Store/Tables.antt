-- ===== src/Store/Tables.antt =====
-- What crates/sigil-store/src/lib.rs uses of redb and serde_json. Tables, and the JSON texts
-- that are their rows, are values of unknown types; an operation that fails gives `none`, and then the table is what it was.
use sigil_siem.Prelude.{◌≡◌, Bool, Option, none, some, List, if◌then◌else◌}
use sigil_siem.Prelude.Texts.{Text, text_eq}
use sigil_siem.Store.Records.{AlertRecord, SavedObject}

pub record Backend : Type 1 where
  pub Table : Type 0
  pub Json : Type 0
  -- a read that finds no row is `some none`
  pub get : Table → Text → Option (Option Json)
  pub insert : Table → Text → Json → Option Table
  -- whether there was a row
  pub remove : Table → Text → Option (Table × Bool)
  -- all rows in the order of their keys
  pub rows : Table → Option (List (Text × Json))
  pub Value : Type 0
  pub alert_to_json : AlertRecord → Option Json
  pub alert_from_json : Json → Option AlertRecord
  pub saved_to_json : SavedObject Value → Option Json
  pub saved_from_json : Json → Option (SavedObject Value)

-- A written row is read back, other rows stay, a removed one is gone; what is written as JSON is
-- read back from it.
pub record IsLawful (B : Backend) : Type 0 where
  pub get-insert :
      (t u : B.Table) (k l : Text) (v : B.Json)
      → B.insert t k v ≡ some u
      → B.get u l ≡ (if text_eq k l then some (some v) else B.get t l)
  pub get-remove :
      (t u : B.Table) (k l : Text) (found : Bool)
      → B.remove t k ≡ some (u, found)
      → B.get u l ≡ (if text_eq k l then some none else B.get t l)
  pub alert_json :
      (r : AlertRecord) (s : B.Json) → B.alert_to_json r ≡ some s → B.alert_from_json s ≡ some r
  pub saved_json :
      (o : SavedObject B.Value) (s : B.Json)
      → B.saved_to_json o ≡ some s
      → B.saved_from_json s ≡ some o

pub record Store (B : Backend) : Type 0 where
  pub alerts : B.Table
  pub saved : B.Table

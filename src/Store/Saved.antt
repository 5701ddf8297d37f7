-- ===== src/Store/Saved.antt =====
-- The saved objects of crates/sigil-store/src/lib.rs.
use sigil_siem.Prelude.{Bool, Option, some, List, [], ◌∷◌, ◌++◌, ◌>>=◌, if◌then◌else◌}
use sigil_siem.Prelude.Texts.{Text, starts_with}
use sigil_siem.Store.Records.{SavedObject}
use sigil_siem.Store.Tables.{Backend, Store}
use sigil_siem.Store.Alerts.{parsed_row, newest_first}

-- The unit separator joins kind and id.
unfoldable pub saved_key : Text → Text → Text
saved_key kind id = kind ++ 0x1f ∷ id

unfoldable pub put_saved : {B : Backend} → Store B → SavedObject B.Value → Option (Store B)
put_saved {B} store obj = do
  json ← B.saved_to_json obj
  saved ← B.insert store.saved (saved_key obj.kind obj.id) json
  some (record store { saved = saved })

unfoldable pub get_saved :
    {B : Backend} → Store B → Text → Text → Option (Option (SavedObject B.Value))
unfolding parsed_row
get_saved {B} store kind id = B.get store.saved (saved_key kind id) >>= parsed_row B.saved_from_json

unfoldable pub saved_rows :
    (B : Backend) → Text → List (Text × B.Json) → Option (List (SavedObject B.Value))
saved_rows B prefix [] = some []
saved_rows B prefix (row ∷ rows) =
    let rest = saved_rows B prefix rows in
    if starts_with row.0 prefix
    then (do obj ← B.saved_from_json row.1; objs ← rest; some (obj ∷ objs))
    else rest

unfoldable pub list_saved : {B : Backend} → Store B → Text → Option (List (SavedObject B.Value))
unfolding saved_rows newest_first
list_saved {B} store kind = do
  rows ← B.rows store.saved
  out ← saved_rows B (saved_key kind []) rows
  some (newest_first (λ o. o.updated_ts) out)

unfoldable pub delete_saved : {B : Backend} → Store B → Text → Text → Option (Store B × Bool)
delete_saved {B} store kind id = do
  (saved, removed) ← B.remove store.saved (saved_key kind id)
  some (record store { saved = saved }, removed)

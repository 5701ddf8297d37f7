-- ===== src/Store/Alerts.antt =====
-- The alerts of crates/sigil-store/src/lib.rs. `none` is the error `Backend`; a method that writes
-- gives the new store.
use sigil_siem.Prelude.{
  Bool, true, false, Option, none, some, List, [], ◌∷◌, ◌++◌, ℕ, take, ◌>>=◌, if◌then◌else◌,
  unwrap_or, length,
}
use sigil_siem.Prelude.Texts.{Text, text_eq}
use sigil_siem.Prelude.Int.{leb_ℤ}
use sigil_siem.Event.Model.{Alert, Timestamp}
use sigil_siem.Store.Records.{AlertRecord, AlertPatch, Note, Hasher, fingerprint, new_record}
use sigil_siem.Store.Tables.{Backend, Store}

-- A row that was read: no row is no error, one that does not parse is.
unfoldable pub parsed_row {ℓ} :
    {J : Type 0} {A : Type ℓ} → (J → Option A) → Option J → Option (Option A)
parsed_row decode none = some none
parsed_row decode (some s) = decode s >>= λ a. some (some a)

unfoldable pub get_alert : {B : Backend} → Store B → Text → Option (Option AlertRecord)
unfolding parsed_row
get_alert {B} store fp = B.get store.alerts fp >>= parsed_row B.alert_from_json

unfoldable pub write_alert : {B : Backend} → Store B → AlertRecord → Option (Store B)
write_alert {B} store rec = do
  json ← B.alert_to_json rec
  alerts ← B.insert store.alerts rec.fingerprint json
  some (record store { alerts = alerts })

abbrev pub upsert_found :
    {B : Backend} → Store B → AlertRecord → Option AlertRecord → Option (Store B × AlertRecord)
upsert_found store rec (some existing) = some (store, existing)
upsert_found store rec none = write_alert store rec >>= λ s. some (s, rec)

unfoldable pub upsert_alert :
    {B : Backend} → Hasher → Timestamp → Store B → Alert → Option (Store B × AlertRecord)
unfolding write_alert new_record
upsert_alert finish now store alert =
    get_alert store (fingerprint finish alert) >>= upsert_found store (new_record finish now alert)

-- The record after a patch.
abbrev pub push_note : List Note → Option Note → List Note
push_note notes none = notes
push_note notes (some n) = notes ++ n ∷ []

unfoldable pub patched : Timestamp → AlertPatch → AlertRecord → AlertRecord
patched now patch rec = record rec {
  status = unwrap_or patch.status rec.status;
  assignee = unwrap_or patch.assignee rec.assignee;
  notes = push_note rec.notes patch.note;
  updated_ts = now;
}

abbrev pub patch_found :
    {B : Backend}
    → Timestamp
    → Store B
    → AlertPatch
    → Option AlertRecord
    → Option (Store B × Option AlertRecord)
patch_found now store patch none = some (store, none)
patch_found now store patch (some rec) =
    let changed = patched now patch rec in write_alert store changed >>= λ s. some (s, some changed)

unfoldable pub patch_alert :
    {B : Backend} → Timestamp → Store B → Text → AlertPatch → Option (Store B × Option AlertRecord)
unfolding write_alert patched
patch_alert now store fp patch = get_alert store fp >>= patch_found now store patch

-- `sort_by_key(Reverse(ts))`, which keeps the order of equal times.
unfoldable pub insert_newest {ℓ} : {A : Type ℓ} → (A → Timestamp) → A → List A → List A
insert_newest ts a [] = a ∷ []
insert_newest ts a (b ∷ bs) =
    let later = insert_newest ts a bs in if leb_ℤ (ts b) (ts a) then a ∷ b ∷ bs else b ∷ later

unfoldable pub newest_first {ℓ} : {A : Type ℓ} → (A → Timestamp) → List A → List A
unfolding insert_newest
newest_first ts [] = []
newest_first ts (a ∷ as') = insert_newest ts a (newest_first ts as')

abbrev pub has_technique : Option Text → AlertRecord → Bool
has_technique none rec = true
has_technique (some tech) rec = elim rec.alert.technique [ none ↦ false | some t ↦ text_eq t tech ]

-- The loop of `list_alerts`: a row that does not parse is an error.
unfoldable pub alert_rows :
    (B : Backend) → Option Text → List (Text × B.Json) → Option (List AlertRecord)
alert_rows B technique [] = some []
alert_rows B technique (row ∷ rows) = do
  rec ← B.alert_from_json row.1
  rest ← alert_rows B technique rows
  some (if has_technique technique rec then rec ∷ rest else rest)

unfoldable pub list_alerts : {B : Backend} → Store B → ℕ → Option Text → Option (List AlertRecord)
unfolding alert_rows newest_first
list_alerts {B} store limit technique = do
  rows ← B.rows store.alerts
  out ← alert_rows B technique rows
  some (take limit (newest_first (λ r. r.alert.ts) out))

unfoldable pub alert_count : {B : Backend} → Store B → Option ℕ
alert_count {B} store = B.rows store.alerts >>= λ rows. some (length rows)

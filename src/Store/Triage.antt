-- ===== src/Store/Triage.antt =====
-- The triage of an alert in crates/sigil-store/src/lib.rs: what a write changes, and how long it lasts.
use mathlib.Core.Path.{subst}
use sigil_siem.Prelude.{
  ◌≡◌, ◌≢◌, ◌⊎◌, inl, inr, refl, sym, ap, ◌∙◌, Bool, true, false, Option, none, some, ◌>>=◌,
  >>=-eq-some, if◌then◌else◌, Bool-cases,
}
use sigil_siem.Prelude.Texts.{Text, text_eq, text_eq_iff}
use sigil_siem.Event.Model.{Alert, Timestamp}
use sigil_siem.Store.Records.{AlertRecord, Hasher, fingerprint, new_record}
use sigil_siem.Store.Tables.{Backend, IsLawful, Store}
use sigil_siem.Store.Alerts.{parsed_row, get_alert, write_alert, upsert_alert, upsert_found}

pub if_map :
    {A B : Type 0} (f : A → B) (b : Bool) (x y : A)
    → f (if b then x else y) ≡ (if b then f x else f y)
if_map f true x y = refl
if_map f false x y = refl

module _ {B : Backend} (lawful : IsLawful B) where
  -- A row that is written is the record, and the others stay.
  get_alert-write_alert :
      (store s : Store B) (rec : AlertRecord) (fp : Text)
      → write_alert store rec ≡ some s
      → get_alert s fp
        ≡ (if text_eq rec.fingerprint fp then some (some rec) else get_alert store fp)
  unfolding get_alert write_alert parsed_row
  get_alert-write_alert store s rec fp h =
      let (json, e, h1) = >>=-eq-some (B.alert_to_json rec) _ h in
      let (alerts, i, h2) = >>=-eq-some (B.insert store.alerts rec.fingerprint json) _ h1 in
      let same : record store { alerts = alerts } ≡ s = cc in
      ap (λ t. B.get t fp >>= parsed_row B.alert_from_json) (sym (ap (λ t. t.alerts) same))
      ∙ ap (λ row. row >>= parsed_row B.alert_from_json)
          (lawful.get-insert store.alerts alerts rec.fingerprint fp json i)
      ∙ if_map (λ row. row >>= parsed_row B.alert_from_json) (text_eq rec.fingerprint fp) _ _
      ∙ ap
          (λ row.
            if text_eq rec.fingerprint fp
            then row >>= (λ a. some (some a))
            else B.get store.alerts fp >>= parsed_row B.alert_from_json)
          (lawful.alert_json rec json e)

  get-written :
      (store s : Store B) (rec : AlertRecord)
      → write_alert store rec ≡ some s
      → get_alert s rec.fingerprint ≡ some (some rec)
  get-written store s rec h =
      let same : text_eq rec.fingerprint rec.fingerprint ≡ true = (text_eq_iff _ _).1 refl in
      get_alert-write_alert store s rec rec.fingerprint h
      ∙ ap (λ b. if b then some (some rec) else get_alert store rec.fingerprint) same

  get-unwritten :
      (store s : Store B) (rec : AlertRecord) (fp : Text)
      → write_alert store rec ≡ some s
      → rec.fingerprint ≢ fp
      → get_alert s fp ≡ get_alert store fp
  get-unwritten store s rec fp h n = elim (Bool-cases (text_eq rec.fingerprint fp)) [
    | inl same ↦ absurd (n ((text_eq_iff _ _).0 same))
    | inr other ↦
        get_alert-write_alert store s rec fp h
        ∙ ap (λ b. if b then some (some rec) else get_alert store fp) other
  ]

-- Every record stands under its own fingerprint.
abbrev pub IsKeyed : {B : Backend} → Store B → Type 0
IsKeyed store =
    (fp : Text) (rec : AlertRecord) → get_alert store fp ≡ some (some rec) → rec.fingerprint ≡ fp

-- What one of the calls changes: the record under a fingerprint is read back, others stay, and a
-- keyed store stays keyed.
abbrev pub Writes : {B : Backend} → Store B → Text → AlertRecord → Store B → Type 0
Writes store fp rec s =
    (get_alert s fp ≡ some (some rec))
    × ((other : Text) → fp ≢ other → get_alert s other ≡ get_alert store other)
    × IsKeyed s

module _ {B : Backend} (lawful : IsLawful B) where
  pub write_alert-Writes :
      (store s : Store B) (rec : AlertRecord) (fp : Text)
      → IsKeyed store
      → rec.fingerprint ≡ fp
      → write_alert store rec ≡ some s
      → Writes store fp rec s
  write_alert-Writes store s rec fp keyed same h =
      let stays : (other : Text) → fp ≢ other → get_alert s other ≡ get_alert store other =
        λ other n. get-unwritten lawful store s rec other h (λ e. n (sym same ∙ e)) in
      let reads : get_alert s fp ≡ some (some rec) =
        ap (λ k. get_alert s k) (sym same) ∙ get-written lawful store s rec h in
      (
        reads,
        stays,
        λ k r e. elim (Bool-cases (text_eq fp k)) [
          | inl here ↦
              let at : fp ≡ k = (text_eq_iff fp k).0 here in
              let held : r ≡ rec = found_same (sym e ∙ ap (λ l. get_alert s l) (sym at) ∙ reads) in
              ap (λ x. x.fingerprint) held ∙ same ∙ at
          | inr there ↦ keyed k r (
              sym (
                stays k
                  (λ q. absurd (let hit : text_eq fp k ≡ true = (text_eq_iff fp k).1 q in cc)))
              ∙ e)
        ],
      )
    where
      found_same : {a b : AlertRecord} → some (some a) ≡ some (some b) → a ≡ b
      found_same e = cc

  -- In a keyed store an alert is stored as it was found, and nothing changes; or, if there was no
  -- record with its fingerprint, as a new one, open and without notes. Either is read back
  -- afterwards, no other record changes, and the store stays keyed.
  pub upsert_alert-Writes :
      (finish : Hasher) (now : Timestamp) (store s : Store B) (alert : Alert) (rec : AlertRecord)
      → IsKeyed store
      → upsert_alert finish now store alert ≡ some (s, rec)
      → Writes store (fingerprint finish alert) rec s
        × (((get_alert store (fingerprint finish alert) ≡ some (some rec)) × (s ≡ store))
            ⊎ ((get_alert store (fingerprint finish alert) ≡ some none)
                × (rec ≡ new_record finish now alert)))
  unfolding upsert_alert
  upsert_alert-Writes finish now store s alert rec keyed h =
      let (found, g, h1) = >>=-eq-some (get_alert store (fingerprint finish alert)) _ h in
      outcome found g h1
    where
      outcome :
          (found : Option AlertRecord)
          → get_alert store (fingerprint finish alert) ≡ some found
          → upsert_found store (new_record finish now alert) found ≡ some (s, rec)
          → Writes store (fingerprint finish alert) rec s
            × (((get_alert store (fingerprint finish alert) ≡ some (some rec)) × (s ≡ store))
                ⊎ ((get_alert store (fingerprint finish alert) ≡ some none)
                    × (rec ≡ new_record finish now alert)))
      outcome (some existing) g e =
          let same : store ≡ s = cc in
          let held : existing ≡ rec = cc in
          let stored : get_alert store (fingerprint finish alert) ≡ some (some rec) =
            g ∙ ap (λ r. some (some r)) held in
          (
            subst (λ t. Writes store (fingerprint finish alert) rec t) same
                (stored, λ other n. refl, keyed),
            inl (stored, sym same),
          )
      outcome none g e =
          let (t, w, e1) = >>=-eq-some (write_alert store (new_record finish now alert)) _ e in
          let same : t ≡ s = cc in
          let made : new_record finish now alert ≡ rec = cc in
          (
            subst (λ r. Writes store (fingerprint finish alert) r s) made
                (write_alert-Writes store s (new_record finish now alert) (fingerprint finish alert)
                  keyed refl (w ∙ ap (λ u. some u) same)),
            inr (g, sym made),
          )

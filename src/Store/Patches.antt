-- ===== src/Store/Patches.antt =====
-- Patches of an alert's triage in crates/sigil-store/src/lib.rs, and their survival.

use sigil_siem.Prelude.{◌≡◌, ◌⊎◌, inl, inr, refl, sym, ap, ◌∙◌, Option, none, some, >>=-eq-some}
use sigil_siem.Prelude.Texts.{Text}
use sigil_siem.Event.Model.{Alert, Timestamp}
use sigil_siem.Store.Records.{AlertRecord, AlertPatch, Hasher, fingerprint}
use sigil_siem.Store.Tables.{Backend, IsLawful, Store}
use sigil_siem.Store.Alerts.{
  get_alert, write_alert, upsert_alert, patched, patch_alert, patch_found,
}
use sigil_siem.Store.Triage.{IsKeyed, Writes, write_alert-Writes, upsert_alert-Writes}

patched-fingerprint :
    (now : Timestamp) (patch : AlertPatch) (rec : AlertRecord)
    → (patched now patch rec).fingerprint ≡ rec.fingerprint
unfolding patched
patched-fingerprint now patch rec = refl

module _ {B : Backend} (lawful : IsLawful B) where
  -- In a keyed store a patch of an alert that is not stored changes nothing and says so; a patch of
  -- one that is stored replaces its record by the patched one, which is read back, leaves the
  -- others, and keeps the store keyed.
  pub patch_alert-Writes :
      (now : Timestamp) (store s : Store B) (fp : Text) (patch : AlertPatch)
      (result : Option AlertRecord)
      → IsKeyed store
      → patch_alert now store fp patch ≡ some (s, result)
      → ((get_alert store fp ≡ some none) × (s ≡ store) × (result ≡ none))
        ⊎ ((rec : AlertRecord) × (get_alert store fp ≡ some (some rec))
            × (result ≡ some (patched now patch rec))
            × Writes store fp (patched now patch rec) s)
  unfolding patch_alert
  patch_alert-Writes now store s fp patch result keyed h =
      let (found, g, h1) = >>=-eq-some (get_alert store fp) _ h in outcome found g h1
    where
      outcome :
          (found : Option AlertRecord)
          → get_alert store fp ≡ some found
          → patch_found now store patch found ≡ some (s, result)
          → ((get_alert store fp ≡ some none) × (s ≡ store) × (result ≡ none))
            ⊎ ((rec : AlertRecord) × (get_alert store fp ≡ some (some rec))
                × (result ≡ some (patched now patch rec))
                × Writes store fp (patched now patch rec) s)
      outcome none g e = inl (g, cc, cc)
      outcome (some rec) g e =
          let (t, w, e1) = >>=-eq-some (write_alert store (patched now patch rec)) _ e in
          let same : t ≡ s = cc in
          inr (
            rec,
            g,
            cc,
            write_alert-Writes lawful store s (patched now patch rec) fp keyed
                (patched-fingerprint now patch rec ∙ keyed fp rec g) (w ∙ ap (λ u. some u) same),
          )

  -- Triage survives: an alert that was stored and patched, and then arrives again, as it does when
  -- it is derived anew after a restart, comes back as it was patched, and the store stays as it is.
  pub triage_survives :
      (finish : Hasher) (now later again : Timestamp) (store s t u : Store B) (alert : Alert)
      (patch : AlertPatch) (first changed last : AlertRecord)
      → IsKeyed store
      → upsert_alert finish now store alert ≡ some (s, first)
      → patch_alert later s (fingerprint finish alert) patch ≡ some (t, some changed)
      → upsert_alert finish again t alert ≡ some (u, last)
      → (last ≡ patched later patch first) × (u ≡ t)
  triage_survives finish now later again store s t u alert patch first changed last keyed a b c =
      let ((read, _, keyed_s), _) =
        upsert_alert-Writes lawful finish now store s alert first keyed a in
      elim (patch_alert-Writes later s t (fingerprint finish alert) patch (some changed) keyed_s
        b) [
          | inl (missing, _, _) ↦
              absurd (let no : some none ≡ some (some first) = sym missing ∙ read in cc)
          | inr (rec, stored, _, (reread, _, keyed_t)) ↦
              let same : rec ≡ first = stored_same (sym stored ∙ read) in
              elim (upsert_alert-Writes lawful finish again t u alert last keyed_t c).1 [
                | inl (held, kept) ↦
                    (stored_same (sym held ∙ reread) ∙ ap (λ r. patched later patch r) same, kept)
                | inr (missing, _) ↦ absurd (
                    let no : some none ≡ some (some (patched later patch rec)) =
                      sym missing ∙ reread in
                    cc)
              ]
        ]
    where
      stored_same : {a b : AlertRecord} → some (some a) ≡ some (some b) → a ≡ b
      stored_same e = cc

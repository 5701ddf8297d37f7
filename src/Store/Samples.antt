-- ===== src/Store/Samples.antt =====
-- An alert that is stored, acknowledged, and stored again.
use sigil_siem.Prelude.{◌≡◌, refl, ◌⊎◌, inl, none, some, [], ◌∷◌}
use sigil_siem.Prelude.Texts.{codes, text_eq}
use sigil_siem.Prelude.Int.{pos}
use sigil_siem.Event.Kinds.{Severity}
use sigil_siem.Event.Model.{Alert, get}
use sigil_siem.Detection.Compile.{put_selection}
use sigil_siem.Store.Records.{
  AlertRecord, AlertPatch, TriageStatus, Hasher, fingerprint, hex_digits, new_record,
}
use sigil_siem.Store.Tables.{Store}
use sigil_siem.Store.Alerts.{get_alert, upsert_alert, patch_alert, patched, parsed_row}
use sigil_siem.Store.Memory.{memory, memory-IsLawful, empty_store}
use sigil_siem.Store.Triage.{Writes, upsert_alert-Writes}
use sigil_siem.Store.Patches.{triage_survives}

abbrev constant_hash : Hasher
constant_hash = λ rule ts events. 0xab

abbrev ssh_alert : Alert
ssh_alert = record {
  rule_id = codes "ssh";
  title = [];
  severity = Severity.low;
  technique = none;
  events = [];
  ts = pos 100;
}

abbrev seen : AlertPatch
seen = record { status = some TriageStatus.acknowledged; assignee = none; note = none }

abbrev first_record : AlertRecord
first_record = record {
  fingerprint = codes "00000000000000ab";
  alert = ssh_alert;
  status = TriageStatus.open_status;
  assignee = none;
  notes = [];
  created_ts = pos 1;
  updated_ts = pos 1;
}

abbrev seen_record : AlertRecord
seen_record = record first_record { status = TriageStatus.acknowledged; updated_ts = pos 2 }

abbrev with_alert : AlertRecord → Store (memory Unit)
with_alert rec = record { alerts = (codes "00000000000000ab", inl rec) ∷ []; saved = [] }

triage_survives_example :
    (seen_record ≡ patched (pos 2) seen first_record)
    × (with_alert seen_record ≡ with_alert seen_record)
unfolding upsert_alert patch_alert get_alert parsed_row fingerprint get put_selection text_eq
    hex_digits
triage_survives_example =
    triage_survives (memory-IsLawful Unit) constant_hash (pos 1) (pos 2) (pos 3) (empty_store Unit)
      (with_alert first_record) (with_alert seen_record) (with_alert seen_record) ssh_alert seen
      first_record seen_record seen_record (λ fp rec e. cc) refl refl refl

upsert_alert-Writes_example :
    Writes
      (empty_store Unit)
      (fingerprint constant_hash ssh_alert)
      first_record
      (with_alert first_record)
    × (((get_alert (empty_store Unit) (fingerprint constant_hash ssh_alert)
            ≡ some (some first_record))
          × (with_alert first_record ≡ empty_store Unit))
        ⊎ ((get_alert (empty_store Unit) (fingerprint constant_hash ssh_alert) ≡ some none)
            × (first_record ≡ new_record constant_hash (pos 1) ssh_alert)))
unfolding upsert_alert get_alert parsed_row fingerprint get put_selection text_eq hex_digits
upsert_alert-Writes_example =
    upsert_alert-Writes (memory-IsLawful Unit) constant_hash (pos 1) (empty_store Unit)
      (with_alert first_record) ssh_alert first_record (λ fp rec e. cc) refl

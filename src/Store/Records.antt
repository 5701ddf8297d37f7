-- ===== src/Store/Records.antt =====
-- The records of crates/sigil-store/src/lib.rs, and the fingerprint of an alert.
use sigil_siem.Prelude.{
  ℕ, zero, suc, ◌+◌, ◌-◌, ◌/◌, ◌%◌, ◌^◌, Option, none, some, List, [], ◌∷◌, ◌++◌, ltb, ◌||◌,
  if◌then◌else◌, map,
}
use sigil_siem.Prelude.Texts.{Text, text_eq, codes, ascii_lower}
use sigil_siem.Event.Model.{Alert, Timestamp}

pub data TriageStatus : Type 0 where
  open_status : TriageStatus
  acknowledged : TriageStatus
  closed : TriageStatus

abbrev pub status_named : Text → Option TriageStatus
status_named s =
    if text_eq s (codes "open")
    then some open_status
    else if text_eq s (codes "acknowledged") || text_eq s (codes "ack")
    then some acknowledged
    else if text_eq s (codes "closed") || text_eq s (codes "close")
    then some closed
    else none

-- `TriageStatus::parse`
unfoldable pub parse_status : Text → Option TriageStatus
parse_status s = status_named (map ascii_lower s)

pub record Note : Type 0 where
  pub ts : Timestamp
  pub author : Text
  pub text : Text

pub record AlertRecord : Type 0 where
  pub fingerprint : Text
  pub alert : Alert
  pub status : TriageStatus
  pub assignee : Option Text
  pub notes : List Note
  pub created_ts : Timestamp
  pub updated_ts : Timestamp

-- `V` is the type of JSON values.
pub record SavedObject (V : Type 0) : Type 0 where
  pub kind : Text
  pub id : Text
  pub name : Text
  pub owner : Option Text
  pub updated_ts : Timestamp
  pub body : V

pub record AlertPatch : Type 0 where
  pub status : Option TriageStatus
  pub assignee : Option (Option Text)
  pub note : Option Note

abbrev pub hex_digit : ℕ → ℕ
hex_digit d = if ltb d 10 then b'0' + d else b'a' + d - 10

-- The `n` last hexadecimal digits of a number.
unfoldable pub hex_digits : ℕ → ℕ → Text
hex_digits zero value = []
hex_digits (suc n) value = hex_digits n (value / 16) ++ hex_digit (value % 16) ∷ []

-- The hasher of the standard library, over the fields that are fed to it in order.
abbrev pub Hasher : Type 0
Hasher = Text → Timestamp → List Text → ℕ

-- `{:016x}` of 64 bits.
unfoldable pub fingerprint : Hasher → Alert → Text
unfolding hex_digits
fingerprint finish alert = hex_digits 16 (finish alert.rule_id alert.ts alert.events % 2 ^ 64)

-- `AlertRecord::new`, at the reading `now` of the clock.
unfoldable pub new_record : Hasher → Timestamp → Alert → AlertRecord
new_record finish now alert = record {
  fingerprint = fingerprint finish alert;
  alert = alert;
  status = open_status;
  assignee = none;
  notes = [];
  created_ts = now;
  updated_ts = now;
}

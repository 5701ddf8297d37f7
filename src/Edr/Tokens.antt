-- ===== src/Edr/Tokens.antt =====
-- The enrolment tokens of crates/sigil-edr/src/tokens.rs, kept as saved objects. `none` is an error
-- of the store. The clock and the random token are given by the caller.
use sigil_siem.Prelude.{
  ℕ, ◌+◌, Bool, true, false, Option, none, some, List, [], ◌∷◌, map, take, ◌>>=◌, if◌then◌else◌,
}
use sigil_siem.Prelude.Texts.{Text, codes}
use sigil_siem.Event.Model.{Timestamp}
use sigil_siem.Store.Records.{SavedObject}
use sigil_siem.Store.Tables.{Backend, Store}
use sigil_siem.Store.Alerts.{newest_first}
use sigil_siem.Store.Saved.{put_saved, get_saved, list_saved, delete_saved}
use sigil_siem.Edr.Codec.{Codec, bodies}

abbrev pub token_kind : Text
token_kind = codes "edr-token"

pub record TokenRecord : Type 0 where
  pub token : Text
  pub label : Text
  pub created_ts : Timestamp
  pub created_by : Option Text

pub record TokenInfo : Type 0 where
  pub prefix : Text
  pub label : Text
  pub created_ts : Timestamp
  pub created_by : Option Text

abbrev pub is_empty : Text → Bool
is_empty [] = true
is_empty (c ∷ s) = false

abbrev pub is_some {ℓ} : {A : Type ℓ} → Option A → Bool
is_some none = false
is_some (some a) = true

abbrev pub token_object : {V : Type 0} → TokenRecord → V → SavedObject V
token_object rec body = record {
  kind = token_kind;
  id = rec.token;
  name = rec.label;
  owner = rec.created_by;
  updated_ts = rec.created_ts;
  body = body;
}

module _ {B : Backend} (c : Codec B.Value TokenRecord) where
  unfoldable pub write : Store B → TokenRecord → Option (Store B)
  write store rec = do body ← c.to_value rec; put_saved store (token_object rec body)

  abbrev pub seed_found :
      Timestamp → Store B → Text → Option (SavedObject B.Value) → Option (Store B)
  seed_found now store t (some held) = some store
  seed_found now store t none = write store (record {
    token = t;
    label = codes "config";
    created_ts = now;
    created_by = some (codes "config");
  })

  -- The loop's body of `seed`.
  unfoldable pub seed_one : Timestamp → Store B → Text → Option (Store B)
  seed_one now store t =
      if is_empty t then some store else get_saved store token_kind t >>= seed_found now store t

  -- An error ends the loop.
  abbrev pub after_seed : Option (Store B) → Store B → (Store B → Store B × Bool) → Store B × Bool
  after_seed none store next = (store, false)
  after_seed (some s) store next = next s

  -- The store that `seed` leaves, and whether it returns `Ok`: tokens before an error stay written.
  unfoldable pub seed : (ℕ → Timestamp) → ℕ → Store B → List Text → Store B × Bool
  seed clock i store [] = (store, true)
  seed clock i store (t ∷ ts) =
      after_seed (seed_one (clock i) store t) store (λ s. seed clock (i + 1) s ts)

  -- `fresh` is the text of the two new identifiers.
  unfoldable pub issue : Timestamp → Text → Store B → Text → Option Text → Option (Store B × Text)
  unfolding write
  issue now fresh store label created_by = do
    s ←
        write store
          (record { token = fresh; label = label; created_ts = now; created_by = created_by })
    some (s, fresh)

  unfoldable pub list : Store B → Option (List TokenInfo)
  list store = do
    objs ← list_saved store token_kind
    some (
        newest_first (λ t. t.created_ts)
          (map
            (λ r. record {
              prefix = take 8 r.token;
              label = r.label;
              created_ts = r.created_ts;
              created_by = r.created_by;
            })
            (bodies c objs)))

unfoldable pub valid : {B : Backend} → Store B → Text → Option Bool
valid store token =
    if is_empty token
    then some false
    else get_saved store token_kind token >>= λ found. some (is_some found)

unfoldable pub revoke : {B : Backend} → Store B → Text → Option (Store B × Bool)
revoke store token = delete_saved store token_kind token

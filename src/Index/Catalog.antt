-- ===== src/Index/Catalog.antt =====
-- The segment catalog of crates/sigil-index/src/catalog.rs. `save` writes the file: a parameter that
-- says of the segments whether it succeeds. What a call does in memory stays when it fails.
use sigil_siem.Prelude.{
  ℕ, ◌+◌, ◌*◌, ◌^◌, Bool, true, false, ◌&&◌, Option, none, some, List, [], ◌∷◌, ◌++◌, filter, any,
  leb, ltb, ◌%◌, if◌then◌else◌, ◌>>=◌,
}
use sigil_siem.Prelude.Int.{ℤ, pos, ◌-ℤ◌, ◌*ℤ◌, i64, ltb_ℤ, leb_ℤ}
use sigil_siem.Prelude.Texts.{Text, text_eq, codes}
use sigil_siem.Correlation.Timespan.{trim, digits_below}

pub data Tier : Type 0 where
  hot : Tier
  warm : Tier
  cold : Tier

pub record SegmentMeta : Type 0 where
  pub id : Text
  pub path : Text
  pub tier : Tier
  pub min_ts : ℤ
  pub max_ts : ℤ
  pub rows : ℕ
  pub created_ts : ℤ

abbrev pub Save : Type 0
Save = List SegmentMeta → Bool

-- The segments after a call, and its result, `none` for an error.
abbrev pub Saved : Type 0 → Type 0
Saved A = List SegmentMeta × Option A

abbrev pub saved : {A : Type 0} → Save → List SegmentMeta → A → Saved A
saved save segments a = (segments, if save segments then some a else none)

unfoldable pub add : Save → SegmentMeta → List SegmentMeta → Saved Unit
add save seg segments = saved save (segments ++ seg ∷ []) tt

-- `sum` of `usize` wraps in a release build.
unfoldable pub total_rows : List SegmentMeta → ℕ
total_rows [] = 0
total_rows (s ∷ segments) = (s.rows + total_rows segments) % 2 ^ 64

abbrev pub overlaps : ℤ → ℤ → SegmentMeta → Bool
overlaps start end s = leb_ℤ s.min_ts end && leb_ℤ start s.max_ts

unfoldable pub overlapping : ℤ → ℤ → List SegmentMeta → List SegmentMeta
overlapping start end segments = filter (overlaps start end) segments

abbrev pub is_expired : ℤ → ℤ → SegmentMeta → Bool
is_expired now max_age s = ltb_ℤ max_age (i64 (now -ℤ s.max_ts))

unfoldable pub expired : ℤ → ℤ → List SegmentMeta → List SegmentMeta
expired now max_age segments = filter (is_expired now max_age) segments

-- `iter_mut().find`, and the change of the segment that it finds.
unfoldable pub migrated : Text → Tier → Text → List SegmentMeta → Option (List SegmentMeta)
migrated id tier path [] = none
migrated id tier path (s ∷ segments) =
    let later = migrated id tier path segments in
    if text_eq s.id id
    then some (record s { tier = tier; path = path } ∷ segments)
    else later >>= λ rest. some (s ∷ rest)

abbrev pub migrate_found : Save → List SegmentMeta → Option (List SegmentMeta) → Saved Bool
migrate_found save segments none = (segments, some false)
migrate_found save segments (some changed) = saved save changed true

unfoldable pub migrate : Save → Text → Tier → Text → List SegmentMeta → Saved Bool
unfolding migrated
migrate save id tier path segments = migrate_found save segments (migrated id tier path segments)

abbrev pub is_listed : List Text → SegmentMeta → Bool
is_listed ids s = any (text_eq s.id) ids

-- The loop of `retain`, with the number of the removed ones and the paths of the files to remove, in
-- order. The errors of removing a file are ignored.
pub record Retained : Type 0 where
  pub kept : List SegmentMeta
  pub removed : ℕ
  pub files : List Text

unfoldable pub retain_loop : List Text → List SegmentMeta → Retained → Retained
retain_loop ids [] r = r
retain_loop ids (s ∷ segments) r =
    let dropped =
      retain_loop ids segments
        (record r { removed = r.removed + 1; files = r.files ++ s.path ∷ [] }) in
    let left = retain_loop ids segments (record r { kept = r.kept ++ s ∷ [] }) in
    if is_listed ids s then dropped else left

-- The catalog is saved only if a segment went.
abbrev pub report : Save → Retained → Saved ℕ
report save r = if ltb 0 r.removed then saved save r.kept r.removed else (r.kept, some r.removed)

-- `remove`, with the paths whose files are removed first.
unfoldable pub remove : Save → List Text → List SegmentMeta → Saved ℕ × List Text
unfolding retain_loop
remove save ids segments =
    let r = retain_loop ids segments (record { kept = []; removed = 0; files = [] }) in
    (report save r, r.files)

-- The digits of a text, and the rest of it from the first character that is none.
unfoldable pub split_digits : Text → Text × Text
split_digits [] = ([], [])
split_digits (c ∷ s) =
    let rest = split_digits s in
    if leb b'0' c && leb c b'9' then (c ∷ rest.0, rest.1) else ([], c ∷ s)

unfoldable pub unit_micros : Text → Option ℕ
unit_micros u =
    if text_eq u (codes "s")
    then some 1000000
    else if text_eq u (codes "m")
    then some (60 * 1000000)
    else if text_eq u (codes "h")
    then some (3600 * 1000000)
    else if text_eq u (codes "d")
    then some (86400 * 1000000)
    else if text_eq u (codes "w")
    then some (7 * 86400 * 1000000)
    else none

abbrev pub parse_digits : Text → Option ℕ
parse_digits [] = none
parse_digits (c ∷ s) = digits_below (2 ^ 63) 0 (c ∷ s)

-- Without a unit there is no place to split. The product wraps in a release build.
abbrev pub duration_of : Text × Text → Option ℤ
duration_of (num, []) = none
duration_of (num, u ∷ unit) = do
  n ← parse_digits num
  per ← unit_micros (u ∷ unit)
  some (i64 (pos n *ℤ pos per))

unfoldable pub parse_duration_micros : Text → Option ℤ
unfolding trim split_digits unit_micros digits_below
parse_duration_micros s = duration_of (split_digits (trim s))

unfoldable pub segment_meta : ℤ → Text → Text → ℤ → ℤ → ℕ → SegmentMeta
segment_meta now id path min_ts max_ts rows = record {
  id = id;
  path = path;
  tier = warm;
  min_ts = min_ts;
  max_ts = max_ts;
  rows = rows;
  created_ts = now;
}

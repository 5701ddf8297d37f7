-- ===== src/Index/Pruning.antt =====
-- Which segments crates/sigil-index/src/catalog.rs reads, moves and drops.
use mathlib.Core.Path.{subst}
use sigil_siem.Prelude.{
  ◌-◌, ◌<◌, ◌++◌, ltb, Has, append-nil, append_assoc, filter-cons, filter-skip, map, ℕ, ◌+◌, ◌≡◌,
  ◌↔◌, ◌⊎◌, inl, inr, refl, sym, ap, ◌∙◌, Bool, true, false, not, Option, none, some, List, [], ◌∷◌,
  filter, length, if◌then◌else◌, ◌>>=◌, >>=-eq-some, Bool-cases, arith,
}
use sigil_siem.Prelude.Int.{ℤ, ◌≤ℤ◌, leb_ℤ}
use sigil_siem.Prelude.Texts.{Text, text_eq, text_eq_iff}
use sigil_siem.Index.Catalog.{
  Retained, retain_loop, report, SegmentMeta, Tier, Save, overlaps, overlapping, migrated, migrate,
  migrate_found, is_listed, remove,
}

-- A time lies in the span of a segment and in the window.
abbrev pub Meets : ℤ → ℤ → SegmentMeta → Type 0
Meets start end s = (t : ℤ) × ((s.min_ts ≤ℤ t) × (t ≤ℤ s.max_ts) × (start ≤ℤ t) × (t ≤ℤ end))

overlaps_iff :
    (start end : ℤ) (s : SegmentMeta)
    → start ≤ℤ end
    → s.min_ts ≤ℤ s.max_ts
    → (overlaps start end s ≡ true) ↔ Meets start end s
overlaps_iff start end s w o = (
  λ h. elim (Bool-cases (leb_ℤ start s.min_ts)) [
    | inl later ↦ (s.min_ts, (omega arith, o, ground arith, ground arith))
    | inr sooner ↦ (start, (ground arith, ground arith, omega arith, w))
  ],
  λ (t, (a, b, c, d)). ground arith,
)

-- The list holds the segment.
abbrev pub Holds : SegmentMeta → List SegmentMeta → Type 0
Holds s [] = ⊥
Holds s (x ∷ xs) = (x ≡ s) ⊎ Holds s xs

Holds-filter :
    (p : SegmentMeta → Bool) (s : SegmentMeta) (xs : List SegmentMeta)
    → Holds s (filter p xs) ↔ (Holds s xs × (p s ≡ true))
Holds-filter p s [] = (λ h. absurd h, λ h. absurd h.0)
Holds-filter p s (x ∷ xs) =
    let (to, from) = Holds-filter p s xs in
    elim (Bool-cases (p x)) [
      | inl keeps ↦
          subst (λ l. Holds s l ↔ (Holds s (x ∷ xs) × (p s ≡ true)))
            (sym (filter-cons p x xs keeps))
            (
              λ h. elim h [
                | inl e ↦ (inl e, ap p (sym e) ∙ keeps)
                | inr r ↦ (inr (to r).0, (to r).1)
              ],
              λ h. elim h.0 [ inl e ↦ inl e | inr r ↦ inr (from (r, h.1)) ],
            )
      | inr drops ↦
          subst (λ l. Holds s l ↔ (Holds s (x ∷ xs) × (p s ≡ true)))
            (sym (filter-skip p x xs drops))
            (
              λ h. (inr (to h).0, (to h).1),
              λ h. elim h.0 [
                | inl e ↦ absurd (let no : p x ≡ true = ap p e ∙ h.1 in cc)
                | inr r ↦ from (r, h.1)
              ],
            )
    ]

-- Pruning keeps exactly the segments that a time of the window can lie in, for a window and a
-- segment that are not empty.
pub overlapping-Meets :
    (start end : ℤ) (s : SegmentMeta) (segments : List SegmentMeta)
    → start ≤ℤ end
    → s.min_ts ≤ℤ s.max_ts
    → Holds s (overlapping start end segments) ↔ (Holds s segments × Meets start end s)
unfolding overlapping
overlapping-Meets start end s segments w o =
    let (to, from) = Holds-filter (overlaps start end) s segments in
    let (there, back) = overlaps_iff start end s w o in
    (λ h. ((to h).0, there (to h).1), λ h. from (h.0, back h.1))

-- The names of the segments that a query of the window reads.
abbrev pub read_ids : ℤ → ℤ → List SegmentMeta → List Text
read_ids start end [] = []
read_ids start end (s ∷ segments) =
    let rest = read_ids start end segments in if overlaps start end s then s.id ∷ rest else rest

overlapping-read_ids :
    (start end : ℤ) (segments : List SegmentMeta)
    → map (λ s. s.id) (overlapping start end segments) ≡ read_ids start end segments
unfolding overlapping
overlapping-read_ids start end [] = refl
overlapping-read_ids start end (s ∷ segments) = elim (Bool-cases (overlaps start end s)) [
  | inl hit ↦
      ap (map (λ x. x.id)) (filter-cons (overlaps start end) s segments hit)
      ∙ ap (λ rest. s.id ∷ rest) (overlapping-read_ids start end segments)
      ∙ sym (
          ap (λ b. if b then s.id ∷ read_ids start end segments else read_ids start end segments)
            hit)
  | inr miss ↦
      ap (map (λ x. x.id)) (filter-skip (overlaps start end) s segments miss)
      ∙ overlapping-read_ids start end segments
      ∙ sym (
          ap (λ b. if b then s.id ∷ read_ids start end segments else read_ids start end segments)
            miss)
]

migrated-read_ids :
    (start end : ℤ) (id path : Text) (tier : Tier) (segments changed : List SegmentMeta)
    → migrated id tier path segments ≡ some changed
    → read_ids start end changed ≡ read_ids start end segments
unfolding migrated
migrated-read_ids start end id path tier [] changed h = cc
migrated-read_ids start end id path tier (s ∷ segments) changed h =
    elim (Bool-cases (text_eq s.id id)) [
      | inl here ↦
          let same : record s { tier = tier; path = path } ∷ segments ≡ changed =
            ground (arith, here, h) in
          ap (read_ids start end) (sym same)
      | inr further ↦
          let later : (migrated id tier path segments >>= λ rest. some (s ∷ rest)) ≡ some changed =
            ground (arith, further, h) in
          let (rest, e, put) = >>=-eq-some (migrated id tier path segments) _ later in
          let same : s ∷ rest ≡ changed = cc in
          ap (read_ids start end) (sym same)
          ∙ ap (λ r. if overlaps start end s then s.id ∷ r else r)
              (migrated-read_ids start end id path tier segments rest e)
    ]

-- Moving a segment to another tier and place does not change which segments a query reads, whether
-- or not the segment is known and the catalog can be saved.
pub migrate-overlapping :
    (save : Save) (start end : ℤ) (id path : Text) (tier : Tier) (segments : List SegmentMeta)
    → map (λ s. s.id) (overlapping start end (migrate save id tier path segments).0)
      ≡ map (λ s. s.id) (overlapping start end segments)
unfolding migrate
migrate-overlapping save start end id path tier segments =
    outcome (migrated id tier path segments) refl
  where
    outcome :
        (o : Option (List SegmentMeta))
        → migrated id tier path segments ≡ o
        → map (λ s. s.id) (overlapping start end (migrate_found save segments o).0)
          ≡ map (λ s. s.id) (overlapping start end segments)
    outcome none e = refl
    outcome (some changed) e =
        overlapping-read_ids start end changed
        ∙ migrated-read_ids start end id path tier segments changed e
        ∙ sym (overlapping-read_ids start end segments)

-- Segments whose ids are given, and those whose ids are not.
abbrev pub gone : List Text → List SegmentMeta → List SegmentMeta
gone ids segments = filter (is_listed ids) segments

abbrev pub stay : List Text → List SegmentMeta → List SegmentMeta
stay ids segments = filter (λ s. not (is_listed ids s)) segments

length-stay-gone :
    (ids : List Text) (xs : List SegmentMeta)
    → length (stay ids xs) + length (gone ids xs) ≡ length xs
length-stay-gone ids [] = omega arith
length-stay-gone ids (x ∷ xs) = elim (Bool-cases (is_listed ids x)) [
  | inl listed ↦ omega (
    arith,
    length-stay-gone ids xs,
    ap length (filter-cons (is_listed ids) x xs listed),
    ap length (filter-skip (λ s. not (is_listed ids s)) x xs (ap not listed)),
  )
  | inr other ↦ omega (
    arith,
    length-stay-gone ids xs,
    ap length (filter-skip (is_listed ids) x xs other),
    ap length (filter-cons (λ s. not (is_listed ids s)) x xs (ap not other)),
  )
]

-- The loop parts the segments, each part in order.
record Parts (ids : List Text) (segments : List SegmentMeta) (r t : Retained) : Type 0 where
  kept : t.kept ≡ r.kept ++ stay ids segments
  removed : t.removed ≡ r.removed + length (gone ids segments)
  files : t.files ≡ r.files ++ map (λ s. s.path) (gone ids segments)

retain_loop-Parts :
    (ids : List Text) (segments : List SegmentMeta) (r : Retained)
    → Parts ids segments r (retain_loop ids segments r)
unfolding retain_loop
retain_loop-Parts ids [] r = record {
  kept = sym (append-nil r.kept);
  removed = omega arith;
  files = sym (append-nil r.files);
}
retain_loop-Parts ids (s ∷ segments) r = elim (Bool-cases (is_listed ids s)) [
  | inl listed ↦
      let later =
        retain_loop-Parts ids segments
          (record r { removed = r.removed + 1; files = r.files ++ s.path ∷ [] }) in
      let went : gone ids (s ∷ segments) ≡ s ∷ gone ids segments =
        filter-cons (is_listed ids) s segments listed in
      rw (listed) (record {
        kept =
            later.kept
            ∙ ap (λ l. r.kept ++ l)
                (sym (filter-skip (λ x. not (is_listed ids x)) s segments (ap not listed)));
        removed = omega (arith, later.removed, ap length went);
        files =
            later.files
            ∙ append_assoc r.files (s.path ∷ []) _
            ∙ ap (λ l. r.files ++ map (λ x. x.path) l) (sym went);
      })
  | inr other ↦
      let later = retain_loop-Parts ids segments (record r { kept = r.kept ++ s ∷ [] }) in
      let went : gone ids (s ∷ segments) ≡ gone ids segments =
        filter-skip (is_listed ids) s segments other in
      rw (other) (record {
        kept =
            later.kept
            ∙ append_assoc r.kept (s ∷ []) _
            ∙ ap (λ l. r.kept ++ l)
                (sym (filter-cons (λ x. not (is_listed ids x)) s segments (ap not other)));
        removed = omega (arith, later.removed, ap length went);
        files = later.files ∙ ap (λ l. r.files ++ map (λ x. x.path) l) (sym went);
      })
]

listed_iff : (ids : List Text) (s : SegmentMeta) → (not (is_listed ids s) ≡ true) ↔ (¬ Has s.id ids)
listed_iff [] s = (λ h k. k, λ h. refl)
listed_iff (i ∷ ids) s =
    let (to, from) = listed_iff ids s in
    elim (Bool-cases (text_eq s.id i)) [
      | inl same ↦
          rw same (λ h. absurd (ground arith), λ h. absurd (h (inl ((text_eq_iff s.id i).0 same))))
      | inr other ↦ rw other (
        λ h k. elim k [
          | inl e ↦ absurd (let yes : text_eq s.id i ≡ true = (text_eq_iff s.id i).1 e in cc)
          | inr later ↦ to h later
        ],
        λ h. from (λ k. h (inr k)),
      )
    ]

-- How a removal ends: nothing went; or the catalog is saved, and the number that went is told; or it
-- cannot be saved.
abbrev pub Ends : Save → List SegmentMeta → List SegmentMeta → Option ℕ → Type 0
Ends save segments kept result =
    ((length kept ≡ length segments) × (result ≡ some 0))
    ⊎ (((length kept < length segments)
          × (save kept ≡ true)
          × (result ≡ some (length segments - length kept)))
        ⊎ ((length kept < length segments) × (save kept ≡ false) × (result ≡ none)))

-- A removal leaves exactly the segments whose ids it is not given, whether or not the catalog can be
-- saved, and removes the files of the others, in their order. It reports an error exactly if a
-- segment went and the catalog cannot be saved, and otherwise how many went.
pub remove-Holds :
    (save : Save) (ids : List Text) (segments : List SegmentMeta)
    → let ((kept, result), files) = remove save ids segments in
      ((s : SegmentMeta) → Holds s kept ↔ (Holds s segments × (¬ Has s.id ids)))
      × (files ≡ map (λ s. s.path) (gone ids segments))
      × Ends save segments kept result
unfolding remove
remove-Holds save ids segments =
    let parts = retain_loop-Parts ids segments (record { kept = []; removed = 0; files = [] }) in
    outcome (retain_loop ids segments (record { kept = []; removed = 0; files = [] })) parts.kept
      (omega (arith, parts.removed)) parts.files
  where
    held :
        (kept : List SegmentMeta)
        → kept ≡ stay ids segments
        → (s : SegmentMeta) → Holds s kept ↔ (Holds s segments × (¬ Has s.id ids))
    held kept e s =
        let (to, from) = Holds-filter (λ x. not (is_listed ids x)) s segments in
        let (off, on) = listed_iff ids s in
        subst (λ l. Holds s l ↔ (Holds s segments × (¬ Has s.id ids))) (sym e)
          (λ h. ((to h).0, off (to h).1), λ h. from (h.0, on h.1))

    outcome :
        (r : Retained)
        → r.kept ≡ stay ids segments
        → r.removed ≡ length (gone ids segments)
        → r.files ≡ map (λ s. s.path) (gone ids segments)
        → let (kept, result) = report save r in
          ((s : SegmentMeta) → Holds s kept ↔ (Holds s segments × (¬ Has s.id ids)))
          × (r.files ≡ map (λ s. s.path) (gone ids segments))
          × Ends save segments kept result
    outcome r e n f =
        let size : length r.kept + r.removed ≡ length segments =
          omega (arith, length-stay-gone ids segments, ap length e, n) in
        elim (Bool-cases (ltb 0 r.removed)) [
          | inr nothing ↦ rw nothing (held r.kept e, f, inl (ground arith, ground arith))
          | inl some_went ↦ elim (Bool-cases (save r.kept)) [
            | inl saves ↦
                rw (some_went, saves)
                  (held r.kept e, f, inr (inl (ground arith, refl, ground arith)))
            | inr fails ↦
                rw (some_went, fails) (held r.kept e, f, inr (inr (ground arith, refl, refl)))
          ]
        ]

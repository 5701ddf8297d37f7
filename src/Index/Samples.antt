-- ===== src/Index/Samples.antt =====
-- Two segments, and a query of the time between them.
use sigil_siem.Prelude.{Has, map, ◌≡◌, ◌↔◌, true, List, [], ◌∷◌, arith}
use sigil_siem.Prelude.Texts.{codes}
use sigil_siem.Prelude.Int.{pos}
use sigil_siem.Index.Catalog.{SegmentMeta, Tier, overlapping, remove}
use sigil_siem.Index.Pruning.{Holds, Meets, overlapping-Meets, remove-Holds, Ends, gone}

abbrev early : SegmentMeta
early = record {
  id = codes "a";
  path = [];
  tier = Tier.warm;
  min_ts = pos 1;
  max_ts = pos 5;
  rows = 2;
  created_ts = pos 6;
}

abbrev segments : List SegmentMeta
segments = early ∷ record early { id = codes "b"; min_ts = pos 8; max_ts = pos 9 } ∷ []

overlapping-Meets_example :
    Holds early (overlapping (pos 4) (pos 6) segments)
    ↔ (Holds early segments × Meets (pos 4) (pos 6) early)
overlapping-Meets_example =
    overlapping-Meets (pos 4) (pos 6) early segments (omega arith) (omega arith)

remove-Holds_example :
    let ((kept, result), files) = remove (λ s. true) (codes "b" ∷ []) segments in
    ((s : SegmentMeta) → Holds s kept ↔ (Holds s segments × (¬ Has s.id (codes "b" ∷ []))))
    × (files ≡ map (λ s. s.path) (gone (codes "b" ∷ []) segments))
    × Ends (λ s. true) segments kept result
remove-Holds_example = remove-Holds (λ s. true) (codes "b" ∷ []) segments

-- ===== src/Roles/Samples.antt =====
-- Targets of a node: one role twice, and one that is no role.
use sigil_siem.Prelude.{List, [], ◌∷◌}
use sigil_siem.Prelude.Texts.{Text, codes}
use sigil_siem.Roles.Targets.{from_targets}
use sigil_siem.Roles.Resolved.{IsResolved, from_targets-IsResolved}

abbrev two_targets : List Text
two_targets = codes "Index" ∷ codes "index" ∷ codes "indexer" ∷ []

from_targets-IsResolved_example : IsResolved two_targets (from_targets two_targets)
from_targets-IsResolved_example = from_targets-IsResolved two_targets

-- ===== src/Plugin/Capability.antt =====
-- Capabilities and the policy of a host, of crates/sigil-plugin-wasm/src/capability.rs.
use sigil_siem.Prelude.{
  Bool, true, false, not, Option, none, some, List, [], ◌∷◌, ◌++◌, any, filter, map, drop, length,
  if◌then◌else◌,
}
use sigil_siem.Prelude.Texts.{Text, codes, text_eq, starts_with}
use sigil_siem.Correlation.Timespan.{trim}

pub data Capability : Type 0 where
  net_egress : Capability
  read_field : Text → Capability
  enrich : Text → Capability

-- `strip_prefix`
unfoldable pub strip_prefix : Text → Text → Option Text
strip_prefix prefix s = if starts_with s prefix then some (drop (length prefix) s) else none

-- The last test of `parse_capability`; `none` stands for its error.
abbrev pub parse_other : Text → Option Capability
parse_other s = if text_eq s (codes "net:egress") then some net_egress else none

abbrev pub parse_enrich : Text → Option Text → Option Capability
parse_enrich s none = parse_other s
parse_enrich s (some name) = some (enrich name)

abbrev pub parse_field : Text → Option Text → Option Capability
parse_field s none = parse_enrich s (strip_prefix (codes "enrich:") s)
parse_field s (some field) = some (read_field field)

unfoldable pub parse_capability : Text → Option Capability
parse_capability item = let s = trim item in parse_field s (strip_prefix (codes "read:field:") s)

unfoldable pub capability_str : Capability → Text
capability_str net_egress = codes "net:egress"
capability_str (read_field f) = codes "read:field:" ++ f
capability_str (enrich e) = codes "enrich:" ++ e

pub record CapabilityPolicy : Type 0 where
  pub allowed : List Capability

-- `collect` into a result: the first error is the result.
abbrev pub parsed_with : Option Capability → Option (List Capability) → Option (List Capability)
parsed_with (some c) (some cs) = some (c ∷ cs)
parsed_with _ _ = none

unfoldable pub parse_all : List Text → Option (List Capability)
parse_all [] = some []
parse_all (s ∷ items) = parsed_with (parse_capability s) (parse_all items)

unfoldable pub from_strings : List Text → Option CapabilityPolicy
from_strings items = elim (parse_all items) [
  | none ↦ none
  | some cs ↦ some (record { allowed = cs })
]

-- The derived `==`.
unfoldable pub same_capability : Capability → Capability → Bool
same_capability net_egress net_egress = true
same_capability (read_field f) (read_field g) = text_eq f g
same_capability (enrich f) (enrich g) = text_eq f g
same_capability _ _ = false

unfoldable pub policy_grants : CapabilityPolicy → Capability → Bool
policy_grants policy cap = any (same_capability cap) policy.allowed

-- `ok` of `check`, or the capabilities that are denied.
pub data Verdict : Type 0 where
  ok : Verdict
  denied : List Text → Verdict

abbrev pub verdict : List Text → Verdict
verdict [] = ok
verdict (d ∷ ds) = denied (d ∷ ds)

unfoldable pub check : CapabilityPolicy → List Capability → Verdict
check policy requested =
    verdict (map capability_str (filter (λ c. not (policy_grants policy c)) requested))

-- ===== src/Plugin/Samples.antt =====
-- A policy of crates/sigil-plugin-wasm/src/capability.rs that lets a plugin read one field and use the network.
use sigil_siem.Prelude.{◌≡◌, ◌↔◌, refl, List, [], ◌∷◌, All, Has}
use sigil_siem.Prelude.Texts.{codes, text_eq}
use sigil_siem.Plugin.Capability.{
  Capability, net_egress, read_field, enrich, CapabilityPolicy, check, ok, denied, policy_grants,
  same_capability, capability_str,
}
use sigil_siem.Plugin.Policy.{check-ok}

abbrev policy : CapabilityPolicy
policy = record { allowed = net_egress ∷ read_field (codes "src_ip") ∷ [] }

abbrev requested : List Capability
requested = read_field (codes "src_ip") ∷ enrich (codes "geo") ∷ []

check-ok_example : (check policy requested ≡ ok) ↔ All (λ c. Has c policy.allowed) requested
check-ok_example = check-ok policy requested

test1 : check policy requested ≡ denied (codes "enrich:geo" ∷ [])
unfolding check policy_grants same_capability capability_str text_eq
test1 = refl

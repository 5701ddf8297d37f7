-- ===== src/Plugin/Policy.antt =====
-- A plugin gets what it is granted only, for crates/sigil-plugin-wasm/src/capability.rs.
use mathlib.Core.Path.{subst}
use sigil_siem.Prelude.{
  ◌≡◌, ◌↔◌, some, refl, ap, inl, inr, true, List, [], ◌∷◌, any, All, Has, arith, Bool-cases,
}
use sigil_siem.Prelude.Texts.{text_eq_iff, text_eq, starts_with}
use sigil_siem.Correlation.Timespan.{trim}
use sigil_siem.Plugin.Capability.{
  Capability, net_egress, read_field, enrich, CapabilityPolicy, same_capability, policy_grants, ok,
  check, capability_str, parse_capability, strip_prefix,
}

same_capability_eq : (c d : Capability) → same_capability c d ≡ true → c ≡ d
unfolding same_capability
same_capability_eq net_egress net_egress h = refl
same_capability_eq (read_field f) (read_field g) h = ap read_field ((text_eq_iff f g).0 h)
same_capability_eq (enrich f) (enrich g) h = ap enrich ((text_eq_iff f g).0 h)
same_capability_eq net_egress (read_field g) h = absurd (ground arith)
same_capability_eq net_egress (enrich g) h = absurd (ground arith)
same_capability_eq (read_field f) net_egress h = absurd (ground arith)
same_capability_eq (read_field f) (enrich g) h = absurd (ground arith)
same_capability_eq (enrich f) net_egress h = absurd (ground arith)
same_capability_eq (enrich f) (read_field g) h = absurd (ground arith)

same_capability_refl : (c : Capability) → same_capability c c ≡ true
unfolding same_capability
same_capability_refl net_egress = refl
same_capability_refl (read_field f) = (text_eq_iff f f).1 refl
same_capability_refl (enrich f) = (text_eq_iff f f).1 refl

any-Has : (c : Capability) (cs : List Capability) → any (same_capability c) cs ≡ true → Has c cs
any-Has c [] h = absurd (ground arith)
any-Has c (d ∷ cs) h = elim (Bool-cases (same_capability c d)) [
  | inl same ↦ inl (same_capability_eq c d same)
  | inr other ↦ inr (any-Has c cs (ground arith))
]

Has-any : (c : Capability) (cs : List Capability) → Has c cs → any (same_capability c) cs ≡ true
Has-any c [] h = absurd h
Has-any c (d ∷ cs) (inl e) =
    let same : same_capability c d ≡ true =
      subst (λ x. same_capability c x ≡ true) e (same_capability_refl c) in
    ground arith
Has-any c (d ∷ cs) (inr h) = let rest = Has-any c cs h in ground arith

check-granted :
    (policy : CapabilityPolicy) (requested : List Capability)
    → All (λ c. Has c policy.allowed) requested
    → check policy requested ≡ ok
unfolding check policy_grants
check-granted policy [] h = refl
check-granted policy (c ∷ cs) (known, h) =
    let k = Has-any c policy.allowed known in let rest = check-granted policy cs h in ground arith

granted-check :
    (policy : CapabilityPolicy) (requested : List Capability)
    → check policy requested ≡ ok
    → All (λ c. Has c policy.allowed) requested
unfolding check policy_grants
granted-check policy [] h = tt
granted-check policy (c ∷ cs) h = elim (Bool-cases (any (same_capability c) policy.allowed)) [
  | inl known ↦ (any-Has c policy.allowed known, granted-check policy cs (ground arith))
  | inr unknown ↦ absurd (ground arith)
]

-- A plugin passes the check exactly if the policy allows every capability that it asks for.
pub check-ok :
    (policy : CapabilityPolicy) (requested : List Capability)
    → (check policy requested ≡ ok) ↔ All (λ c. Has c policy.allowed) requested
check-ok policy requested = (granted-check policy requested, check-granted policy requested)

-- A capability that begins and ends without blanks is read back from its text.
pub parse_capability-capability_str :
    (c : Capability)
    → trim (capability_str c) ≡ capability_str c
    → parse_capability (capability_str c) ≡ some c
unfolding parse_capability capability_str strip_prefix starts_with text_eq
parse_capability-capability_str net_egress h = rw h refl
parse_capability-capability_str (read_field f) h = rw h refl
parse_capability-capability_str (enrich e) h = rw h refl

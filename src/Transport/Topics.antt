-- ===== src/Transport/Topics.antt =====
-- The bytes of a topic of crates/sigil-cluster/src/transport.rs are read as the topic.
use sigil_siem.Prelude.{
  ℕ, zero, suc, ◌≤◌, ◌<◌, ◌≡◌, refl, ap, ◌∙◌, ◌⊎◌, inl, inr, Bool-cases, List, [], ◌∷◌, ◌++◌,
  length, length-append, ltb, All, arith,
}
use sigil_siem.Prelude.Texts.{Text}
use sigil_siem.Raft.Init.{utf8}
use sigil_siem.Transport.Utf8.{as_bytes, next_char, lossy, from_utf8_lossy}

-- A `char`: a code point that is no surrogate.
abbrev pub IsChar : ℕ → Type 0
IsChar c = (c < 0xd800) ⊎ ((0xe000 ≤ c) × (c < 0x110000))

lossy-utf8 :
    (fuel c : ℕ) (s : List ℕ) → IsChar c → lossy (suc fuel) (utf8 c ++ s) ≡ c ∷ lossy fuel s
unfolding lossy utf8 next_char
lossy-utf8 fuel c s h = elim (Bool-cases (ltb c 0x80)) [
  | inl one ↦ ground arith
  | inr more ↦ elim (Bool-cases (ltb c 0x800)) [
    | inl two ↦ ground arith
    | inr more' ↦ elim (Bool-cases (ltb c 0x10000)) [
      | inl three ↦ ground arith
      | inr four ↦ ground arith
    ]
  ]
]

length-utf8 : (c : ℕ) → 1 ≤ length (utf8 c)
unfolding utf8
length-utf8 c = ground arith

lossy-as_bytes :
    (fuel : ℕ) (s : Text) → All IsChar s → length (as_bytes s) ≤ fuel → lossy fuel (as_bytes s) ≡ s
unfolding as_bytes lossy
lossy-as_bytes zero [] h le = refl
lossy-as_bytes (suc fuel) [] h le = refl
lossy-as_bytes zero (c ∷ s) h le =
    absurd (omega (arith, length-append (utf8 c) (as_bytes s), length-utf8 c))
lossy-as_bytes (suc fuel) (c ∷ s) (char, h) le =
    lossy-utf8 fuel c (as_bytes s) char
    ∙ ap (λ t. c ∷ t)
        (lossy-as_bytes fuel s h
          (omega (arith, length-append (utf8 c) (as_bytes s), length-utf8 c)))

-- The bytes of a text are read as the text.
pub from_utf8_lossy-as_bytes : (s : Text) → All IsChar s → from_utf8_lossy (as_bytes s) ≡ s
unfolding from_utf8_lossy
from_utf8_lossy-as_bytes s h = lossy-as_bytes (length (as_bytes s)) s h (omega arith)

-- ===== src/Prelude/Members.antt =====
-- Membership of a list by recursion, lists without repetition, and the names that two of them share.
use Prim.Native.Nat.{◌+◌, ◌≤◌, ◌<◌}
use Prim.Native.String.{String}
use mathlib.Core.Path.{◌≡◌, refl, subst}
use mathlib.Core.Logic.{◌≢◌, ◌⊎◌, inl, inr}
use mathlib.Core.Bool.{true, false}
use mathlib.Core.List.{List, [], ◌∷◌, ◌++◌}
use native.Mathlib.Omega.{arith}
use text.Mathlib.Text.{◌==◌ as str_eq}
use text.Mathlib.TextEquality.{eq_iff}
use sigil_siem.Prelude.Tests.{Bool-cases}
use sigil_siem.Prelude.Lists.{length, length-append}

abbrev pub Has : {A : Type 0} → A → List A → Type 0
Has x [] = ⊥
Has x (y ∷ ys) = (x ≡ y) ⊎ Has x ys

pub Has-append : {A : Type 0} (x : A) (xs ys : List A) → Has x (xs ++ ys) → Has x xs ⊎ Has x ys
Has-append x [] ys h = inr h
Has-append x (z ∷ zs) ys (inl e) = inl (inl e)
Has-append x (z ∷ zs) ys (inr h) = elim (Has-append x zs ys h) [
  | inl a ↦ inl (inr a)
  | inr b ↦ inr b
]

pub append-Has : {A : Type 0} (x : A) (xs ys : List A) → Has x ys → Has x (xs ++ ys)
append-Has x [] ys h = h
append-Has x (z ∷ zs) ys h = inr (append-Has x zs ys h)

abbrev pub Apart : {A : Type 0} → List A → Type 0
Apart [] = Unit
Apart (x ∷ xs) = (¬ Has x xs) × Apart xs

abbrev pub Within : {A : Type 0} → List A → List A → Type 0
Within {A = A} xs ys = (x : A) → Has x xs → Has x ys

pub same_or_not : (a b : String) → (a ≡ b) ⊎ (a ≢ b)
same_or_not a b = elim (Bool-cases (str_eq a b)) [
  | inl same ↦ inl ((eq_iff a b).0 same)
  | inr other ↦ inr (λ e. ground (arith, eq_iff a b))
]

pub in_or_not : (a : String) (xs : List String) → Has a xs ⊎ (¬ Has a xs)
in_or_not a [] = inr (λ h. h)
in_or_not a (x ∷ xs) = elim (same_or_not a x) [
  | inl same ↦ inl (inl same)
  | inr other ↦ elim (in_or_not a xs) [
    | inl h ↦ inl (inr h)
    | inr none_of ↦ inr (λ h. elim h [ inl e ↦ other e | inr k ↦ none_of k ])
  ]
]

-- Without the first occurrence of `a`.
without : String → List String → List String
without a [] = []
without a (x ∷ xs) = let rest = without a xs in elim (str_eq a x) [ true ↦ xs | false ↦ x ∷ rest ]

length-without : (a : String) (xs : List String) → Has a xs → length xs ≡ length (without a xs) + 1
unfolding without
length-without a [] h = absurd h
length-without a (x ∷ xs) h = ground (arith, eq_iff a x, length-without a xs)

without-Has : (a b : String) (xs : List String) → b ≢ a → Has b xs → Has b (without a xs)
unfolding without
without-Has a b [] ne h = h
without-Has a b (x ∷ xs) ne h = ground (arith, eq_iff a x, without-Has a b xs)

pub length-Within : (xs ys : List String) → Apart xs → Within xs ys → length xs ≤ length ys
length-Within [] ys a w = omega arith
length-Within (x ∷ xs) ys a w =
    let rest =
      length-Within xs (without x ys) a.1 (λ b h. without-Has x b ys (other b h) (w b (inr h))) in
    omega (arith, length-without x ys (w x (inl refl)))
  where
    other : (b : String) → Has b xs → b ≢ x
    other b h e = a.0 (subst (λ y. Has y xs) e h)

append-Apart :
    (xs ys : List String)
    → Apart xs
    → Apart ys
    → ((x : String) → Has x xs → ¬ Has x ys)
    → Apart (xs ++ ys)
append-Apart [] ys a b d = b
append-Apart (x ∷ xs) ys a b d = (
  λ h. elim (Has-append x xs ys h) [ inl k ↦ a.0 k | inr k ↦ d x (inl refl) k ],
  append-Apart xs ys a.1 b (λ y h. d y (inr h)),
)

share_or_not :
    (xs ys : List String)
    → ((x : String) × Has x xs × Has x ys) ⊎ ((x : String) → Has x xs → ¬ Has x ys)
share_or_not [] ys = inr (λ x h. absurd h)
share_or_not (x ∷ xs) ys = elim (in_or_not x ys) [
  | inl h ↦ inl (x, inl refl, h)
  | inr none_of ↦ elim (share_or_not xs ys) [
    | inl (y, a, b) ↦ inl (y, inr a, b)
    | inr d ↦
        inr (λ y h k. elim h [ inl e ↦ none_of (subst (λ z. Has z ys) e k) | inr a ↦ d y a k ])
  ]
]

-- Two lists without repetition that together are longer than a list that holds them share a name.
pub shared_name :
    (xs ys all : List String)
    → Apart xs
    → Apart ys
    → Within xs all
    → Within ys all
    → length all < length xs + length ys
    → (x : String) × Has x xs × Has x ys
shared_name xs ys all a b v w l = elim (share_or_not xs ys) [
  | inl s ↦ s
  | inr d ↦ absurd (
      omega (
        arith,
        length-append xs ys,
        length-Within (xs ++ ys) all (append-Apart xs ys a b d)
            (λ x h. elim (Has-append x xs ys h) [ inl k ↦ v x k | inr k ↦ w x k ]),
      ))
]

-- ===== src/Matcher/Substrings.antt =====
-- What the predicates of crates/sigil-sigma/src/matcher.rs decide of a text.
use sigil_siem.Prelude.{
  ℕ, ◌≡◌, ◌≢◌, ◌↔◌, ◌⊎◌, inl, inr, refl, ap, Bool, true, false, ◌||◌, some, [], ◌∷◌, ◌++◌, arith,
}
use sigil_siem.Prelude.Texts.{Text, text_eq, text_eq_iff, starts_with}
use sigil_siem.Matcher.Modifiers.{BaseMatch, Modifiers}
use sigil_siem.Matcher.Predicates.{
  Library, StringPredicate, equals, contains, starting, ending, has_substring, ends_with, has_wild,
  build, build_base, matches,
}

abbrev pub IsPrefix : Text → Text → Type 0
IsPrefix s t = (post : Text) × (s ≡ t ++ post)

abbrev pub IsSuffix : Text → Text → Type 0
IsSuffix s t = (before : Text) × (s ≡ before ++ t)

abbrev pub IsPart : Text → Text → Type 0
IsPart s t = (before post : Text) × (s ≡ before ++ t ++ post)

starts_with_sound : (s t : Text) → starts_with s t ≡ true → IsPrefix s t
unfolding starts_with
starts_with_sound s [] h = (s, refl)
starts_with_sound [] (d ∷ t) h = cc
starts_with_sound (c ∷ s) (d ∷ t) h =
    let (post, e) = starts_with_sound s t (ground arith) in
    let same : c ≡ d = ground arith in (post, cc)

starts_with-append : (t post : Text) → starts_with (t ++ post) t ≡ true
unfolding starts_with
starts_with-append [] post = refl
starts_with-append (d ∷ t) post = ground (arith, starts_with-append t post)

||_cases : (a b : Bool) → (a || b) ≡ true → (a ≡ true) ⊎ (b ≡ true)
||_cases true b h = inl refl
||_cases false b h = inr h

||_right : (a b : Bool) → b ≡ true → (a || b) ≡ true
||_right true b h = refl
||_right false b h = h

has_substring_sound : (s t : Text) → has_substring s t ≡ true → IsPart s t
unfolding has_substring
has_substring_sound [] t h = let (post, e) = starts_with_sound [] t h in ([], post, e)
has_substring_sound (c ∷ s) t h = elim (||_cases _ _ h) [
  | inl here ↦ let (post, e) = starts_with_sound (c ∷ s) t here in ([], post, e)
  | inr later ↦
      let (before, post, e) = has_substring_sound s t later in
      (c ∷ before, post, ap (λ rest. c ∷ rest) e)
]

substring_first : (s t : Text) → starts_with s t ≡ true → has_substring s t ≡ true
unfolding has_substring
substring_first [] t h = h
substring_first (c ∷ s) t h = rw h refl

substring_later : (c : ℕ) (s t : Text) → has_substring s t ≡ true → has_substring (c ∷ s) t ≡ true
unfolding has_substring
substring_later c s t h = ||_right (starts_with (c ∷ s) t) (has_substring s t) h

has_substring-append : (before t post : Text) → has_substring (before ++ t ++ post) t ≡ true
has_substring-append [] t post = substring_first (t ++ post) t (starts_with-append t post)
has_substring-append (c ∷ before) t post =
    substring_later c (before ++ t ++ post) t (has_substring-append before t post)

ends_with_sound : (s t : Text) → ends_with s t ≡ true → IsSuffix s t
unfolding ends_with
ends_with_sound [] t h = ([], (text_eq_iff [] t).0 h)
ends_with_sound (c ∷ s) t h = elim (||_cases _ _ h) [
  | inl here ↦ ([], (text_eq_iff (c ∷ s) t).0 here)
  | inr later ↦ let (before, e) = ends_with_sound s t later in (c ∷ before, ap (λ rest. c ∷ rest) e)
]

ends_first : (s : Text) → ends_with s s ≡ true
unfolding ends_with
ends_first [] = (text_eq_iff [] []).1 refl
ends_first (c ∷ s) = rw ((text_eq_iff (c ∷ s) (c ∷ s)).1 refl) refl

ends_later : (c : ℕ) (s t : Text) → ends_with s t ≡ true → ends_with (c ∷ s) t ≡ true
unfolding ends_with
ends_later c s t h = ||_right (text_eq (c ∷ s) t) (ends_with s t) h

ends_with-append : (before t : Text) → ends_with (before ++ t) t ≡ true
ends_with-append [] t = ends_first t
ends_with-append (c ∷ before) t = ends_later c (before ++ t) t (ends_with-append before t)

-- How a text stands to the value of a field, by the modifier.
abbrev pub Relates : BaseMatch → Text → Text → Type 0
Relates BaseMatch.equals s t = s ≡ t
Relates BaseMatch.contains s t = IsPart s t
Relates BaseMatch.starts_with s t = IsPrefix s t
Relates BaseMatch.ends_with s t = IsSuffix s t
Relates BaseMatch.regex s t = Unit

-- The predicate of a value is the modifier's relation between the lower cases.
abbrev pub Decides : (L : Library) → BaseMatch → Text → StringPredicate L → Type 0
Decides L base value p =
    (candidate : Text)
    → (matches p candidate ≡ true) ↔ Relates base (L.to_lowercase candidate) (L.to_lowercase value)

plain_predicate :
    (L : Library) (base : BaseMatch) (value : Text)
    → base ≢ BaseMatch.regex
    → (p : StringPredicate L) × (build_base L base false value ≡ some p) × Decides L base value p
unfolding matches
plain_predicate L BaseMatch.equals value n =
    (equals (L.to_lowercase value), refl, λ c. text_eq_iff (L.to_lowercase c) _)
plain_predicate L BaseMatch.contains value n = (
  contains (L.to_lowercase value),
  refl,
  λ c. (has_substring_sound _ _, λ h. rw h.2 (has_substring-append h.0 (L.to_lowercase value) h.1)),
)
plain_predicate L BaseMatch.starts_with value n = (
  starting (L.to_lowercase value),
  refl,
  λ c. (starts_with_sound _ _, λ h. rw h.1 (starts_with-append (L.to_lowercase value) h.0)),
)
plain_predicate L BaseMatch.ends_with value n = (
  ending (L.to_lowercase value),
  refl,
  λ c. (ends_with_sound _ _, λ h. rw h.1 (ends_with-append h.0 (L.to_lowercase value))),
)
plain_predicate L BaseMatch.regex value n = absurd (n refl)

-- A value without wildcards, under another modifier than `re`, becomes a predicate without an
-- error, and that is true of a text exactly if the text in lower case is equal to the value in
-- lower case, contains it, or starts or ends with it, as the modifier says.
pub build-Decides :
    (L : Library) (value : Text) (mods : Modifiers)
    → has_wild value ≡ false
    → mods.base ≢ BaseMatch.regex
    → (p : StringPredicate L) × (build L (some value) mods ≡ some p) × Decides L mods.base value p
unfolding build
build-Decides L value mods h n = rw h (plain_predicate L mods.base value n)

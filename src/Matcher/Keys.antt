-- ===== src/Matcher/Keys.antt =====
-- The keys `field|contains|all` that `Modifiers::parse` of crates/sigil-sigma/src/matcher.rs reads.
use sigil_siem.Prelude.{
  ℕ, ◌≡◌, ◌≢◌, refl, ◌∙◌, ap, Bool, true, false, some, [], ◌∷◌, ◌++◌, append-nil, All, arith,
}
use sigil_siem.Prelude.Texts.{Text, text_eq, codes}
use sigil_siem.Matcher.Modifiers.{
  BaseMatch, Modifiers, split_bar, cons_part, modify, modify_all, parse_key,
}

-- No bar stands in a text.
abbrev pub HasNoBar : Text → Type 0
HasNoBar = All (λ c. c ≢ b'|')

split_bar-cons : (c : ℕ) (s : Text) → c ≢ b'|' → split_bar (c ∷ s) ≡ cons_part c (split_bar s)
unfolding split_bar
split_bar-cons c s h = ground arith

split_bar-bar : (t : Text) → split_bar (b'|' ∷ t) ≡ [] ∷ split_bar t
unfolding split_bar
split_bar-bar t = refl

split_bar-append : (s t : Text) → HasNoBar s → split_bar (s ++ b'|' ∷ t) ≡ s ∷ split_bar t
split_bar-append [] t h = split_bar-bar t
split_bar-append (c ∷ s) t (n, h) =
    split_bar-cons c (s ++ b'|' ∷ t) n ∙ ap (cons_part c) (split_bar-append s t h)

split_bar-whole : (s : Text) → HasNoBar s → split_bar s ≡ s ∷ []
unfolding split_bar
split_bar-whole [] h = refl
split_bar-whole (c ∷ s) (n, h) = split_bar-cons c s n ∙ ap (cons_part c) (split_bar-whole s h)

abbrev pub all_suffix : Bool → Text
all_suffix true = codes "|all"
all_suffix false = []

-- The suffix of a key; `equals` has no name.
abbrev pub suffix_of : BaseMatch → Bool → Text
suffix_of BaseMatch.equals a = all_suffix a
suffix_of BaseMatch.contains a = codes "|contains" ++ all_suffix a
suffix_of BaseMatch.starts_with a = codes "|startswith" ++ all_suffix a
suffix_of BaseMatch.ends_with a = codes "|endswith" ++ all_suffix a
suffix_of BaseMatch.regex a = codes "|re" ++ all_suffix a

-- A key with a suffix behind a bar is the field with what the parts of the suffix say.
parse_key-suffix :
    (field suffix : Text) (mods : Modifiers)
    → HasNoBar field
    → modify_all (split_bar suffix) (record { base = BaseMatch.equals; all = false }) ≡ some mods
    → parse_key (field ++ b'|' ∷ suffix) ≡ some (field, mods)
unfolding parse_key
parse_key-suffix field suffix mods h e = rw (split_bar-append field suffix h) (rw e refl)

-- A field without a bar, followed by the names of its modifiers, is read as the field with them.
pub parse_key-suffix_of :
    (field : Text) (base : BaseMatch) (all : Bool)
    → HasNoBar field
    → parse_key (field ++ suffix_of base all) ≡ some (field, record { base = base; all = all })
unfolding parse_key split_bar modify_all modify text_eq
parse_key-suffix_of field BaseMatch.equals false h =
    rw (append-nil field) (rw (split_bar-whole field h) refl)
parse_key-suffix_of field BaseMatch.equals true h = parse_key-suffix field (codes "all") _ h refl
parse_key-suffix_of field BaseMatch.contains false h =
    parse_key-suffix field (codes "contains") _ h refl
parse_key-suffix_of field BaseMatch.contains true h =
    parse_key-suffix field (codes "contains|all") _ h refl
parse_key-suffix_of field BaseMatch.starts_with false h =
    parse_key-suffix field (codes "startswith") _ h refl
parse_key-suffix_of field BaseMatch.starts_with true h =
    parse_key-suffix field (codes "startswith|all") _ h refl
parse_key-suffix_of field BaseMatch.ends_with false h =
    parse_key-suffix field (codes "endswith") _ h refl
parse_key-suffix_of field BaseMatch.ends_with true h =
    parse_key-suffix field (codes "endswith|all") _ h refl
parse_key-suffix_of field BaseMatch.regex false h = parse_key-suffix field (codes "re") _ h refl
parse_key-suffix_of field BaseMatch.regex true h = parse_key-suffix field (codes "re|all") _ h refl

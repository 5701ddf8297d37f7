-- ===== src/Matcher/Samples.antt =====
-- Keys and predicates over regular expressions that are texts, which match only themselves.
use sigil_siem.Prelude.{◌≡◌, refl, false, some, map}
use sigil_siem.Prelude.Texts.{Text, text_eq, codes, ascii_lower}
use sigil_siem.Matcher.Modifiers.{BaseMatch}
use sigil_siem.Matcher.Predicates.{Library, StringPredicate, build, has_wild}
use sigil_siem.Matcher.Substrings.{Decides, build-Decides}

abbrev pub plain_library : Library
plain_library = record {
  Regex = Text;
  compile = λ s. some s;
  is_match = text_eq;
  escape = λ s. s;
  to_lowercase = map ascii_lower;
}

build-Decides_example :
    (p : StringPredicate plain_library) × (build plain_library
        (some (codes "Root"))
        (record { base = BaseMatch.contains; all = false })
      ≡ some p)
    × Decides plain_library BaseMatch.contains (codes "Root") p
unfolding has_wild
build-Decides_example =
    build-Decides plain_library (codes "Root") (record { base = BaseMatch.contains; all = false })
      refl (λ e. cc)

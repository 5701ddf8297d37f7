-- ===== src/Ingest/Samples.antt =====
-- Lines of CEF, and the theorems on them at these.
use sigil_siem.Prelude.{◌≡◌, refl, List, [], ◌∷◌, ◌++◌, arith}
use sigil_siem.Prelude.Texts.{Text, codes}
use sigil_siem.Ingest.Cef.{split_header}
use sigil_siem.Ingest.Headers.{header, split_header-extension}
use sigil_siem.Correlation.Timespan.{trim, trim_start, trim_end}
use sigil_siem.Condition.Lexer.{is_whitespace}
use sigil_siem.Ingest.Leef.{put_attributes, split_on}
use sigil_siem.Ingest.Attributes.{written, put_all, put_attributes-written}

abbrev seven : List Text
seven =
    codes "0"
    ∷ codes "Acme"
    ∷ codes "a|b"
    ∷ codes "1.0"
    ∷ codes "100"
    ∷ codes "logon"
    ∷ codes "5"
    ∷ []

split_header-extension_example :
    split_header (header seven (codes "act=a|b")) ≡ seven ++ codes "act=a|b" ∷ []
split_header-extension_example =
    split_header-extension seven (codes "act=a|b") (omega arith) (ground arith)

abbrev attributes : List (Text × Text)
attributes = (codes "src", codes "10.0.0.9") ∷ (codes "msg", codes "a=b") ∷ []

put_attributes-written_example :
    put_attributes (split_on b'^' (written b'^' attributes)) [] ≡ put_all attributes []
unfolding trim trim_start trim_end is_whitespace
put_attributes-written_example =
    put_attributes-written b'^' attributes [] (λ e. ground arith)
      (
        ((λ e. ground arith), refl, ground arith, ground arith, ground arith),
        (((λ e. ground arith), refl, ground arith, ground arith, ground arith), tt),
      )

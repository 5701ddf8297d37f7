-- ===== src/Ingest/Attributes.antt =====
-- Attributes that are written are read back, for crates/sigil-ingest/src/leef.rs.
use sigil_siem.Prelude.{ℕ, ◌≡◌, ◌≢◌, refl, ap, sym, ◌∙◌, some, List, [], ◌∷◌, ◌++◌, All, arith}
use sigil_siem.Prelude.Texts.{Text}
use sigil_siem.Correlation.Timespan.{trim}
use sigil_siem.Ingest.Record.{Fields, put_field}
use sigil_siem.Ingest.Leef.{split_once, split_on, put_pair, put_attributes}

abbrev pub Lacks : ℕ → Text → Type 0
Lacks sep = All (λ c. c ≢ sep)

-- A key and a value that can be written: the key is not empty, is not changed by `trim` and has no
-- `=`; neither has the delimiter.
abbrev pub IsWritable : ℕ → Text × Text → Type 0
IsWritable delim (k, v) = (k ≢ []) × (trim k ≡ k) × Lacks b'=' k × Lacks delim k × Lacks delim v

-- Each pair with the delimiter behind it.
abbrev pub written : ℕ → List (Text × Text) → Text
written delim [] = []
written delim ((k, v) ∷ pairs) = (k ++ b'=' ∷ v) ++ delim ∷ written delim pairs

abbrev pub put_all : List (Text × Text) → Fields → Fields
put_all [] fields = fields
put_all ((k, v) ∷ pairs) fields = put_all pairs (put_field k v fields)

split_once-append :
    (sep : ℕ) (s t : Text) → Lacks sep s → split_once sep (s ++ sep ∷ t) ≡ some (s, t)
unfolding split_once
split_once-append sep [] t h = ground arith
split_once-append sep (c ∷ s) t (ne, h) = ground (arith, split_once-append sep s t h)

split_on-append :
    (sep : ℕ) (s t : Text) → Lacks sep s → split_on sep (s ++ sep ∷ t) ≡ s ∷ split_on sep t
unfolding split_on
split_on-append sep [] t h = ground arith
split_on-append sep (c ∷ s) t (ne, h) = ground (arith, split_on-append sep s t h)

Lacks-append : (sep : ℕ) (s t : Text) → Lacks sep s → Lacks sep t → Lacks sep (s ++ t)
Lacks-append sep [] t h k = k
Lacks-append sep (c ∷ s) t (ne, h) k = (ne, Lacks-append sep s t h k)

put_pair-written :
    (k v : Text) (fields : Fields)
    → k ≢ []
    → trim k ≡ k
    → Lacks b'=' k
    → put_pair (split_once b'=' (k ++ b'=' ∷ v)) fields ≡ put_field k v fields
put_pair-written [] v fields some_key trimmed h = absurd (some_key refl)
put_pair-written (c ∷ k) v fields some_key trimmed h =
    rw (split_once-append b'=' (c ∷ k) v h, trimmed) refl

-- Attributes written with a delimiter behind each, which is not `=`, are put in order, a later one
-- over an earlier one of the same key; if no key is empty, has a blank at an end or has an `=`, and
-- the delimiter is in no key and no value.
pub put_attributes-written :
    (delim : ℕ) (pairs : List (Text × Text)) (fields : Fields)
    → delim ≢ b'='
    → All (IsWritable delim) pairs
    → put_attributes (split_on delim (written delim pairs)) fields ≡ put_all pairs fields
unfolding put_attributes split_on split_once
put_attributes-written delim [] fields ne h = refl
put_attributes-written delim ((k, v) ∷ pairs) fields ne
      ((some_key, trimmed, no_eq, clean_k, clean_v), h) =
    ap (λ ps. put_attributes ps fields)
      (split_on-append delim (k ++ b'=' ∷ v) (written delim pairs)
        (Lacks-append delim k (b'=' ∷ v) clean_k (λ e. ne (sym e), clean_v)))
    ∙ ap (put_attributes (split_on delim (written delim pairs)))
        (put_pair-written k v fields some_key trimmed no_eq)
    ∙ put_attributes-written delim pairs (put_field k v fields) ne h

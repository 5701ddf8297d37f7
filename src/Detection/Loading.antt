-- ===== src/Detection/Loading.antt =====
-- What the loop over `detection` in crates/sigil-sigma/src/engine.rs reads: for each key the last of
-- its entries.
use sigil_siem.Prelude.{
  ◌≡◌, refl, sym, ap, ◌∙◌, Bool, true, false, Option, none, some, List, [], ◌∷◌, Bool-cases, inl,
  inr, >>=-eq-some, if◌then◌else◌, arith,
}
use sigil_siem.Prelude.Texts.{Text, text_eq, text_eq_iff, codes}
use sigil_siem.Event.Model.{get}
use sigil_siem.Matcher.Predicates.{Library}
use sigil_siem.Matcher.Selections.{Selection}
use sigil_siem.Detection.Yaml.{Yaml}
use sigil_siem.Detection.Compile.{
  read_detection, compile_selection, condition_to_string, put_selection,
}

pub get-put_selection {ℓ} :
    {V : Type ℓ} (key other : Text) (v : V) (rows : List (Text × V))
    → get other (put_selection key v rows) ≡ (if text_eq key other then some v else get other rows)
unfolding get put_selection
get-put_selection key other v [] = refl
get-put_selection key other v ((held, old) ∷ rows) = ground (
  arith,
  get-put_selection key other v rows,
  text_eq_iff held key,
  text_eq_iff key other,
  text_eq_iff held other,
)

branch_true :
    {A : Type 0} {b : Bool} {x z : A} (y : A) → b ≡ true → (if b then x else y) ≡ z → x ≡ z
branch_true y e h = ground arith

branch_false :
    {A : Type 0} {b : Bool} {y z : A} (x : A) → b ≡ false → (if b then x else y) ≡ z → y ≡ z
branch_false x e h = ground arith

-- The first of the two that is there.
abbrev pub or_else {ℓ} : {A : Type ℓ} → Option A → Option A → Option A
or_else none b = b
or_else (some a) b = some a

module _ (L : Library) (Y : Yaml) where
  -- The selection that an entry with this key gives the name `n`, and the condition that it gives.
  abbrev pub selection_at : Text → Y.Value → Option Text → Option (Selection L)
  selection_at n v none = none
  selection_at n v (some key) =
      if text_eq key (codes "condition")
      then none
      else if text_eq key n
      then compile_selection L Y v
      else none

  abbrev pub condition_at : Y.Value → Option Text → Option Text
  condition_at v none = none
  condition_at v (some key) =
      if text_eq key (codes "condition") then condition_to_string Y v else none

  abbrev pub last_selection : Text → List (Y.Value × Y.Value) → Option (Selection L)
  last_selection n [] = none
  last_selection n (entry ∷ rest) =
      or_else (last_selection n rest) (selection_at n entry.1 (Y.as_str entry.0))

  abbrev pub last_condition : List (Y.Value × Y.Value) → Option Text
  last_condition [] = none
  last_condition (entry ∷ rest) =
      or_else (last_condition rest) (condition_at entry.1 (Y.as_str entry.0))

or_else_assoc : {A : Type 0} (a b c : Option A) → or_else a (or_else b c) ≡ or_else (or_else a b) c
or_else_assoc none b c = refl
or_else_assoc (some a) b c = refl

pub right_none : {A : Type 0} (o : Option A) → o ≡ or_else o none
right_none none = refl
right_none (some a) = refl

put-selection_at :
    {V : Type 0} (n key : Text) (s : V) (held : List (Text × V))
    → get n (put_selection key s held)
      ≡ or_else (if text_eq key n then some s else none) (get n held)
put-selection_at n key s held = elim (Bool-cases (text_eq key n)) [
  | inl same ↦ get-put_selection key n s held ∙ rw same refl
  | inr other ↦ get-put_selection key n s held ∙ rw other refl
]

module _ (L : Library) (Y : Yaml) where
  -- What the loop has at the end: the last entry for a name, or else what it had before.
  abbrev pub Reads :
      List (Y.Value × Y.Value)
      → List (Text × Selection L)
      → Option Text
      → List (Text × Selection L)
      → Option Text
      → Type 0
  Reads entries held condition selections last =
      ((n : Text) → get n selections ≡ or_else (last_selection L Y n entries) (get n held))
      × (last ≡ or_else (last_condition L Y entries) condition)

  condition-Reads :
      (entry : Y.Value × Y.Value) (rest : List (Y.Value × Y.Value))
      (held selections : List (Text × Selection L)) (condition last : Option Text) (key str : Text)
      → Y.as_str entry.0 ≡ some key
      → text_eq key (codes "condition") ≡ true
      → condition_to_string Y entry.1 ≡ some str
      → Reads rest held (some str) selections last
      → Reads (entry ∷ rest) held condition selections last
  condition-Reads entry rest held selections condition last key str k is_condition c (names, ends) =
      (
        λ n.
            names n
            ∙ ap (λ o. or_else o (get n held)) (right_none (last_selection L Y n rest))
            ∙ ap (λ o. or_else (or_else (last_selection L Y n rest) o) (get n held))
                (sym (nothing n)),
        ends
            ∙ or_else_assoc (last_condition L Y rest) (some str) condition
            ∙ ap (λ o. or_else (or_else (last_condition L Y rest) o) condition) (sym found),
      )
    where
      nothing : (n : Text) → selection_at L Y n entry.1 (Y.as_str entry.0) ≡ none
      nothing n = rw (k, is_condition) refl

      found : condition_at L Y entry.1 (Y.as_str entry.0) ≡ some str
      found = rw (k, is_condition) c

  selection-Reads :
      (entry : Y.Value × Y.Value) (rest : List (Y.Value × Y.Value))
      (held selections : List (Text × Selection L)) (condition last : Option Text) (key : Text)
      (s : Selection L)
      → Y.as_str entry.0 ≡ some key
      → text_eq key (codes "condition") ≡ false
      → compile_selection L Y entry.1 ≡ some s
      → Reads rest (put_selection key s held) condition selections last
      → Reads (entry ∷ rest) held condition selections last
  selection-Reads entry rest held selections condition last key s k other c (names, ends) = (
    λ n.
        names n
        ∙ ap (or_else (last_selection L Y n rest))
            (put-selection_at n key s held ∙ ap (λ o. or_else o (get n held)) (sym (found n)))
        ∙ or_else_assoc (last_selection L Y n rest) _ (get n held),
    ends
        ∙ ap (λ o. or_else o condition) (right_none (last_condition L Y rest))
        ∙ ap (λ o. or_else (or_else (last_condition L Y rest) o) condition) (sym nothing),
  )
    where
      found :
          (n : Text)
          → selection_at L Y n entry.1 (Y.as_str entry.0) ≡ (if text_eq key n then some s else none)
      found n = rw (k, other, c) refl

      nothing : condition_at L Y entry.1 (Y.as_str entry.0) ≡ none
      nothing = rw (k, other) refl

  pub read_detection-Reads :
      (entries : List (Y.Value × Y.Value)) (held selections : List (Text × Selection L))
      (condition last : Option Text)
      → read_detection L Y entries held condition ≡ some (selections, last)
      → Reads entries held condition selections last
  unfolding read_detection
  read_detection-Reads [] held selections condition last h =
      let same : held ≡ selections = cc in
      let ends : condition ≡ last = cc in (λ n. ap (get n) (sym same), sym ends)
  read_detection-Reads (entry ∷ rest) held selections condition last h =
      let (key, k, h1) = >>=-eq-some (Y.as_str entry.0) _ h in
      elim (Bool-cases (text_eq key (codes "condition"))) [
        | inl is_condition ↦
            let (str, c, h2) =
              >>=-eq-some (condition_to_string Y entry.1) _ (branch_true _ is_condition h1) in
            condition-Reads entry rest held selections condition last key str k is_condition c
              (read_detection-Reads rest held selections (some str) last h2)
        | inr other ↦
            let (s, c, h2) =
              >>=-eq-some (compile_selection L Y entry.1) _ (branch_false _ other h1) in
            selection-Reads entry rest held selections condition last key s k other c
              (read_detection-Reads rest (put_selection key s held) selections condition last h2)
      ]

-- ===== src/Event/Fields.antt =====
-- `resolve_field` of crates/sigil-sigma/src/matcher.rs: what a rule's field name finds on an event.
use sigil_siem.Prelude.{
  Bool, Option, none, some, List, [], ◌∷◌, ap, ◌≡◌, ◌∙◌, sym, map, any, filter, String,
  if◌then◌else◌,
}
use sigil_siem.Prelude.Texts.{Text, text_eq, codes, ascii_lower}
use sigil_siem.Event.Model.{Json, EntityRef, Event, value_to_string, get}

unfoldable pub push_nonempty : Text → List Text
push_nonempty [] = []
push_nonempty (c ∷ s) = (c ∷ s) ∷ []

unfoldable pub eq_ignore_ascii_case : Text → Text → Bool
eq_ignore_ascii_case a b = text_eq (map ascii_lower a) (map ascii_lower b)

abbrev pub id_of : Option EntityRef → List Text
id_of none = []
id_of (some e) = push_nonempty e.id

abbrev pub id_of_kind : String → Option EntityRef → List Text
id_of_kind kind none = []
id_of_kind kind (some e) = if text_eq e.kind (codes kind) then push_nonempty e.id else []

unfoldable pub is_any : Text → List String → Bool
is_any s names = any (λ n. text_eq s (codes n)) names

-- The aliases, of a name in lower case.
unfoldable pub alias_hits : {J : Json} → Event J → Text → List Text
unfolding is_any push_nonempty
alias_hits ev name =
    if is_any name ("message" ∷ "msg" ∷ [])
    then push_nonempty ev.message
    else if is_any name
        ("user" ∷ "username" ∷ "user.name" ∷ "targetusername" ∷ "subjectusername" ∷ [])
    then id_of_kind "user" ev.actor
    else if is_any name ("host" ∷ "hostname" ∷ "computer" ∷ "computername" ∷ "host.name" ∷ [])
    then id_of ev.host
    else if is_any name ("image" ∷ "process" ∷ "process.name" ∷ "processname" ∷ [])
    then id_of_kind "process" ev.actor
    else if is_any name ("actor" ∷ "actor.name" ∷ [])
    then id_of ev.actor
    else if is_any name ("target" ∷ "target.name" ∷ "targetobject" ∷ [])
    then id_of ev.target
    else if is_any name ("commandline" ∷ "command_line" ∷ "cmd" ∷ [])
    then push_nonempty ev.message
    else []

-- The values under the keys that differ from the name in case at most.
unfoldable pub case_hits : {J : Json} → Event J → Text → List Text
unfolding eq_ignore_ascii_case
case_hits {J} ev name =
    map (λ entry. value_to_string J entry.1)
      (filter (λ entry. eq_ignore_ascii_case entry.0 name) ev.fields)

abbrev pub or_else : List Text → List Text → List Text
or_else [] later = later
or_else (hit ∷ hits) later = hit ∷ hits

-- An exact hit stands alone.
abbrev pub exact_or : (J : Json) → Option J.Value → List Text → List Text
exact_or J none later = later
exact_or J (some v) later = value_to_string J v ∷ []

unfoldable pub resolve_field : {J : Json} → Event J → Text → List Text
unfolding case_hits alias_hits
resolve_field {J} ev name =
    exact_or J (get name ev.fields)
      (or_else (case_hits ev name) (alias_hits ev (map ascii_lower name)))

-- A field name that no field has exactly finds the same values in upper and lower case.
pub resolve_field_case :
    {J : Json} (ev : Event J) (a b : Text)
    → get a ev.fields ≡ none
    → get b ev.fields ≡ none
    → map ascii_lower a ≡ map ascii_lower b
    → resolve_field ev a ≡ resolve_field ev b
unfolding resolve_field case_hits eq_ignore_ascii_case
resolve_field_case {J} ev a b ha hb e =
    let found : Text → List Text = λ l.
      or_else
        (map (λ entry. value_to_string J entry.1)
          (filter (λ entry. text_eq (map ascii_lower entry.0) l) ev.fields))
        (alias_hits ev l) in
    ap (λ exact. exact_or J exact (found (map ascii_lower a))) ha
    ∙ ap found e
    ∙ ap (λ exact. exact_or J exact (found (map ascii_lower b))) (sym hb)

-- ===== src/Roles/Resolved.antt =====
-- Which roles crates/sigil-cluster/src/role.rs gives a node, and which targets it reports.
use sigil_siem.Prelude.{
  ◌≡◌, refl, sym, ◌∙◌, ap, Bool, true, false, ◌||◌, Option, none, some, List, [], ◌∷◌, ◌++◌,
  append-nil, append_assoc, any, filter, if◌then◌else◌, arith, Bool-cases, filter-cons, filter-skip,
  inl, inr,
}
use sigil_siem.Prelude.Texts.{Text}
use sigil_siem.Roles.Targets.{
  Role, RoleSet, ingest, index, correlate, query, coordinator, all_roles, role_eq, parse_role, runs,
  read_targets, is_all, no_targets, from_targets, add_target,
}

-- The target names the role.
abbrev pub names : Option Role → Role → Bool
names none role = false
names (some r) role = role_eq role r

abbrev pub is_unknown : Option Role → Bool
is_unknown none = true
is_unknown (some r) = false

any-push :
    (role r : Role) (roles : List Role)
    → any (role_eq role) (roles ++ r ∷ []) ≡ (any (role_eq role) roles || role_eq role r)
any-push role r [] = ground arith
any-push role r (q ∷ roles) = ground (arith, any-push role r roles)

-- A role equal to one that is present is present.
any-same :
    (role r : Role) (roles : List Role)
    → any (role_eq r) roles ≡ true
    → role_eq role r ≡ true
    → any (role_eq role) roles ≡ true
any-same role r [] h e = cc
any-same role r (q ∷ roles) h e = ground (arith, any-same role r roles)

present_step :
    (role r : Role) (roles : List Role) (later : Bool)
    → any (role_eq r) roles ≡ true
    → (any (role_eq role) roles || later) ≡ (any (role_eq role) roles || (role_eq role r || later))
present_step role r roles later h = ground (arith, any-same role r roles h)

push_step :
    (role r : Role) (roles : List Role) (later : Bool)
    → (any (role_eq role) (roles ++ r ∷ []) || later)
      ≡ (any (role_eq role) roles || (role_eq role r || later))
push_step role r roles later = ground (arith, any-push role r roles)

or-false : (b : Bool) → b ≡ (b || false)
or-false true = refl
or-false false = refl

abbrev pub requested : Role → List Text → Bool
requested role ts = any (λ t. names (parse_role t) role) ts

add_roles :
    (role : Role) (o : Option Role) (t : Text) (roles : List Role) (unknown : List Text)
    (later : Bool)
    → (any (role_eq role) (add_target o t roles unknown).0 || later)
      ≡ (any (role_eq role) roles || (names o role || later))
add_roles role none t roles unknown later = refl
add_roles role (some r) t roles unknown later = elim (Bool-cases (any (role_eq r) roles)) [
  | inl present ↦ rw present (present_step role r roles later present)
  | inr absent ↦ rw absent (push_step role r roles later)
]

read_roles :
    (role : Role) (ts : List Text) (roles : List Role) (unknown : List Text)
    → any (role_eq role) (read_targets ts roles unknown).0
      ≡ (any (role_eq role) roles || requested role ts)
unfolding read_targets
read_roles role [] roles unknown = or-false (any (role_eq role) roles)
read_roles role (t ∷ ts) roles unknown =
    let added = add_target (parse_role t) t roles unknown in
    read_roles role ts added.0 added.1
    ∙ add_roles role (parse_role t) t roles unknown (requested role ts)

abbrev pub unknown_in : List Text → List Text
unknown_in ts = filter (λ t. is_unknown (parse_role t)) ts

add_unknown :
    (o : Option Role) (t : Text) (ts : List Text) (roles : List Role) (unknown : List Text)
    → parse_role t ≡ o
    → (add_target o t roles unknown).1 ++ unknown_in ts ≡ unknown ++ unknown_in (t ∷ ts)
add_unknown none t ts roles unknown e =
    append_assoc unknown (t ∷ []) (unknown_in ts)
    ∙ ap (λ rest. unknown ++ rest)
        (sym (filter-cons (λ u. is_unknown (parse_role u)) t ts (ap is_unknown e)))
add_unknown (some r) t ts roles unknown e =
    let kept : unknown ++ unknown_in ts ≡ unknown ++ unknown_in (t ∷ ts) =
      ap (λ rest. unknown ++ rest)
        (sym (filter-skip (λ u. is_unknown (parse_role u)) t ts (ap is_unknown e))) in
    elim (Bool-cases (any (role_eq r) roles)) [
      | inl present ↦ rw present kept
      | inr absent ↦ rw absent kept
    ]

read_unknown :
    (ts : List Text) (roles : List Role) (unknown : List Text)
    → (read_targets ts roles unknown).1 ≡ unknown ++ unknown_in ts
unfolding read_targets
read_unknown [] roles unknown = sym (append-nil unknown)
read_unknown (t ∷ ts) roles unknown =
    let added = add_target (parse_role t) t roles unknown in
    read_unknown ts added.0 added.1 ∙ add_unknown (parse_role t) t ts roles unknown refl

every_role : (role : Role) → any (role_eq role) all_roles ≡ true
every_role ingest = refl
every_role index = refl
every_role correlate = refl
every_role query = refl
every_role coordinator = refl

-- With no targets, or one of them `all`, a node runs every role and reports no target. Otherwise it
-- runs a role exactly if a target names it, and reports the targets that name none, in order.
abbrev pub IsResolved : List Text → RoleSet × List Text → Type 0
IsResolved targets (set, unknown) =
    let every = no_targets targets || any is_all targets in
    ((role : Role) → runs set role ≡ (every || requested role targets))
    × (unknown ≡ (if every then [] else unknown_in targets))

-- The roles and the unknown targets of a list of targets are what `IsResolved` says.
pub from_targets-IsResolved : (targets : List Text) → IsResolved targets (from_targets targets)
unfolding from_targets runs
from_targets-IsResolved targets = elim (Bool-cases (no_targets targets || any is_all targets)) [
  | inl every ↦ rw every (every_role, refl)
  | inr some_only ↦ rw some_only (λ role. read_roles role targets [] [], read_unknown targets [] [])
]

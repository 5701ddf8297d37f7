-- ===== src/Roles/Targets.antt =====
-- `Role` and `RoleSet` of crates/sigil-cluster/src/role.rs.
use sigil_siem.Prelude.{
  ℕ, Bool, true, false, ◌||◌, Option, none, some, List, [], ◌∷◌, ◌++◌, map, any, length, ◌==◌,
  if◌then◌else◌,
}
use sigil_siem.Prelude.Texts.{Text, text_eq, codes, ascii_lower}
use sigil_siem.Correlation.Timespan.{trim}
use sigil_siem.Event.Fields.{eq_ignore_ascii_case}

pub data Role : Type 0 where
  ingest : Role
  index : Role
  correlate : Role
  query : Role
  coordinator : Role

-- `Role::ALL`
abbrev pub all_roles : List Role
all_roles = ingest ∷ index ∷ correlate ∷ query ∷ coordinator ∷ []

abbrev pub rank : Role → ℕ
rank ingest = 0
rank index = 1
rank correlate = 2
rank query = 3
rank coordinator = 4

-- The derived equality.
abbrev pub role_eq : Role → Role → Bool
role_eq r s = rank r == rank s

abbrev pub role_named : Text → Option Role
role_named s =
    if text_eq s (codes "ingest")
    then some ingest
    else if text_eq s (codes "index")
    then some index
    else if text_eq s (codes "correlate") || text_eq s (codes "correlation")
    then some correlate
    else if text_eq s (codes "query")
    then some query
    else if text_eq s (codes "coordinator")
    then some coordinator
    else none

unfoldable pub parse_role : Text → Option Role
unfolding trim ascii_lower
parse_role s = role_named (map ascii_lower (trim s))

unfoldable pub role_str : Role → Text
role_str ingest = codes "ingest"
role_str index = codes "index"
role_str correlate = codes "correlate"
role_str query = codes "query"
role_str coordinator = codes "coordinator"

-- `RoleSet`, by its vector of roles.
pub record RoleSet : Type 0 where
  pub roles : List Role

unfoldable pub runs : RoleSet → Role → Bool
runs set role = any (role_eq role) set.roles

unfoldable pub is_monolith : RoleSet → Bool
is_monolith set = length set.roles == length all_roles

-- The loop's body: the roles and the unknown targets so far take in a target.
abbrev pub add_target : Option Role → Text → List Role → List Text → List Role × List Text
add_target none t roles unknown = (roles, unknown ++ t ∷ [])
add_target (some r) t roles unknown =
    if any (role_eq r) roles then (roles, unknown) else (roles ++ r ∷ [], unknown)

unfoldable pub read_targets : List Text → List Role → List Text → List Role × List Text
read_targets [] roles unknown = (roles, unknown)
read_targets (t ∷ ts) roles unknown =
    let added = add_target (parse_role t) t roles unknown in read_targets ts added.0 added.1

abbrev pub is_all : Text → Bool
is_all t = eq_ignore_ascii_case t (codes "all")

abbrev pub no_targets : List Text → Bool
no_targets [] = true
no_targets (t ∷ ts) = false

unfoldable pub from_targets : List Text → RoleSet × List Text
unfolding read_targets eq_ignore_ascii_case
from_targets targets =
    let (roles, unknown) = read_targets targets [] [] in
    if no_targets targets || any is_all targets
    then (record { roles = all_roles }, [])
    else (record { roles = roles }, unknown)

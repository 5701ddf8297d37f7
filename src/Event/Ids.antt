-- ===== src/Event/Ids.antt =====
-- The numbers of classes and severities in crates/sigil-core/src/event.rs, there and back.
use sigil_siem.Prelude.{ℕ, ◌≡◌, ◌≢◌, refl, List, [], ◌∷◌, min, All, arith}
use sigil_siem.Event.Kinds.{OcsfClass, uid, from_uid, Severity, id, from_id, other}

-- The numbers of the classes that have a name.
abbrev pub named : List ℕ
named = 1001 ∷ 1007 ∷ 3002 ∷ 4001 ∷ 4002 ∷ 6003 ∷ 4003 ∷ 1005 ∷ 1006 ∷ 201002 ∷ []

-- A class with a name is not written as its number.
abbrev pub IsNormal : OcsfClass → Type 0
IsNormal (other n) = All (λ k. n ≢ k) named
IsNormal c = Unit

-- Every number is the number of the class that it stands for.
pub uid-from_uid : (n : ℕ) → uid (from_uid n) ≡ n
unfolding uid from_uid
uid-from_uid n = ground arith

-- A class is found again from its number, if it is not the number of a named class in disguise.
pub from_uid-uid : (c : OcsfClass) → IsNormal c → from_uid (uid c) ≡ c
unfolding uid from_uid
from_uid-uid (other n) h = ground arith
from_uid-uid OcsfClass.file_system_activity h = refl
from_uid-uid OcsfClass.process_activity h = refl
from_uid-uid OcsfClass.authentication h = refl
from_uid-uid OcsfClass.network_activity h = refl
from_uid-uid OcsfClass.http_activity h = refl
from_uid-uid OcsfClass.api_activity h = refl
from_uid-uid OcsfClass.dns_activity h = refl
from_uid-uid OcsfClass.module_activity h = refl
from_uid-uid OcsfClass.scheduled_job_activity h = refl
from_uid-uid OcsfClass.registry_key_activity h = refl

from_id-id : (s : Severity) → from_id (id s) ≡ s
unfolding id from_id
from_id-id Severity.unknown = refl
from_id-id Severity.informational = refl
from_id-id Severity.low = refl
from_id-id Severity.medium = refl
from_id-id Severity.high = refl
from_id-id Severity.critical = refl
from_id-id Severity.fatal = refl

-- A severity is found again from its number, and a number past the last is the worst severity's.
pub severity_ids : ((s : Severity) → from_id (id s) ≡ s) × ((n : ℕ) → id (from_id n) ≡ min n 6)
unfolding id from_id
severity_ids = (from_id-id, λ n. ground arith)

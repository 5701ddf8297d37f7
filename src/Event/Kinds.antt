-- ===== src/Event/Kinds.antt =====
-- `OcsfClass` and `Severity` of crates/sigil-core/src/event.rs with their numbers.
use sigil_siem.Prelude.{ℕ, ◌==◌, if◌then◌else◌}

pub data OcsfClass : Type 0 where
  file_system_activity : OcsfClass
  process_activity : OcsfClass
  authentication : OcsfClass
  network_activity : OcsfClass
  http_activity : OcsfClass
  api_activity : OcsfClass
  dns_activity : OcsfClass
  module_activity : OcsfClass
  scheduled_job_activity : OcsfClass
  registry_key_activity : OcsfClass
  other : ℕ → OcsfClass

-- `OcsfClass::default`
abbrev pub default_class : OcsfClass
default_class = other 1008

unfoldable pub uid : OcsfClass → ℕ
uid file_system_activity = 1001
uid process_activity = 1007
uid authentication = 3002
uid network_activity = 4001
uid http_activity = 4002
uid api_activity = 6003
uid dns_activity = 4003
uid module_activity = 1005
uid scheduled_job_activity = 1006
uid registry_key_activity = 201002
uid (other n) = n

unfoldable pub from_uid : ℕ → OcsfClass
from_uid n =
    if n == 1001
    then file_system_activity
    else if n == 1007
    then process_activity
    else if n == 3002
    then authentication
    else if n == 4001
    then network_activity
    else if n == 4002
    then http_activity
    else if n == 6003
    then api_activity
    else if n == 4003
    then dns_activity
    else if n == 1005
    then module_activity
    else if n == 1006
    then scheduled_job_activity
    else if n == 201002
    then registry_key_activity
    else other n

pub data Severity : Type 0 where
  unknown : Severity
  informational : Severity
  low : Severity
  medium : Severity
  high : Severity
  critical : Severity
  fatal : Severity

unfoldable pub id : Severity → ℕ
id unknown = 0
id informational = 1
id low = 2
id medium = 3
id high = 4
id critical = 5
id fatal = 6

unfoldable pub from_id : ℕ → Severity
from_id n =
    if n == 0
    then unknown
    else if n == 1
    then informational
    else if n == 2
    then low
    else if n == 3
    then medium
    else if n == 4
    then high
    else if n == 5
    then critical
    else fatal

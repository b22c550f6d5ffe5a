-- ===== src/Core/Ports.antt =====
-- Host ports of workloads: packages/core/src/network/ports.ts.
-- A JavaScript number is a natural number or `other`: negative, fractional, infinite or NaN.
-- A set of ports is the list of its members. A seed is the list of the codes that `charCodeAt(0)`
-- gives for its characters.
pub mod Choice
use devion.Prelude.{
  ℕ, zero, suc, ◌+◌, ◌*◌, ◌-◌, ◌%◌, String, Bool, ◌||◌, Option, none, some, List, [], ◌∷◌, ltb, has,
  if◌then◌else◌,
}

pub data Number : Type 0 where
  nat : ℕ → Number
  other : Number

abbrev pub dynamic_host_port_min : ℕ
dynamic_host_port_min = 30000

abbrev pub dynamic_host_port_max : ℕ
dynamic_host_port_max = 39999

abbrev pub reserved_host_ports : List ℕ
reserved_host_ports = 22 ∷ 80 ∷ 443 ∷ 3000 ∷ 3001 ∷ 5432 ∷ []

pub data PortProtocol : Type 0 where
  tcp udp : PortProtocol

pub data PortError : Type 0 where
  invalid_port privileged_port_forbidden reserved_port : PortError

unfoldable pub host_port_policy_error : Number → Option PortError
host_port_policy_error other = some invalid_port
host_port_policy_error (nat port) =
    if ltb port 1 || ltb 65535 port
    then some invalid_port
    else if ltb port 1024
    then some privileged_port_forbidden
    else if has reserved_host_ports port
    then some reserved_port
    else none

-- `DYNAMIC_HOST_PORT_MAX - DYNAMIC_HOST_PORT_MIN + 1`.
abbrev pub size : ℕ
size = dynamic_host_port_max - dynamic_host_port_min + 1

-- The loop that hashes the seed.
unfoldable pub seed_offset : ℕ → List ℕ → ℕ
seed_offset offset [] = offset
seed_offset offset (c ∷ seed) = seed_offset ((offset * 31 + c) % size) seed

abbrev pub port_at : ℕ → ℕ → ℕ
port_at offset attempt = dynamic_host_port_min + (offset + attempt) % size

-- The second loop, with the rounds that are left and the attempt's number.
unfoldable pub probe : List ℕ → ℕ → ℕ → ℕ → Option ℕ
probe occupied offset zero attempt = none
probe occupied offset (suc left) attempt =
    let rest = probe occupied offset left (suc attempt) in
    let port = port_at offset attempt in
    if has occupied port || has reserved_host_ports port then rest else some port

unfoldable pub choose_dynamic_host_port : List ℕ → List ℕ → Option ℕ
choose_dynamic_host_port occupied seed = probe occupied (seed_offset 0 seed) size 0

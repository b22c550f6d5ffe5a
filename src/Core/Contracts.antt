-- ===== src/Core/Contracts.antt =====
-- Public contracts of the control plane and the node agents
-- (packages/core/src/control-plane/contracts.ts).
use devion.Prelude.{ℕ, String, Bool, Option, List}
use devion.Core.Ports.{PortProtocol}

pub data NodeStatus : Type 0 where
  provisioning ready draining offline unhealthy decommissioned : NodeStatus

pub data RuntimeKind : Type 0 where
  container microvm : RuntimeKind

-- In whole numbers; a heartbeat may also give fractions, which are left out.
pub record ResourceQuantity : Type 0 where
  pub capacity : ℕ
  pub allocatable : ℕ
  pub reserved : ℕ
  pub usage : ℕ

pub record NodeResources : Type 0 where
  pub cpu_milli : ResourceQuantity
  pub memory_mib : ResourceQuantity
  pub storage_mib : ResourceQuantity

-- A port and its protocol: the members of `reservedHostPorts`, there the strings "port/protocol".
pub record HostPort : Type 0 where
  pub host_port : ℕ
  pub protocol : PortProtocol

pub record NodeSnapshot : Type 0 where
  pub id : String
  pub status : NodeStatus
  pub scheduling_enabled : Bool
  pub architecture : String
  pub region : Option String
  pub labels : List (String × String)
  pub runtimes : List RuntimeKind
  pub resources : NodeResources
  pub reserved_host_ports : Option (List HostPort)

pub record WorkloadRequirements : Type 0 where
  pub cpu_milli : ℕ
  pub memory_mib : ℕ
  pub storage_mib : ℕ
  pub runtime : RuntimeKind
  pub architecture : Option String
  pub region : Option String
  pub required_labels : Option (List (String × String))
  pub required_node_id : Option String
  pub requested_host_ports : Option (List HostPort)

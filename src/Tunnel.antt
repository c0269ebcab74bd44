-- ===== src/Tunnel.antt =====
-- crates/nux-core/src/tunnel/mod.rs: the services that a Guard exposes, and who may reach them.
pub mod Access
pub mod Header
pub mod Serve
pub mod Silence
pub mod Client
pub mod Forward
mod Tests
use nux_auth.Prelude.{
  ℕ, Bool, true, false, List, [], ◌∷◌, Option, none, some, length, bytes_eq, if◌then◌else◌,
}
use nux_auth.Prelude.Assoc.{lookup, insert}
use nux_auth.Net.{Net}
use nux_auth.Whitelist.{Roles, same_bytes}

abbrev pub default_max_streams_per_peer : ℕ
default_max_streams_per_peer = 64

abbrev pub default_max_streams_total : ℕ
default_max_streams_total = 1024

pub record ExposedService (Addr : Type 0) : Type 0 where
  pub target : Addr
  pub required_role : Option (List ℕ)

pub record TunnelRegistry (Peer Addr : Type 0) : Type 0 where
  pub services : List (List ℕ × ExposedService Addr)
  pub max_streams_per_peer : ℕ
  pub max_streams_total : ℕ
  pub attested_binaries : List (Peer × List ℕ)

unfoldable pub new : {Peer Addr : Type 0} → TunnelRegistry Peer Addr
new = record {
  services = [];
  max_streams_per_peer = default_max_streams_per_peer;
  max_streams_total = default_max_streams_total;
  attested_binaries = [];
}

module _ {Peer Addr : Type 0} where
  unfoldable pub max_concurrent_streams :
      ℕ → ℕ → TunnelRegistry Peer Addr → TunnelRegistry Peer Addr
  max_concurrent_streams per_peer total r = record r {
    max_streams_per_peer = per_peer;
    max_streams_total = total;
  }

  unfoldable pub expose :
      List ℕ → Addr → Option (List ℕ) → TunnelRegistry Peer Addr → TunnelRegistry Peer Addr
  expose name target required_role r = record r {
    services =
        insert bytes_eq name (record { target = target; required_role = required_role }) r.services;
  }

  unfoldable pub len : TunnelRegistry Peer Addr → ℕ
  len r = length r.services

  unfoldable pub get : TunnelRegistry Peer Addr → List ℕ → Option (ExposedService Addr)
  get r name = lookup bytes_eq name r.services

module _ {Peer Key Addr : Type 0} (net : Net Peer Key) where
  unfoldable pub require_binary_sha256 :
      Peer → List ℕ → TunnelRegistry Peer Addr → TunnelRegistry Peer Addr
  require_binary_sha256 peer sha256 r = record r {
    attested_binaries = insert net.peer peer sha256 r.attested_binaries;
  }

  unfoldable pub expected_binary_sha256 : TunnelRegistry Peer Addr → Peer → Option (List ℕ)
  expected_binary_sha256 r peer = lookup net.peer peer r.attested_binaries

module _ {Peer Key : Type 0} (net : Net Peer Key) where
  -- The loop of `role_granted`: every role is compared, no early exit.
  unfoldable pub role_loop : Roles → List ℕ → Bool → Bool
  role_loop [] required authorized = authorized
  role_loop (role ∷ granted) required authorized =
      role_loop granted required (if same_bytes net role required then true else authorized)

  unfoldable pub role_granted : Roles → Option (List ℕ) → Bool
  role_granted granted none = true
  role_granted granted (some required) = role_loop granted required false

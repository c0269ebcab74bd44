-- ===== src/Metrics.antt =====
-- crates/nux-core/src/metrics.rs: the counters of a Guard. `fetch_add` and `fetch_sub` on an
-- `AtomicU64` wrap; every one is a single atomic step.
pub mod Counts
mod Tests
use nux_auth.Prelude.{ℕ, ◌+◌, ◌-◌, ◌%◌, ◌^◌}

abbrev pub u64_mod : ℕ
u64_mod = 2 ^ 64

abbrev pub fetch_add : ℕ → ℕ → ℕ
fetch_add n k = (n + k) % u64_mod

abbrev pub fetch_sub : ℕ → ℕ → ℕ
fetch_sub n k = (n + u64_mod - k) % u64_mod

-- crates/nux-core/src/tunnel/mod.rs, `TunnelOutcome`.
pub data TunnelOutcome : Type 0 where
  denied : TunnelOutcome
  served : ℕ → ℕ → TunnelOutcome

pub record Metrics : Type 0 where
  pub auth_granted : ℕ
  pub auth_denied : ℕ
  pub tunnels_opened : ℕ
  pub tunnels_denied : ℕ
  pub tunnels_active : ℕ
  pub bytes_from_peer : ℕ
  pub bytes_to_peer : ℕ

abbrev pub default : Metrics
default = record {
  auth_granted = 0;
  auth_denied = 0;
  tunnels_opened = 0;
  tunnels_denied = 0;
  tunnels_active = 0;
  bytes_from_peer = 0;
  bytes_to_peer = 0;
}

unfoldable pub record_auth_granted : Metrics → Metrics
record_auth_granted m = record m { auth_granted = fetch_add m.auth_granted 1 }

unfoldable pub record_auth_denied : Metrics → Metrics
record_auth_denied m = record m { auth_denied = fetch_add m.auth_denied 1 }

unfoldable pub record_tunnel_denied : Metrics → Metrics
record_tunnel_denied m = record m { tunnels_denied = fetch_add m.tunnels_denied 1 }

unfoldable pub record_tunnel_started : Metrics → Metrics
record_tunnel_started m = record m { tunnels_active = fetch_add m.tunnels_active 1 }

unfoldable pub record_tunnel_finished : Metrics → TunnelOutcome → Metrics
record_tunnel_finished m (served from_peer to_peer) = record m {
  tunnels_active = fetch_sub m.tunnels_active 1;
  tunnels_opened = fetch_add m.tunnels_opened 1;
  bytes_from_peer = fetch_add m.bytes_from_peer from_peer;
  bytes_to_peer = fetch_add m.bytes_to_peer to_peer;
}
record_tunnel_finished m denied = record m {
  tunnels_active = fetch_sub m.tunnels_active 1;
  tunnels_denied = fetch_add m.tunnels_denied 1;
}

-- ===== src/Metrics/Counts.antt =====
-- The counters after any sequence of recorded events, wrapped as they are.
use nux_auth.Prelude.{ℕ, ◌+◌, ◌%◌, ◌≤◌, ◌<◌, ◌≡◌, List, [], ◌∷◌, arith}
use nux_auth.Metrics.{
  Metrics, TunnelOutcome, denied, served, u64_mod, record_auth_granted, record_auth_denied,
  record_tunnel_denied, record_tunnel_started, record_tunnel_finished, default,
}

pub data Event : Type 0 where
  auth_granted auth_denied tunnel_denied tunnel_started : Event
  tunnel_finished : TunnelOutcome → Event

pub apply : Metrics → Event → Metrics
apply m auth_granted = record_auth_granted m
apply m auth_denied = record_auth_denied m
apply m tunnel_denied = record_tunnel_denied m
apply m tunnel_started = record_tunnel_started m
apply m (tunnel_finished o) = record_tunnel_finished m o

pub replay : Metrics → List Event → Metrics
replay m [] = m
replay m (e ∷ es) = replay (apply m e) es

-- What an event adds to a count that does not wrap.
abbrev pub started : Event → ℕ
started tunnel_started = 1
started _ = 0

abbrev pub finished : Event → ℕ
finished (tunnel_finished o) = 1
finished _ = 0

abbrev pub opened : Event → ℕ
opened (tunnel_finished (served a b)) = 1
opened _ = 0

abbrev pub refused : Event → ℕ
refused tunnel_denied = 1
refused (tunnel_finished denied) = 1
refused _ = 0

abbrev pub relayed : Event → ℕ
relayed (tunnel_finished (served a b)) = a + b
relayed _ = 0

abbrev pub total : (Event → ℕ) → List Event → ℕ
total f [] = 0
total f (e ∷ es) = f e + total f es

apply_active :
    (m : Metrics) (e : Event)
    → ((apply m e).tunnels_active + finished e) % u64_mod ≡ (m.tunnels_active + started e) % u64_mod
unfolding apply record_auth_granted record_auth_denied record_tunnel_denied record_tunnel_started
    record_tunnel_finished
apply_active m auth_granted = omega arith
apply_active m auth_denied = omega arith
apply_active m tunnel_denied = omega arith
apply_active m tunnel_started = omega arith
apply_active m (tunnel_finished denied) = omega arith
apply_active m (tunnel_finished (served a b)) = omega arith

apply_closed :
    (m : Metrics) (e : Event)
    → ((apply m e).tunnels_opened % u64_mod ≡ (m.tunnels_opened + opened e) % u64_mod)
      × ((apply m e).tunnels_denied % u64_mod ≡ (m.tunnels_denied + refused e) % u64_mod)
      × (((apply m e).bytes_from_peer + (apply m e).bytes_to_peer) % u64_mod
          ≡ (m.bytes_from_peer + m.bytes_to_peer + relayed e) % u64_mod)
unfolding apply record_auth_granted record_auth_denied record_tunnel_denied record_tunnel_started
    record_tunnel_finished
apply_closed m auth_granted = omega arith
apply_closed m auth_denied = omega arith
apply_closed m tunnel_denied = omega arith
apply_closed m tunnel_started = omega arith
apply_closed m (tunnel_finished denied) = omega arith
apply_closed m (tunnel_finished (served a b)) = omega arith

replay_active :
    (m : Metrics) (es : List Event)
    → ((replay m es).tunnels_active + total finished es) % u64_mod
      ≡ (m.tunnels_active + total started es) % u64_mod
unfolding replay
replay_active m [] = omega arith
replay_active m (e ∷ es) = omega (arith, apply_active m e, replay_active (apply m e) es)

replay_closed :
    (m : Metrics) (es : List Event)
    → ((replay m es).tunnels_opened % u64_mod ≡ (m.tunnels_opened + total opened es) % u64_mod)
      × ((replay m es).tunnels_denied % u64_mod ≡ (m.tunnels_denied + total refused es) % u64_mod)
      × (((replay m es).bytes_from_peer + (replay m es).bytes_to_peer) % u64_mod
          ≡ (m.bytes_from_peer + m.bytes_to_peer + total relayed es) % u64_mod)
unfolding replay
replay_closed m [] = omega arith
replay_closed m (e ∷ es) =
    let (o, d, b) = replay_closed (apply m e) es in
    let (o', d', b') = apply_closed m e in
    (omega (arith, o, o'), omega (arith, d, d'), omega (arith, b, b'))

apply_bounded :
    (m : Metrics) (e : Event)
    → m.tunnels_active < u64_mod
    → m.tunnels_opened < u64_mod
    → m.tunnels_denied < u64_mod
    → ((apply m e).tunnels_active < u64_mod)
      × ((apply m e).tunnels_opened < u64_mod)
      × ((apply m e).tunnels_denied < u64_mod)
unfolding apply record_auth_granted record_auth_denied record_tunnel_denied record_tunnel_started
    record_tunnel_finished
apply_bounded m auth_granted a o d = omega arith
apply_bounded m auth_denied a o d = omega arith
apply_bounded m tunnel_denied a o d = omega arith
apply_bounded m tunnel_started a o d = omega arith
apply_bounded m (tunnel_finished denied) a o d = omega arith
apply_bounded m (tunnel_finished (served x y)) a o d = omega arith

replay_bounded :
    (m : Metrics) (es : List Event)
    → m.tunnels_active < u64_mod
    → m.tunnels_opened < u64_mod
    → m.tunnels_denied < u64_mod
    → ((replay m es).tunnels_active < u64_mod)
      × ((replay m es).tunnels_opened < u64_mod)
      × ((replay m es).tunnels_denied < u64_mod)
unfolding replay
replay_bounded m [] a o d = (a, o, d)
replay_bounded m (e ∷ es) a o d =
    let (a', o', d') = apply_bounded m e a o d in replay_bounded (apply m e) es a' o' d'

-- Fewer than 2^64 events leave the counters exact: where no more tunnels have finished than have
-- started, the gauge is the number of tunnels that have started and not finished, and the two
-- totals count the tunnels that were served and the streams that were refused.
pub replay_exact :
    (es : List Event)
    → total finished es ≤ total started es
    → total started es < u64_mod
    → total opened es < u64_mod
    → total refused es < u64_mod
    → ((replay default es).tunnels_active + total finished es ≡ total started es)
      × ((replay default es).tunnels_opened ≡ total opened es)
      × ((replay default es).tunnels_denied ≡ total refused es)
replay_exact es le s o r =
    let (a', o', r') = replay_bounded default es (omega arith) (omega arith) (omega arith) in
    let (oc, rc, _) = replay_closed default es in
    (omega (arith, replay_active default es), omega (arith, oc), omega (arith, rc))

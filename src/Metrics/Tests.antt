-- ===== src/Metrics/Tests.antt =====
-- The counters after a concrete sequence of events.
use nux_auth.Prelude.{◌+◌, ◌≡◌, List, [], ◌∷◌, arith}
use nux_auth.Metrics.{denied, served, default}
use nux_auth.Metrics.Counts.{
  Event, auth_granted, tunnel_denied, tunnel_started, tunnel_finished, replay, replay_exact,
}

abbrev events : List Event
events =
    auth_granted
    ∷ tunnel_started
    ∷ tunnel_started
    ∷ tunnel_denied
    ∷ tunnel_finished (served 10 20)
    ∷ tunnel_started
    ∷ tunnel_finished denied
    ∷ []

replay_exact_example :
    ((replay default events).tunnels_active + 2 ≡ 3)
    × ((replay default events).tunnels_opened ≡ 1)
    × ((replay default events).tunnels_denied ≡ 2)
replay_exact_example = replay_exact events (omega arith) (omega arith) (omega arith) (omega arith)

-- ===== src/Gateway/Routes/Budget.antt =====
-- What any sequence of requests through the two tunnels can change.
use nux_auth.Prelude.{
  ℕ, ◌+◌, ◌-◌, ◌^◌, ◌≡◌, ◌≤◌, ◌<◌, refl, ◌∙◌, arith, List, [], ◌∷◌, Option, none, some, length,
  count, All, Bool-cases, inl, inr, if◌then◌else◌,
}
use nux_auth.Gateway.Limiter.{admitted, admitted-inside}
use nux_auth.Gateway.Http.{
  Pattern, healthz, configs, node_state, device_code, device_status, public_pem, Verb, ActorKind,
  Request, Axum, pick,
}
use nux_auth.Gateway.Handlers.{World, Deps}
use nux_auth.Gateway.Routes.{guard_router, client_router}
use nux_auth.Gateway.Routes.Served.{guard_at, client_at, on_tunnel}
use nux_auth.Gateway.Routes.Serves.{guard_router-serve, client_router-serve}
use nux_auth.Gateway.Routes.Kept.{
  is_private, is_state, Kept, same-Kept, state_only-Mild, limited-Kept, config_read-Kept,
  counted-Kept, configs-Kept, device_code-Kept, device_status-Kept, public_key-Kept,
}

-- A request that arrives at a time, through the tunnel of the Guards or of the clients.
pub record Arrival (Header : Type 0) : Type 0 where
  pub tunnel : ActorKind
  pub now : ℕ
  pub request : Request Header

module _ {Peer Header : Type 0} (x : Axum (World Peer) Header) (d : Deps Peer Header) where
  abbrev pub router_of : ActorKind → x.Router
  router_of ActorKind.guard = guard_router x d
  router_of ActorKind.client = client_router x d

  unfoldable pub run : World Peer → List (Arrival Header) → World Peer
  run w [] = w
  run w (a ∷ arrivals) = run (x.serve (router_of a.tunnel) a.now w a.request).0 arrivals

  -- The times of the requests that ask for the state's route, through either tunnel.
  unfoldable pub state_times : List (Arrival Header) → List ℕ
  state_times [] = []
  state_times (a ∷ arrivals) =
      let rest = state_times arrivals in
      if is_state (x.matched a.request.path) then a.now ∷ rest else rest

  guards_tunnel-Kept :
      (m : Option Pattern) (v : Verb) (now : ℕ) (w : World Peer) (q : Request Header)
      → Kept x d w
          (is_state m)
          now
          (pick m (guard_at x d) (on_tunnel x d ActorKind.guard x.not_found) v now w q).0
  guards_tunnel-Kept none v now w q = same-Kept x d w _ now (x.not_found_still now w _)
  guards_tunnel-Kept (some configs) v now w q =
      configs-Kept x d _ now w _ (counted-Kept x d w _ _ now (config_read-Kept x d v now _ _))
  guards_tunnel-Kept (some node_state) v now w q =
      limited-Kept x d _ now w _ (state_only-Mild x d v now _ _)
  guards_tunnel-Kept (some healthz) v now w q = same-Kept x d w _ now (x.not_found_still now w _)
  guards_tunnel-Kept (some device_code) v now w q =
      same-Kept x d w _ now (x.not_found_still now w _)
  guards_tunnel-Kept (some device_status) v now w q =
      same-Kept x d w _ now (x.not_found_still now w _)
  guards_tunnel-Kept (some public_pem) v now w q = same-Kept x d w _ now (x.not_found_still now w _)

  clients_tunnel-Kept :
      (m : Option Pattern) (v : Verb) (now : ℕ) (w : World Peer) (q : Request Header)
      → Kept x d w
          (is_state m)
          now
          (pick m (client_at x d) (on_tunnel x d ActorKind.client x.not_found) v now w q).0
  clients_tunnel-Kept none v now w q = same-Kept x d w _ now (x.not_found_still now w _)
  clients_tunnel-Kept (some configs) v now w q = same-Kept x d w _ now (x.not_found_still now w _)
  clients_tunnel-Kept (some healthz) v now w q = same-Kept x d w _ now (x.not_found_still now w _)
  clients_tunnel-Kept (some node_state) v now w q =
      limited-Kept x d _ now w _ (state_only-Mild x d v now _ _)
  clients_tunnel-Kept (some device_code) v now w q = device_code-Kept x d v now w _
  clients_tunnel-Kept (some device_status) v now w q = device_status-Kept x d v now w _
  clients_tunnel-Kept (some public_pem) v now w q = public_key-Kept x d v now w _

  tunnel-Kept :
      (tunnel : ActorKind) (now : ℕ) (w : World Peer) (q : Request Header)
      → Kept x d w (is_state (x.matched q.path)) now (x.serve (router_of tunnel) now w q).0
  tunnel-Kept ActorKind.guard now w q =
      rw (guard_router-serve x d now w q) (guards_tunnel-Kept (x.matched q.path) q.verb now w q)
  tunnel-Kept ActorKind.client now w q =
      rw (client_router-serve x d now w q) (clients_tunnel-Kept (x.matched q.path) q.verb now w q)

  -- Requests through the tunnels never change a configuration and send no command to the Guard,
  -- whatever they are.
  pub run-config :
      (w : World Peer) (arrivals : List (Arrival Header))
      → ((run w arrivals).db ≡ w.db) × ((run w arrivals).sent ≡ w.sent)
  unfolding run
  run-config w [] = (refl, refl)
  run-config w (a ∷ arrivals) =
      let w' = (x.serve (router_of a.tunnel) a.now w a.request).0 in
      let k = tunnel-Kept a.tunnel a.now w a.request in
      let rest = run-config w' arrivals in (rest.0 ∙ k.db, rest.1 ∙ k.sent)

  run-private-le :
      (w : World Peer) (arrivals : List (Arrival Header))
      → count is_private (run w arrivals).relayed
        ≤ count is_private w.relayed + admitted w.node_state (state_times arrivals)
  unfolding run state_times admitted
  run-private-le w [] = omega arith
  run-private-le w (a ∷ arrivals) =
      let w' = (x.serve (router_of a.tunnel) a.now w a.request).0 in
      let k = tunnel-Kept a.tunnel a.now w a.request in
      let rest = run-private-le w' arrivals in
      elim (Bool-cases (is_state (x.matched a.request.path))) [
        | inl hit ↦ ground (arith, k.private, k.limiter, rest)
        | inr miss ↦ ground (arith, k.private, k.limiter, rest)
      ]

  -- Of any sequence of requests through the two tunnels together, all of whose requests for the
  -- state fall into the window of the shared limiter, at most what is left of the window's budget
  -- goes on to the dashboard with the gateway's token, where the limiter's counter does not wrap.
  pub run_in_window :
      (w : World Peer) (arrivals : List (Arrival Header))
      → All (λ t. t - w.node_state.window_start < w.node_state.window_secs) (state_times arrivals)
      → w.node_state.count + length (state_times arrivals) ≤ 2 ^ 32
      → count is_private (run w arrivals).relayed
        ≤ count is_private w.relayed + (w.node_state.max_per_window - w.node_state.count)
  run_in_window w arrivals inside few =
      let bound = run-private-le w arrivals in
      let exact = admitted-inside w.node_state (state_times arrivals) inside few in
      omega (arith, bound, exact)

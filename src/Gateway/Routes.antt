-- ===== src/Gateway/Routes.antt =====
-- nux_gateway/src/api/routes.rs: the three routers. Those of the tunnels share one limiter for the
-- state of nodes, which stands in the world, and the Guards' has one of its own for configurations.
pub mod Served
pub mod Serves
pub mod Safety
pub mod Kept
pub mod Budget
pub mod Sample
mod Tests
use nux_auth.Prelude.{ℕ, ◌*◌, some}
use nux_auth.Gateway.{Text}
use nux_auth.Gateway.Limiter.{WindowLimiter}
use nux_auth.Gateway.Limiter as Limiter
use nux_auth.Gateway.Http.{Pattern, Verb, ActorKind, Request, Handler, Axum}
use nux_auth.Gateway.Handlers.{
  World, Deps, handle_put_config, handle_get_config, handle_node_state, handle_device_code,
  handle_device_status, handle_public_key, handle_healthz, with_bearer, limit_node_state,
  limit_get_config,
}

abbrev pub max_body_bytes : ℕ
max_body_bytes = 64 * 1024

abbrev pub sensitive_route_max_per_window : ℕ
sensitive_route_max_per_window = 120

abbrev pub sensitive_route_window_secs : ℕ
sensitive_route_window_secs = 60

-- The limiter of a sensitive route, as the gateway makes it at its start.
abbrev pub sensitive_limiter : ℕ → WindowLimiter
sensitive_limiter now = Limiter.new sensitive_route_max_per_window sensitive_route_window_secs now

module _ {W Header : Type 0} where
  -- `DefaultBodyLimit::max` and `Extension`: what they put into the request.
  abbrev pub body_limit : ℕ → Handler W Header → Handler W Header
  body_limit n h now w q = h now w (record q { limit = some n })

  abbrev pub extension : ActorKind → Handler W Header → Handler W Header
  extension actor h now w q = h now w (record q { actor = some actor })

module _ {Peer Header : Type 0} (x : Axum (World Peer) Header) (d : Deps Peer Header) where
  unfoldable pub admin_router : Text → x.Router
  admin_router admin_token =
      let protected =
        x.route_layer (with_bearer x d admin_token)
          (x.route Pattern.configs Verb.put (handle_put_config x d) x.new) in
      let public = x.route Pattern.healthz Verb.get (handle_healthz x d) x.new in
      x.layer (body_limit max_body_bytes) (x.merge protected public)

  -- The route that both tunnels have.
  unfoldable pub node_state_route : x.Router
  node_state_route =
      x.route_layer (limit_node_state x d)
        (x.route Pattern.node_state Verb.post (handle_node_state x d) x.new)

  unfoldable pub guard_router : x.Router
  unfolding node_state_route
  guard_router =
      let configs_route =
        x.route_layer (limit_get_config x d)
          (x.route Pattern.configs Verb.get (handle_get_config x d) x.new) in
      x.layer (body_limit max_body_bytes)
        (x.layer (extension ActorKind.guard) (x.merge configs_route node_state_route))

  unfoldable pub client_router : x.Router
  unfolding node_state_route
  client_router =
      let public_routes = x.route Pattern.public_pem Verb.get (handle_public_key x d) (
        x.route Pattern.device_status Verb.get (handle_device_status x d)
          (x.route Pattern.device_code Verb.post (handle_device_code x d) x.new)) in
      x.layer (body_limit max_body_bytes)
        (x.layer (extension ActorKind.client) (x.merge public_routes node_state_route))

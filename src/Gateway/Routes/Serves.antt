-- ===== src/Gateway/Routes/Serves.antt =====
-- What each router answers: what stands behind a path that it knows, and its fallback.
use nux_auth.Prelude.{ℕ, ◌≡◌, ◌∙◌, ap, fun_ext}
use nux_auth.Gateway.{Text}
use nux_auth.Gateway.Http.{
  Pattern, healthz, configs, node_state, device_code, Verb, ActorKind, Request, Handler, Axum, pick,
}
use nux_auth.Gateway.Handlers.{World, Deps}
use nux_auth.Gateway.Routes.{
  max_body_bytes, body_limit, extension, admin_router, guard_router, client_router,
  node_state_route,
}
use nux_auth.Gateway.Routes.Served.{
  Routed, on_tunnel, admin_at, guard_at, client_at, admin_router-at, guard_router-at, public_routes,
  client_router-at,
}

module _ {Peer Header : Type 0} (x : Axum (World Peer) Header) (d : Deps Peer Header) where
  -- What answers a path that no route has.
  fallback-one :
      (q : Pattern) (v : Verb) (h : Handler (World Peer) Header)
      → x.fallback (x.route q v h x.new) ≡ x.not_found
  fallback-one q v h = x.fallback-route x.new q v h ∙ x.fallback-new

  fallback-layered :
      (q : Pattern) (v : Verb) (h : Handler (World Peer) Header)
      (f : Handler (World Peer) Header → Handler (World Peer) Header)
      → x.fallback (x.route_layer f (x.route q v h x.new)) ≡ x.not_found
  fallback-layered q v h f = x.fallback-route_layer _ f ∙ fallback-one q v h

  pub admin_router-fallback :
      (token : Text) → x.fallback (admin_router x d token) ≡ body_limit max_body_bytes x.not_found
  unfolding admin_router
  admin_router-fallback token =
      x.fallback-layer _ _
      ∙ ap (body_limit max_body_bytes) (
          x.fallback-merge _ _ (fallback-one healthz Verb.get _)
          ∙ fallback-layered configs Verb.put _ _)

  tunnel-fallback :
      (actor : ActorKind) (r : x.Router)
      → x.fallback r ≡ x.not_found
      → x.fallback (
          x.layer
            (body_limit max_body_bytes)
            (x.layer (extension actor) (x.merge r (node_state_route x d))))
        ≡ on_tunnel x d actor x.not_found
  unfolding node_state_route
  tunnel-fallback actor r plain =
      x.fallback-layer _ _
      ∙ ap (body_limit max_body_bytes) (
          x.fallback-layer _ _
          ∙ ap (extension actor)
              (x.fallback-merge _ _ (fallback-layered node_state Verb.post _ _) ∙ plain))

  pub guard_router-fallback :
      x.fallback (guard_router x d) ≡ on_tunnel x d ActorKind.guard x.not_found
  unfolding guard_router node_state_route
  guard_router-fallback = tunnel-fallback ActorKind.guard _ (fallback-layered configs Verb.get _ _)

  pub client_router-fallback :
      x.fallback (client_router x d) ≡ on_tunnel x d ActorKind.client x.not_found
  unfolding client_router node_state_route
  client_router-fallback =
      tunnel-fallback ActorKind.client (public_routes x d) (
        x.fallback-route _ _ _ _
        ∙ (x.fallback-route _ _ _ _ ∙ fallback-one device_code Verb.post _))

  -- A router by what is routed and what its fallback is.
  served :
      (r : x.Router) (routes : Pattern → Routed x d) (fallback : Handler (World Peer) Header)
      → ((p : Pattern) → x.at r p ≡ routes p)
      → x.fallback r ≡ fallback
      → (now : ℕ) (w : World Peer) (q : Request Header)
      → x.serve r now w q ≡ pick (x.matched q.path) routes fallback q.verb now w q
  served r routes fallback at_r fallback_r now w q =
      x.serve_lem r now w q
      ∙ ap (λ m. pick (x.matched q.path) m (x.fallback r) q.verb now w q) (fun_ext at_r)
      ∙ ap (λ f. pick (x.matched q.path) routes f q.verb now w q) fallback_r

  pub admin_router-serve :
      (token : Text) (now : ℕ) (w : World Peer) (q : Request Header)
      → x.serve (admin_router x d token) now w q
        ≡ pick
            (x.matched q.path)
            (admin_at x d token)
            (body_limit max_body_bytes x.not_found)
            q.verb
            now
            w
            q
  admin_router-serve token =
      served (admin_router x d token) (admin_at x d token) _ (admin_router-at x d token)
        (admin_router-fallback token)

  pub guard_router-serve :
      (now : ℕ) (w : World Peer) (q : Request Header)
      → x.serve (guard_router x d) now w q
        ≡ pick
            (x.matched q.path)
            (guard_at x d)
            (on_tunnel x d ActorKind.guard x.not_found)
            q.verb
            now
            w
            q
  guard_router-serve =
      served (guard_router x d) (guard_at x d) _ (guard_router-at x d) guard_router-fallback

  pub client_router-serve :
      (now : ℕ) (w : World Peer) (q : Request Header)
      → x.serve (client_router x d) now w q
        ≡ pick
            (x.matched q.path)
            (client_at x d)
            (on_tunnel x d ActorKind.client x.not_found)
            q.verb
            now
            w
            q
  client_router-serve =
      served (client_router x d) (client_at x d) _ (client_router-at x d) client_router-fallback

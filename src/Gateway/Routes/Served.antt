-- ===== src/Gateway/Routes/Served.antt =====
-- What stands behind each path of each router, layers included.
use nux_auth.Prelude.{◌≡◌, refl, ◌∙◌, ap, ◌||◌, true, Option, none, some, is_none, if◌then◌else◌}
use nux_auth.Gateway.{Text}
use nux_auth.Gateway.Http.{
  Pattern, healthz, configs, node_state, device_code, device_status, public_pem, Verb, ActorKind,
  Handler, Methods, Axum, only, wrapped, or_else, same,
}
use nux_auth.Gateway.Handlers.{
  World, Deps, handle_put_config, handle_get_config, handle_node_state, handle_device_code,
  handle_device_status, handle_public_key, handle_healthz, with_bearer, limit_node_state,
  limit_get_config,
}
use nux_auth.Gateway.Routes.{
  max_body_bytes, body_limit, extension, admin_router, guard_router, client_router,
  node_state_route,
}

module _ {Peer Header : Type 0} (x : Axum (World Peer) Header) (d : Deps Peer Header) where
  abbrev pub Routed : Type 0
  Routed = Option (Methods (World Peer) Header)

  -- One route.
  pub at-one :
      (p q : Pattern) (v : Verb) (h : Handler (World Peer) Header)
      → x.at (x.route q v h x.new) p ≡ (if same q p then some (only x.not_allowed v h) else none)
  at-one p q v h = rw (x.at-route x.new q p v h, x.at-new p) refl

  abbrev pub on_tunnel : ActorKind → Handler (World Peer) Header → Handler (World Peer) Header
  on_tunnel actor h = body_limit max_body_bytes (extension actor h)

  abbrev pub state_methods : Methods (World Peer) Header
  state_methods v = limit_node_state x d (only x.not_allowed Verb.post (handle_node_state x d) v)

  abbrev pub admin_at : Text → Pattern → Routed
  admin_at token configs = some λ v.
      body_limit max_body_bytes
        (with_bearer x d token (only x.not_allowed Verb.put (handle_put_config x d) v))
  admin_at token healthz =
      some λ v. body_limit max_body_bytes (only x.not_allowed Verb.get (handle_healthz x d) v)
  admin_at token _ = none

  abbrev pub guard_at : Pattern → Routed
  guard_at configs = some λ v.
      on_tunnel ActorKind.guard
        (limit_get_config x d (only x.not_allowed Verb.get (handle_get_config x d) v))
  guard_at node_state = some λ v. on_tunnel ActorKind.guard (state_methods v)
  guard_at _ = none

  abbrev pub client_at : Pattern → Routed
  client_at node_state = some λ v. on_tunnel ActorKind.client (state_methods v)
  client_at device_code =
      some λ v. on_tunnel ActorKind.client (only x.not_allowed Verb.post (handle_device_code x d) v)
  client_at device_status =
      some
        λ v. on_tunnel ActorKind.client (only x.not_allowed Verb.get (handle_device_status x d) v)
  client_at public_pem =
      some λ v. on_tunnel ActorKind.client (only x.not_allowed Verb.get (handle_public_key x d) v)
  client_at _ = none

  -- Two routers of which one has nothing for the pattern.
  pub at-merged :
      (a b : x.Router) (p : Pattern) (m n : Routed)
      → x.at a p ≡ m
      → x.at b p ≡ n
      → (is_none m || is_none n) ≡ true
      → x.at (x.merge a b) p ≡ or_else m n
  at-merged a b p m n at_a at_b apart =
      x.at-merge a b p (rw (at_a, at_b) apart) ∙ rw (at_a, at_b) refl

  -- One route behind a layer of its own.
  pub at-layered :
      (p q : Pattern) (v : Verb) (h : Handler (World Peer) Header)
      (f : Handler (World Peer) Header → Handler (World Peer) Header)
      → x.at (x.route_layer f (x.route q v h x.new)) p
        ≡ wrapped f (if same q p then some (only x.not_allowed v h) else none)
  at-layered p q v h f =
      x.at-route_layer (x.route q v h x.new) p f ∙ ap (wrapped f) (at-one p q v h)

  pub admin_router-parts :
      (token : Text) (p : Pattern)
      → let m : Routed = wrapped (with_bearer x d token) (
          if same configs p
          then some (only x.not_allowed Verb.put (handle_put_config x d))
          else none) in
        let n : Routed =
          if same healthz p
          then some (only x.not_allowed Verb.get (handle_healthz x d))
          else none in
        (is_none m || is_none n) ≡ true
        → x.at (admin_router x d token) p ≡ wrapped (body_limit max_body_bytes) (or_else m n)
  unfolding admin_router
  admin_router-parts token p apart =
      x.at-layer _ p _
      ∙ ap (wrapped (body_limit max_body_bytes)) (
          at-merged _ _ p _ _ (at-layered p configs Verb.put _ _) (at-one p healthz Verb.get _)
            apart)

  pub admin_router-at :
      (token : Text) (p : Pattern) → x.at (admin_router x d token) p ≡ admin_at token p
  admin_router-at token configs = admin_router-parts token configs refl
  admin_router-at token healthz = admin_router-parts token healthz refl
  admin_router-at token node_state = admin_router-parts token node_state refl
  admin_router-at token device_code = admin_router-parts token device_code refl
  admin_router-at token device_status = admin_router-parts token device_status refl
  admin_router-at token public_pem = admin_router-parts token public_pem refl

  -- Both tunnels: what they have besides, and the route of the state.
  pub tunnel-at :
      (actor : ActorKind) (r : x.Router) (p : Pattern) (m : Routed)
      → x.at r p ≡ m
      → let n : Routed = wrapped (limit_node_state x d) (
          if same node_state p
          then some (only x.not_allowed Verb.post (handle_node_state x d))
          else none) in
        (is_none m || is_none n) ≡ true
        → x.at
            (x.layer
              (body_limit max_body_bytes)
              (x.layer (extension actor) (x.merge r (node_state_route x d))))
            p
          ≡ wrapped (body_limit max_body_bytes) (wrapped (extension actor) (or_else m n))
  unfolding node_state_route
  tunnel-at actor r p m at_r apart =
      x.at-layer _ p _
      ∙ ap (wrapped (body_limit max_body_bytes)) (
          x.at-layer _ p _
          ∙ ap (wrapped (extension actor))
              (at-merged r _ p m _ at_r (at-layered p node_state Verb.post _ _) apart))

  pub guard_router-parts :
      (p : Pattern)
      → let m : Routed = wrapped (limit_get_config x d) (
          if same configs p
          then some (only x.not_allowed Verb.get (handle_get_config x d))
          else none) in
        let n : Routed = wrapped (limit_node_state x d) (
          if same node_state p
          then some (only x.not_allowed Verb.post (handle_node_state x d))
          else none) in
        (is_none m || is_none n) ≡ true
        → x.at (guard_router x d) p
          ≡ wrapped (body_limit max_body_bytes) (wrapped (extension ActorKind.guard) (or_else m n))
  unfolding guard_router node_state_route
  guard_router-parts p apart =
      tunnel-at ActorKind.guard _ p _ (at-layered p configs Verb.get _ _) apart

  pub guard_router-at : (p : Pattern) → x.at (guard_router x d) p ≡ guard_at p
  guard_router-at configs = guard_router-parts configs refl
  guard_router-at healthz = guard_router-parts healthz refl
  guard_router-at node_state = guard_router-parts node_state refl
  guard_router-at device_code = guard_router-parts device_code refl
  guard_router-at device_status = guard_router-parts device_status refl
  guard_router-at public_pem = guard_router-parts public_pem refl

  -- The three routes that only the clients' tunnel has.
  abbrev pub public_at : Pattern → Routed
  public_at device_code = some (only x.not_allowed Verb.post (handle_device_code x d))
  public_at device_status = some (only x.not_allowed Verb.get (handle_device_status x d))
  public_at public_pem = some (only x.not_allowed Verb.get (handle_public_key x d))
  public_at _ = none

  abbrev pub public_routes : x.Router
  public_routes = x.route public_pem Verb.get (handle_public_key x d) (
      x.route device_status Verb.get (handle_device_status x d)
        (x.route device_code Verb.post (handle_device_code x d) x.new))

  pub public_routes-parts :
      (p : Pattern)
      → x.at public_routes p ≡ (
          if same public_pem p
          then some (only x.not_allowed Verb.get (handle_public_key x d))
          else if same device_status p
          then some (only x.not_allowed Verb.get (handle_device_status x d))
          else if same device_code p
          then some (only x.not_allowed Verb.post (handle_device_code x d))
          else none)
  public_routes-parts p =
      rw
        (
          x.at-route
              (x.route device_status Verb.get (handle_device_status x d)
                (x.route device_code Verb.post (handle_device_code x d) x.new))
              public_pem p Verb.get (handle_public_key x d),
          x.at-route (x.route device_code Verb.post (handle_device_code x d) x.new) device_status p
              Verb.get (handle_device_status x d),
          at-one p device_code Verb.post (handle_device_code x d),
        )
        refl

  pub public_routes-at : (p : Pattern) → x.at public_routes p ≡ public_at p
  public_routes-at configs = public_routes-parts configs
  public_routes-at healthz = public_routes-parts healthz
  public_routes-at node_state = public_routes-parts node_state
  public_routes-at device_code = public_routes-parts device_code
  public_routes-at device_status = public_routes-parts device_status
  public_routes-at public_pem = public_routes-parts public_pem

  pub client_router-parts :
      (p : Pattern)
      → let n : Routed = wrapped (limit_node_state x d) (
          if same node_state p
          then some (only x.not_allowed Verb.post (handle_node_state x d))
          else none) in
        (is_none (public_at p) || is_none n) ≡ true
        → x.at (client_router x d) p
          ≡ wrapped
              (body_limit max_body_bytes)
              (wrapped (extension ActorKind.client) (or_else (public_at p) n))
  unfolding client_router node_state_route
  client_router-parts p apart =
      tunnel-at ActorKind.client public_routes p (public_at p) (public_routes-at p) apart

  pub client_router-at : (p : Pattern) → x.at (client_router x d) p ≡ client_at p
  client_router-at configs = client_router-parts configs refl
  client_router-at healthz = client_router-parts healthz refl
  client_router-at node_state = client_router-parts node_state refl
  client_router-at device_code = client_router-parts device_code refl
  client_router-at device_status = client_router-parts device_status refl
  client_router-at public_pem = client_router-parts public_pem refl

-- ===== src/Gateway/Http.antt =====
-- nux_gateway/src: requests over HTTP, and what the gateway takes from axum.
use nux_auth.Prelude.{
  ℕ, ◌≡◌, ◌<◌, length, Bool, true, false, ◌||◌, Option, none, some, is_none, if◌then◌else◌,
}
use nux_auth.Gateway.{Text, ConfigNodeGuard}
use nux_auth.Gateway.Proxy.{Response}

pub data Verb : Type 0 where
  get head post put other : Verb

-- The paths that the routers name: "/healthz", "/api/v1/configs/:uuid",
-- "/api/v1/nodes/:peer_id/state", "/api/v1/device/code", "/api/v1/device/status" and
-- "/api/v1/keys/public.pem". No path of a request matches two of them.
pub data Pattern : Type 0 where
  healthz configs node_state device_code device_status public_pem : Pattern

pub data ActorKind : Type 0 where
  client guard : ActorKind

-- `limit` and `actor` are what the layers have put into the request.
pub record Request (Header : Type 0) : Type 0 where
  pub verb : Verb
  pub path : Text
  pub query : Option Text
  pub authorization : Option Header
  pub body : Text
  pub limit : Option ℕ
  pub actor : Option ActorKind

-- An answer: of a handler, the status of an error of the gateway, what axum answers itself, or a
-- panic of the handler.
pub data Answer : Type 0 where
  config : ConfigNodeGuard → Answer
  response : Response → Answer
  health : Bool → Answer
  failed : ℕ → Answer
  rejected crashed : Answer

-- A handler is called at a time, and gives what becomes of the world and the answer.
abbrev pub Handler : Type 0 → Type 0 → Type 0
Handler World Header = ℕ → World → Request Header → World × Answer

-- A route for GET answers HEAD as well.
abbrev pub accepts : Verb → Verb → Bool
accepts get get = true
accepts get head = true
accepts head head = true
accepts post post = true
accepts put put = true
accepts _ _ = false

abbrev pub same : Pattern → Pattern → Bool
same healthz healthz = true
same configs configs = true
same node_state node_state = true
same device_code device_code = true
same device_status device_status = true
same public_pem public_pem = true
same _ _ = false

abbrev pub Methods : Type 0 → Type 0 → Type 0
Methods World Header = Verb → Handler World Header

module _ {World Header : Type 0} where
  abbrev pub wrapped :
      (Handler World Header → Handler World Header)
      → Option (Methods World Header)
      → Option (Methods World Header)
  wrapped f none = none
  wrapped f (some hs) = some (λ v. f (hs v))

  abbrev pub or_else :
      Option (Methods World Header) → Option (Methods World Header) → Option (Methods World Header)
  or_else none b = b
  or_else (some hs) b = some hs

  -- Where the handler answers a verb, and another answers the others.
  abbrev pub only : Handler World Header → Verb → Handler World Header → Methods World Header
  only not_allowed v h v' = if accepts v v' then h else not_allowed

  -- The handler for a path: of the pattern that it matches, or the fallback.
  abbrev pub pick :
      Option Pattern
      → (Pattern → Option (Methods World Header))
      → Handler World Header
      → Methods World Header
  pick none methods fallback v = fallback
  pick (some pattern) methods fallback v = elim (methods pattern) [
    | none ↦ fallback
    | some hs ↦ hs v
  ]

-- `axum::Router`: `at` is what is routed for a pattern. A layer is put round everything, the
-- fallback too, a route's layer round the routes that are there, whatever their verb.
pub record Axum (World Header : Type 0) : Type 1 where
  pub Router : Type 0
  pub new : Router
  pub route : Pattern → Verb → Handler World Header → Router → Router
  pub route_layer : (Handler World Header → Handler World Header) → Router → Router
  pub layer : (Handler World Header → Handler World Header) → Router → Router
  pub merge : Router → Router → Router
  pub serve : Router → Handler World Header
  pub not_found : Handler World Header
  pub not_allowed : Handler World Header
  pub matched : Text → Option Pattern
  -- `Path<String>`, and `Bytes` under the limit that stands in the request
  pub param : Request Header → Text
  pub bytes : Request Header → Option Text
  pub at : Router → Pattern → Option (Methods World Header)
  pub fallback : Router → Handler World Header
  pub at-new : (p : Pattern) → at new p ≡ none
  pub at-route :
      (r : Router) (q p : Pattern) (v : Verb) (h : Handler World Header)
      → at (route q v h r) p ≡ (if same q p then some (only not_allowed v h) else at r p)
  pub at-route_layer :
      (r : Router) (p : Pattern) (f : Handler World Header → Handler World Header)
      → at (route_layer f r) p ≡ wrapped f (at r p)
  pub at-layer :
      (r : Router) (p : Pattern) (f : Handler World Header → Handler World Header)
      → at (layer f r) p ≡ wrapped f (at r p)
  pub at-merge :
      (a b : Router) (p : Pattern)
      → (is_none (at a p) || is_none (at b p)) ≡ true
      → at (merge a b) p ≡ or_else (at a p) (at b p)
  pub fallback-new : fallback new ≡ not_found
  pub fallback-route :
      (r : Router) (q : Pattern) (v : Verb) (h : Handler World Header)
      → fallback (route q v h r) ≡ fallback r
  pub fallback-route_layer :
      (r : Router) (f : Handler World Header → Handler World Header)
      → fallback (route_layer f r) ≡ fallback r
  pub fallback-layer :
      (r : Router) (f : Handler World Header → Handler World Header)
      → fallback (layer f r) ≡ f (fallback r)
  pub fallback-merge : (a b : Router) → fallback b ≡ not_found → fallback (merge a b) ≡ fallback a
  pub serve_lem :
      (r : Router) (now : ℕ) (w : World) (q : Request Header)
      → serve r now w q ≡ pick (matched q.path) (at r) (fallback r) q.verb now w q
  pub bytes_within :
      (q : Request Header) (n : ℕ) → q.limit ≡ some n → n < length q.body → bytes q ≡ none
  -- What axum answers itself changes nothing.
  pub not_found_still : (now : ℕ) (w : World) (q : Request Header) → (not_found now w q).0 ≡ w
  pub not_allowed_still : (now : ℕ) (w : World) (q : Request Header) → (not_allowed now w q).0 ≡ w

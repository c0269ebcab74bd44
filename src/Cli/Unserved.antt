-- ===== src/Cli/Unserved.antt =====
-- crates/nux-cli/src/main.rs, `sync-config`, against nux_gateway/src/api/routes.rs: what the companion
-- gets from the gateway of this repository.
mod Tests
use nux_auth.Prelude.{
  ℕ, ◌≡◌, refl, ◌∙◌, ap, arith, Bool, true, false, ◌&&◌, List, [], ◌∷◌, Option, none, some, leb,
  ltb, bytes_beq, any, err, if◌then◌else◌, Option-cases, inl, inr,
}
use nux_auth.Error.{NuxError, NuxResult}
use nux_auth.Gateway.{Text}
use nux_auth.Gateway.Http.{
  Pattern, healthz, configs, node_state, device_code, device_status, public_pem, Verb, ActorKind,
  Request, Answer, Axum, pick,
}
use nux_auth.Gateway.Handlers.{World, Deps}
use nux_auth.Gateway.Routes.{max_body_bytes}
use nux_auth.Gateway.Routes.Budget.{router_of}
use nux_auth.Gateway.Routes.Served.{guard_at, client_at, on_tunnel}
use nux_auth.Gateway.Routes.Serves.{guard_router-serve, client_router-serve}
use nux_auth.Exposition.{codes}
use nux_auth.Cli.{Toml}
use nux_auth.Cli.Args.{split}
use nux_auth.Cli.Remote.{RemoteConfig, Disk}
use nux_auth.Cli.Sync.{
  Response, answered, unreachable, Companion, config_path, read_config, fetch_remote_config, poll,
  polls,
}

abbrev slash : ℕ
slash = 47

abbrev api : List (Option Text) → List (Option Text)
api rest = some [] ∷ some (codes "api") ∷ some (codes "v1") ∷ rest

-- The paths that the routers name, by their segments; `none` stands for a parameter.
abbrev pub segments : Pattern → List (Option Text)
segments healthz = some [] ∷ some (codes "healthz") ∷ []
segments configs = api (some (codes "configs") ∷ none ∷ [])
segments node_state = api (some (codes "nodes") ∷ none ∷ some (codes "state") ∷ [])
segments device_code = api (some (codes "device") ∷ some (codes "code") ∷ [])
segments device_status = api (some (codes "device") ∷ some (codes "status") ∷ [])
segments public_pem = api (some (codes "keys") ∷ some (codes "public.pem") ∷ [])

abbrev pub fits : List (Option Text) → List Text → Bool
fits [] [] = true
fits [] (t ∷ ts) = false
fits (s ∷ ss) [] = false
fits (none ∷ ss) (t ∷ ts) = fits ss ts
fits (some s ∷ ss) (t ∷ ts) = bytes_beq s t && fits ss ts

-- No route of the gateway has the path that the companion asks for.
config_path-unfit :
    (uuid : Text) (p : Pattern) → fits (segments p) (split slash (config_path uuid)) ≡ false
unfolding split
config_path-unfit uuid healthz = refl
config_path-unfit uuid configs = refl
config_path-unfit uuid node_state = refl
config_path-unfit uuid device_code = refl
config_path-unfit uuid device_status = refl
config_path-unfit uuid public_pem = refl

abbrev is_2xx : ℕ → Bool
is_2xx status = leb 200 status && ltb status 300

-- Whether the status of an answer is a success; a panic closes the connection.
abbrev pub is_success : Answer → Bool
is_success (Answer.config saved) = true
is_success (Answer.response r) = is_2xx r.status
is_success (Answer.health ready) = true
is_success (Answer.failed status) = is_2xx status
is_success Answer.rejected = false
is_success Answer.crashed = false

abbrev pub request_for : {Header : Type 0} → Text → Request Header
request_for path = record {
  verb = Verb.get;
  path = path;
  query = none;
  authorization = none;
  body = [];
  limit = none;
  actor = none;
}

-- The same request behind the layers of a tunnel.
abbrev layered : {Header : Type 0} → ActorKind → Text → Request Header
layered tunnel path = record (request_for path) { limit = some max_body_bytes; actor = some tunnel }

-- A poll: through which tunnel, when, what the gateway's world is then, and what the signal would
-- come to.
pub record Visit (Peer : Type 0) : Type 0 where
  pub tunnel : ActorKind
  pub now : ℕ
  pub world : World Peer
  pub sighup : NuxResult (Unit {0})

module _ {Peer Header : Type 0} (x : Axum (World Peer) Header) (d : Deps Peer Header)
    (json : Answer → Option RemoteConfig) where
  -- What the companion makes of an answer, whose body `json` reads.
  abbrev pub response_of : Answer → Response
  response_of Answer.crashed = unreachable
  response_of a = answered (is_success a) (json a)

  -- The gateway behind a tunnel.
  abbrev pub gateway : ActorKind → ℕ → World Peer → Text → Response
  gateway tunnel now w path =
      response_of (x.serve (router_of x d tunnel) now w (request_for path)).1

  abbrev pub visits : List (Visit Peer) → List ((Text → Response) × NuxResult (Unit {0}))
  visits [] = []
  visits (v ∷ vs) = (gateway v.tunnel v.now v.world, v.sighup) ∷ visits vs

  read_config-failure :
      (a : Answer) → is_success a ≡ false → read_config (response_of a) ≡ err NuxError.network
  unfolding read_config
  read_config-failure (Answer.config saved) h = absurd (cc)
  read_config-failure (Answer.response r) h = rw h refl
  read_config-failure (Answer.health ready) h = absurd (cc)
  read_config-failure (Answer.failed status) h = rw h refl
  read_config-failure Answer.rejected h = refl
  read_config-failure Answer.crashed h = refl

  -- Where axum routes a path only to a pattern that it fits, and answers what is not routed with
  -- 404, which is no success.
  module _
      (routed : (path : Text) (p : Pattern)
        → x.matched path ≡ some p
        → fits (segments p) (split slash path) ≡ true)
      (missing : (now : ℕ) (w : World Peer) (q : Request Header)
        → is_success (x.not_found now w q).1 ≡ false) where
    config_path-unmatched : (uuid : Text) → x.matched (config_path uuid) ≡ none
    config_path-unmatched uuid = elim (Option-cases (x.matched (config_path uuid))) [
      | inl unmatched ↦ unmatched
      | inr (p, found) ↦
          let yes = routed (config_path uuid) p found in
          let no = config_path-unfit uuid p in absurd (ground (arith, yes, no))
    ]

    fetch_remote_config-unserved :
        (uuid : Text) (tunnel : ActorKind) (now : ℕ) (w : World Peer)
        → fetch_remote_config (gateway tunnel now w) uuid ≡ err NuxError.network
    unfolding fetch_remote_config
    fetch_remote_config-unserved uuid ActorKind.guard now w =
        let q = layered ActorKind.guard (config_path uuid) in
        rw
          (
            guard_router-serve x d now w (request_for (config_path uuid)),
            config_path-unmatched uuid,
          )
          (read_config-failure (x.not_found now w q).1 (missing now w q))
    fetch_remote_config-unserved uuid ActorKind.client now w =
        let q = layered ActorKind.client (config_path uuid) in
        rw
          (
            client_router-serve x d now w (request_for (config_path uuid)),
            config_path-unmatched uuid,
          )
          (read_config-failure (x.not_found now w q).1 (missing now w q))

    -- The companion never applies a configuration of this gateway: whatever the gateway holds, however
    -- often it is asked and through whichever tunnel, the companion and the Guard's file stay as they
    -- are and no SIGHUP is delivered.
    pub polls-unserved :
        {Document : Type 0} (toml : Toml Document) (disk : Disk) (uuid : Text) (c : Companion)
        (vs : List (Visit Peer))
        → ((polls toml disk uuid c (visits vs)).0 ≡ c)
          × (any (λ b. b) (polls toml disk uuid c (visits vs)).1 ≡ false)
    unfolding polls poll
    polls-unserved toml disk uuid c [] = (refl, refl)
    polls-unserved toml disk uuid c (v ∷ vs) =
        let failed = fetch_remote_config-unserved uuid v.tunnel v.now v.world in
        let same : poll toml disk uuid c (gateway v.tunnel v.now v.world) v.sighup ≡ (c, false) =
          ground (arith, failed) in
        let (kept, silent) = polls-unserved toml disk uuid c vs in
        (rw (polls, same) kept, rw (polls, same) silent)

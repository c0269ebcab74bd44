-- ===== src/Builder.antt =====
-- crates/nux-core/src/builder.rs: the settings of a node, and what `build` makes of them. The swarm
-- and its transports are libp2p's: of them the model keeps whether they can be assembled, the
-- limiter that is handed to them, and the addresses that they listen on. Times are in nanoseconds.
use nux_auth.Prelude.{
  ℕ, ◌*◌, ◌^◌, Bool, List, [], ◌∷◌, ◌++◌, Option, Eq, ok, err, ◌>>=◌, if◌then◌else◌,
}
use nux_auth.Error.{NuxError, NuxResult}
use nux_auth.Identity.{Ed25519, KeyFile, from_file, from_env}
use nux_auth.Node.{NodeMode}
use nux_auth.RateLimit
use nux_auth.RateLimit.{RateLimiter}
use nux_auth.RateLimit.Behaviour.{with_exemptions}

abbrev pub default_idle_timeout : ℕ
default_idle_timeout = 30 * 10 ^ 9

abbrev pub default_request_timeout : ℕ
default_request_timeout = 10 * 10 ^ 9

pub data IdentitySource (Keypair File : Type 0) : Type 0 where
  ephemeral : IdentitySource Keypair File
  provided : Keypair → IdentitySource Keypair File
  file : File → IdentitySource Keypair File
  env : List ℕ → IdentitySource Keypair File

pub record NuxNodeBuilder (Keypair File Multiaddr Ip : Type 0) : Type 0 where
  pub mode : NodeMode
  pub identity : IdentitySource Keypair File
  pub listen_addrs : List Multiaddr
  pub idle_timeout : ℕ
  pub request_timeout : ℕ
  pub rate_limit_max : ℕ
  pub rate_limit_window : ℕ
  pub rate_limit_exempt : List Ip

module _ {Keypair File Multiaddr Ip : Type 0} where
  unfoldable pub new : NuxNodeBuilder Keypair File Multiaddr Ip
  new = record {
    mode = NodeMode.client;
    identity = ephemeral;
    listen_addrs = [];
    idle_timeout = default_idle_timeout;
    request_timeout = default_request_timeout;
    rate_limit_max = RateLimit.default_max_per_window;
    rate_limit_window = RateLimit.default_window;
    rate_limit_exempt = [];
  }

  abbrev pub with_mode :
      NodeMode → NuxNodeBuilder Keypair File Multiaddr Ip → NuxNodeBuilder Keypair File Multiaddr Ip
  with_mode m b = record b { mode = m }

  abbrev pub with_identity :
      Keypair → NuxNodeBuilder Keypair File Multiaddr Ip → NuxNodeBuilder Keypair File Multiaddr Ip
  with_identity keypair b = record b { identity = provided keypair }

  abbrev pub identity_file :
      File → NuxNodeBuilder Keypair File Multiaddr Ip → NuxNodeBuilder Keypair File Multiaddr Ip
  identity_file path b = record b { identity = file path }

  abbrev pub identity_env :
      List ℕ → NuxNodeBuilder Keypair File Multiaddr Ip → NuxNodeBuilder Keypair File Multiaddr Ip
  identity_env var b = record b { identity = env var }

  abbrev pub listen_on :
      Multiaddr
      → NuxNodeBuilder Keypair File Multiaddr Ip
      → NuxNodeBuilder Keypair File Multiaddr Ip
  listen_on addr b = record b { listen_addrs = b.listen_addrs ++ (addr ∷ []) }

  abbrev pub with_idle_timeout :
      ℕ → NuxNodeBuilder Keypair File Multiaddr Ip → NuxNodeBuilder Keypair File Multiaddr Ip
  with_idle_timeout timeout b = record b { idle_timeout = timeout }

  abbrev pub with_request_timeout :
      ℕ → NuxNodeBuilder Keypair File Multiaddr Ip → NuxNodeBuilder Keypair File Multiaddr Ip
  with_request_timeout timeout b = record b { request_timeout = timeout }

  abbrev pub inbound_rate_limit :
      ℕ → ℕ → NuxNodeBuilder Keypair File Multiaddr Ip → NuxNodeBuilder Keypair File Multiaddr Ip
  inbound_rate_limit max_per_window window b = record b {
    rate_limit_max = max_per_window;
    rate_limit_window = window;
  }

  abbrev pub exempt_ip :
      Ip → NuxNodeBuilder Keypair File Multiaddr Ip → NuxNodeBuilder Keypair File Multiaddr Ip
  exempt_ip ip b = record b { rate_limit_exempt = b.rate_limit_exempt ++ (ip ∷ []) }

-- What the process finds around it: the random key, the files, the environment, whether the swarm
-- can be assembled, which addresses can be listened on, and the clock.
pub record Host (Keypair File Multiaddr : Type 0) : Type 0 where
  pub generated : Keypair
  pub key_file : File → Option KeyFile
  pub variable : List ℕ → Option (List ℕ)
  pub decode_trimmed : List ℕ → Option (List ℕ)
  pub assembled : Bool
  pub listens : Multiaddr → Bool
  pub now : ℕ

pub record Built (Keypair Multiaddr Ip : Type 0) : Type 0 where
  pub mode : NodeMode
  pub keypair : Keypair
  pub limiter : RateLimiter Ip
  pub listening : List Multiaddr
  pub idle_timeout : ℕ
  pub request_timeout : ℕ

module _ {Keypair File Multiaddr Ip : Type 0} (keys : Ed25519 Keypair) (ip : Eq Ip)
    (host : Host Keypair File Multiaddr) where
  unfoldable pub resolve_identity : IdentitySource Keypair File → NuxResult Keypair
  resolve_identity ephemeral = ok host.generated
  resolve_identity (provided kp) = ok kp
  resolve_identity (file path) = from_file keys (host.key_file path)
  resolve_identity (env var) = from_env keys host.decode_trimmed (host.variable var)

  -- `swarm.listen_on(addr)?` for each address.
  unfoldable pub listen_all : List Multiaddr → NuxResult (Unit {0})
  listen_all [] = ok tt
  listen_all (addr ∷ addrs) =
      let rest = listen_all addrs in if host.listens addr then rest else err NuxError.transport

  unfoldable pub build :
      NuxNodeBuilder Keypair File Multiaddr Ip → NuxResult (Built Keypair Multiaddr Ip)
  unfolding resolve_identity listen_all
  build b = do
    keypair ← resolve_identity b.identity
    _ ← if host.assembled then ok tt else err NuxError.network
    _ ← listen_all b.listen_addrs
    ok (record {
      mode = b.mode;
      keypair = keypair;
      limiter =
          with_exemptions ip b.rate_limit_max b.rate_limit_window b.rate_limit_exempt host.now;
      listening = b.listen_addrs;
      idle_timeout = b.idle_timeout;
      request_timeout = b.request_timeout;
    })

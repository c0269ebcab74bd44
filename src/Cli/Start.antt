-- ===== src/Cli/Start.antt =====
-- crates/nux-cli/src/main.rs, the command `guard`: from the configuration to the node, the registry
-- and the authority that the loop is run with.
use nux_auth.Prelude.{
  ℕ, ◌*◌, ◌^◌, Bool, true, false, not, List, [], ◌∷◌, Option, none, some, Eq, Result, ok, err,
  ◌>>=◌, if◌then◌else◌,
}
use nux_auth.Net.{Net}
use nux_auth.Error.{NuxError, NuxResult}
use nux_auth.Gateway.{Text}
use nux_auth.Identity.{Ed25519}
use nux_auth.Node.{NodeMode}
use nux_auth.Auth
use nux_auth.Auth.{GuardAuthenticator}
use nux_auth.Tunnel
use nux_auth.Tunnel.{TunnelRegistry, require_binary_sha256}
use nux_auth.Builder
use nux_auth.Builder.{NuxNodeBuilder, Host, Built, build}
use nux_auth.Cli.{Formats, Toml}
use nux_auth.Cli.Config.{GuardConfig, load}

-- "NUX_IDENTITY_KEY"
abbrev pub identity_env_var : Text
identity_env_var =
    78 ∷ 85 ∷ 88 ∷ 95 ∷ 73 ∷ 68 ∷ 69 ∷ 78 ∷ 84 ∷ 73 ∷ 84 ∷ 89 ∷ 95 ∷ 75 ∷ 69 ∷ 89 ∷ []

abbrev pub daemon_idle_timeout : ℕ
daemon_idle_timeout = 3600 * 10 ^ 9

-- An address of the loopback interface, with its port.
pub record Localhost : Type 0 where
  pub port : ℕ

-- What happens around the relay: `none` is a wait that timed out. The swarm's `dial` and `listen_on`
-- may fail at once.
pub record RelayWorld (Peer : Type 0) : Type 0 where
  pub dialled : Bool
  pub next_connection : Option (NuxResult Peer)
  pub circuit_listened : Bool
  pub reservation : Option (NuxResult (Unit {0}))
  pub registration : NuxResult (Unit {0})

-- What the relay comes to.
pub data Relayed (Peer : Type 0) : Type 0 where
  unreachable : Relayed Peer
  reached : (relay_peer : Peer) → (reserved registered : Bool) → Relayed Peer

abbrev pub succeeded {ℓ} : {E A : Type ℓ} → Result E A → Bool
succeeded (ok a) = true
succeeded (err e) = false

abbrev pub confirmed : Option (NuxResult (Unit {0})) → Bool
confirmed none = false
confirmed (some r) = succeeded r

module _ {Peer : Type 0} (w : RelayWorld Peer) where
  unfoldable pub reserve_circuit : Bool
  reserve_circuit = if w.circuit_listened then confirmed w.reservation else false

  unfoldable pub relay_setup : {Name : Type 0} → Option Name → Relayed Peer
  unfolding reserve_circuit
  relay_setup namespace = elim w.next_connection [
    | none ↦ unreachable
    | some (err e) ↦ unreachable
    | some (ok relay_peer) ↦ reached relay_peer reserve_circuit (elim namespace [
      | none ↦ false
      | some name ↦ if not reserve_circuit then false else succeeded w.registration
    ])
  ]

  -- The relay is tried where the configuration names one; only the call of `dial` can stop the start.
  unfoldable pub join_relay :
      {Multiaddr Name : Type 0} → Option Multiaddr → Option Name → NuxResult (Option (Relayed Peer))
  unfolding relay_setup
  join_relay none namespace = ok none
  join_relay (some addr) namespace =
      if w.dialled then ok (some (relay_setup namespace)) else err NuxError.dial

module _ {Keypair File Multiaddr Ip : Type 0} where
  -- `builder`: the key file of the command line, else the variable where it is set.
  unfoldable pub builder :
      Host Keypair File Multiaddr
      → NodeMode
      → Option File
      → NuxNodeBuilder Keypair File Multiaddr Ip
  unfolding Builder.new
  builder host mode identity =
      let b : NuxNodeBuilder Keypair File Multiaddr Ip =
        Builder.with_idle_timeout daemon_idle_timeout (Builder.with_mode mode Builder.new) in
      elim identity [
        | some path ↦ Builder.identity_file path b
        | none ↦ elim (host.variable identity_env_var) [
          | some value ↦ Builder.identity_env identity_env_var b
          | none ↦ b
        ]
      ]

  unfoldable pub exempt_each :
      List Ip → NuxNodeBuilder Keypair File Multiaddr Ip → NuxNodeBuilder Keypair File Multiaddr Ip
  exempt_each [] b = b
  exempt_each (ip ∷ ips) b = exempt_each ips (Builder.exempt_ip ip b)

module _ {Peer Key : Type 0} (net : Net Peer Key) where
  unfoldable pub expose_each :
      List (Text × (ℕ × Option Text))
      → TunnelRegistry Peer Localhost
      → TunnelRegistry Peer Localhost
  expose_each [] r = r
  expose_each ((name, (port, role)) ∷ rest) r =
      expose_each rest (Tunnel.expose name (record { port = port }) role r)

  unfoldable pub attest_each :
      List (Peer × List ℕ) → TunnelRegistry Peer Localhost → TunnelRegistry Peer Localhost
  attest_each [] r = r
  attest_each ((peer, sha256) ∷ rest) r = attest_each rest (require_binary_sha256 net peer sha256 r)

  unfoldable pub registry_of :
      {Multiaddr Ip Name : Type 0}
      → GuardConfig Peer Multiaddr Ip Name
      → TunnelRegistry Peer Localhost
  unfolding expose_each attest_each
  registry_of cfg = attest_each cfg.checksum_bin (expose_each cfg.expose Tunnel.new)

-- What `run_guard_with_control` is called with.
pub record Started (Peer Keypair Multiaddr Ip : Type 0) : Type 0 where
  pub node : Built Keypair Multiaddr Ip
  pub registry : TunnelRegistry Peer Localhost
  pub authenticator : GuardAuthenticator Peer
  pub relay : Option (Relayed Peer)

module _ {Peer Key Keypair File Multiaddr Ip Name Document : Type 0} (net : Net Peer Key)
    (f : Formats Peer Multiaddr Ip Name) (toml : Toml Document) (keys : Ed25519 Keypair)
    (ip : Eq Ip) (host : Host Keypair File Multiaddr) (w : RelayWorld Peer) where
  unfoldable pub start_guard :
      Option Text → Option File → NuxResult (Started Peer Keypair Multiaddr Ip)
  unfolding builder exempt_each registry_of join_relay
  start_guard file identity = do
    cfg ← load net f toml file
    node ← build keys ip host (
        exempt_each cfg.rate_limit_exempt (
          Builder.inbound_rate_limit cfg.rate_limit_max cfg.rate_limit_window
            (Builder.listen_on cfg.listen (builder host NodeMode.guard identity))))
    relay ← join_relay w cfg.relay cfg.namespace
    ok (record {
      node = node;
      registry = registry_of net cfg;
      authenticator = Auth.new cfg.whitelist;
      relay = relay;
    })

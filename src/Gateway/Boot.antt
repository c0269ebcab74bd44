-- ===== src/Gateway/Boot.antt =====
-- nux_gateway/src/main.rs: the start of the gateway, which is a Guard itself. The whitelist is made
-- again from the configurations in the database, and the two tunnel routers are its services.
pub mod Access
pub mod Restart
mod Tests
use nux_auth.Prelude.{
  ℕ, List, [], ◌∷◌, ◌++◌, Option, none, some, Eq, Result, ok, err, bytes_eq, if◌then◌else◌, Bool,
}
use nux_auth.Prelude.Assoc.{lookup}
use nux_auth.Net.{Net}
use nux_auth.Node.{NodeMode}
use nux_auth.Identity.{Ed25519}
use nux_auth.Builder
use nux_auth.Builder.{NuxNodeBuilder, Host, Built, build}
use nux_auth.Auth
use nux_auth.Auth.{GuardAuthenticator}
use nux_auth.Whitelist
use nux_auth.Whitelist.{Whitelist, Roles}
use nux_auth.Tunnel
use nux_auth.Tunnel.{TunnelRegistry}
use nux_auth.Cli.Start.{Localhost, identity_env_var}
use nux_auth.Gateway.{Text, Parsers, ConfigNodeGuard}
use nux_auth.Gateway.Roles.{role_guard, role_client, roles_for_config, allowed_by}
use nux_auth.Gateway.Configs.{Json, Table, Database, from_row}
use nux_auth.Gateway.Settings.{Config, Checked}

abbrev pub guard_control_channel_capacity : ℕ
guard_control_channel_capacity = 64

-- "gwapi-guard" and "gwapi-client"
abbrev pub gwapi_guard : Text
gwapi_guard = 103 ∷ 119 ∷ 97 ∷ 112 ∷ 105 ∷ 45 ∷ 103 ∷ 117 ∷ 97 ∷ 114 ∷ 100 ∷ []

abbrev pub gwapi_client : Text
gwapi_client = 103 ∷ 119 ∷ 97 ∷ 112 ∷ 105 ∷ 45 ∷ 99 ∷ 108 ∷ 105 ∷ 101 ∷ 110 ∷ 116 ∷ []

module _ {Peer : Type 0} where
  -- The registry of `main`: each service on its port of the loopback interface, for its role.
  unfoldable pub gateway_registry : ℕ → ℕ → TunnelRegistry Peer Localhost
  unfolding Tunnel.new Tunnel.expose
  gateway_registry guard_port client_port =
      Tunnel.expose gwapi_client (record { port = client_port }) (some role_client)
        (Tunnel.expose gwapi_guard (record { port = guard_port }) (some role_guard) Tunnel.new)

module _ {Peer Key : Type 0} (net : Net Peer Key) (parse : Parsers Peer) (json : Json) where
  -- The loop over the rows; a row that cannot be read is a panic, `none`.
  unfoldable pub allow_rows : Table → Whitelist Peer → Option (Whitelist Peer)
  allow_rows [] w = some w
  allow_rows ((uuid, row) ∷ rows) w = elim (from_row json row) [
    | none ↦ none
    | some config ↦ allow_rows rows (allowed_by net w (roles_for_config parse config))
  ]

  -- The rows come in the order that the database gives; without it the process ends, `none`.
  unfoldable pub rebuild_whitelist : Database → Option (Whitelist Peer)
  unfolding allow_rows
  rebuild_whitelist db = if db.works then allow_rows db.rows [] else none

  -- What `run_guard_with_control` is run with.
  pub record Booted (Keypair Multiaddr Ip : Type 0) : Type 0 where
    pub node : Built Keypair Multiaddr Ip
    pub authenticator : GuardAuthenticator Peer
    pub registry : TunnelRegistry Peer Localhost

  module _ {Keypair Ip SocketAddr Multiaddr : Type 0} (keys : Ed25519 Keypair) (ip : Eq Ip)
      (host : Host Keypair Text Multiaddr) where
    abbrev pub gateway_builder :
        Config SocketAddr Multiaddr → NuxNodeBuilder Keypair Text Multiaddr Ip
    gateway_builder cfg =
        let b : NuxNodeBuilder Keypair Text Multiaddr Ip =
          Builder.listen_on cfg.listen (Builder.with_mode NodeMode.guard Builder.new) in
        elim cfg.identity_file [
          | some path ↦ Builder.identity_file path b
          | none ↦ Builder.identity_env identity_env_var b
        ]

    -- `none` is an end of the process before the node runs. `pool` is the database once it is
    -- opened and migrated; whether the three ports can be bound shows only behind the start.
    unfoldable pub boot :
        Checked (Config SocketAddr Multiaddr)
        → Option Database
        → Option (Booted Keypair Multiaddr Ip)
    unfolding rebuild_whitelist Builder.new
    boot (err e) pool = none
    boot (ok cfg) none = none
    boot (ok cfg) (some db) = elim (rebuild_whitelist db) [
      | none ↦ none
      | some whitelist ↦ elim (build keys ip host (gateway_builder cfg)) [
        | err e ↦ none
        | ok node ↦ some (record {
          node = node;
          authenticator = Auth.new whitelist;
          registry = gateway_registry cfg.guard_port cfg.client_port;
        })
      ]
    ]

-- ===== src/Cli/Client.antt =====
-- crates/nux-cli/src/main.rs, the command `client`: the node, the Guard that it joins, the handshake,
-- and only then the local ports and sockets that it forwards.
pub mod Opens
mod Tests
use nux_auth.Prelude.{
  ℕ, Bool, true, false, List, [], ◌∷◌, Option, none, some, if◌then◌else◌, Eq, Result, ok, err,
}
use nux_auth.Error.{NuxError, NuxResult, IoError}
use nux_auth.Gateway.{Text}
use nux_auth.Identity.{Ed25519}
use nux_auth.Node.{NodeMode}
use nux_auth.Builder.{Host, Built, build}
use nux_auth.Client.{ClientEvent}
use nux_auth.Client.Handshake.{authenticate}
use nux_auth.Tunnel.Forward.{Paths, bind_forward_socket}
use nux_auth.Cli.Args.{DialTarget, Protocol}
use nux_auth.Cli.Dial as Dial
use nux_auth.Cli.Dial.{join_guard}
use nux_auth.Cli.Start.{builder}

abbrev pub default_shutdown_grace_period : ℕ
default_shutdown_grace_period = 30

-- What is bound: the ports and the sockets, in their order, and whether the process goes on.
pub record Bound : Type 0 where
  pub ports : List ℕ
  pub sockets : List Text
  pub result : NuxResult (Unit {0})

abbrev pub bound_nothing : NuxResult (Unit {0}) → Bound
bound_nothing result = record { ports = []; sockets = []; result = result }

-- `TcpListener::bind(..)?` for each port of the loopback interface; whether a port can be bound
-- depends on those that are bound before it.
unfoldable pub bind_ports : (List ℕ → ℕ → Bool) → List ℕ → List (ℕ × Text) → Bound
bind_ports binds before [] = bound_nothing (ok tt)
bind_ports binds before ((port, service) ∷ entries) =
    let rest = bind_ports binds (port ∷ before) entries in
    if binds before port
    then record rest { ports = port ∷ rest.ports }
    else bound_nothing (err (NuxError.io IoError.other))

-- `bind_forward_socket(&path)?` for each path; what is found at a path depends on those that are bound
-- before it.
unfoldable pub bind_sockets :
    (List Text → Text → Paths) → List Text → List (Text × (Text × List ℕ)) → Bound
bind_sockets paths before [] = bound_nothing (ok tt)
bind_sockets paths before ((path, (service, allowed_uids)) ∷ entries) =
    let rest = bind_sockets paths (path ∷ before) entries in
    elim (bind_forward_socket (paths before path)).1 [
      | ok u ↦ record rest { sockets = path ∷ rest.sockets }
      | err e ↦ bound_nothing (err (NuxError.io e))
    ]

unfoldable pub bind_all :
    (List ℕ → ℕ → Bool)
    → (List Text → Text → Paths)
    → List (ℕ × Text)
    → List (Text × (Text × List ℕ))
    → Bound
unfolding bind_ports bind_sockets
bind_all binds paths forward forward_unix =
    let tcp = bind_ports binds [] forward in
    let unix = bind_sockets paths [] forward_unix in
    elim tcp.result [ err e ↦ tcp | ok u ↦ record unix { ports = tcp.ports } ]

-- The session that `run_client_session` is called for.
pub record Joining (Peer : Type 0) : Type 0 where
  pub guard_peer : Peer
  pub guard_addr : List (Protocol Peer)
  pub roles : List (List ℕ)

-- What a start comes to; `none` where it still waits for the network.
pub record Start (Peer : Type 0) : Type 0 where
  pub bound : Bound
  pub outcome : Option (NuxResult (Joining Peer))

abbrev pub stopped : {Peer : Type 0} → Option (NuxResult (Joining Peer)) → Start Peer
stopped outcome = record { bound = bound_nothing (ok tt); outcome = outcome }

-- What the world does around a client: how the join goes, whether the Guard is still connected then,
-- the events of the handshake with the identities of its requests and the clock, and the ports and
-- paths of the machine.
pub record World {Peer Name : Type 0} (e : Eq Peer) (names : Eq Name)
    (namespace : Text → Option Name) : Type 0 where
  pub dial : Dial.World e names namespace
  pub connected : Bool
  pub first : ℕ
  pub second : ℕ
  pub clock : ℕ
  pub events : List (ClientEvent Peer)
  pub binds : List ℕ → ℕ → Bool
  pub paths : List Text → Text → Paths

module _ {Peer Name Keypair File Multiaddr Ip : Type 0} (e : Eq Peer) (names : Eq Name)
    (namespace : Text → Option Name) (keys : Ed25519 Keypair) (ip : Eq Ip)
    (host : Host Keypair File Multiaddr) (sign : Keypair → List ℕ → Option (List ℕ)) where
  -- Behind the join: the handshake, then the ports and sockets.
  unfoldable pub serve_guard :
      World e names namespace
      → Keypair
      → Peer × List (Protocol Peer)
      → List (ℕ × Text)
      → List (Text × (Text × List ℕ))
      → Start Peer
  serve_guard w keypair (peer, addr) forward forward_unix =
      let exchange =
        authenticate e (sign keypair) w.connected peer w.first w.second w.clock w.events in
      elim exchange.outcome [
        | none ↦ stopped none
        | some (err x) ↦ stopped (some (err x))
        | some (ok roles) ↦
            let b = bind_all w.binds w.paths forward forward_unix in
            let joining : Joining Peer = record {
              guard_peer = peer;
              guard_addr = addr;
              roles = roles;
            } in
            record {
              bound = b;
              outcome = some (elim b.result [ err x ↦ err x | ok u ↦ ok joining ]);
            }
      ]

  unfoldable pub start_client :
      World e names namespace
      → DialTarget (List (Protocol Peer))
      → Option File
      → List (ℕ × Text)
      → List (Text × (Text × List ℕ))
      → Start Peer
  unfolding serve_guard builder
  start_client w target identity forward forward_unix =
      elim (build keys ip host (builder host NodeMode.client identity)) [
        | err x ↦ stopped (some (err x))
        | ok node ↦ elim (join_guard e names namespace w.dial target) [
          | none ↦ stopped none
          | some (err x) ↦ stopped (some (err x))
          | some (ok found) ↦ serve_guard w node.keypair found forward forward_unix
        ]
      ]

-- ===== src/Node/Journey.antt =====
-- crates/nux-core/src/node.rs and tunnel/mod.rs: a tunnel from the client's `open` through the Guard's
-- loop and `serve_io` to the local service, with the same bytes at both ends.
mod Tests
use nux_auth.Prelude.{
  ℕ, suc, ◌<◌, ◌≡◌, ◌∙◌, ap, sym, true, List, [], ◌∷◌, ◌++◌, none, some, any, arith, length, count,
  refl, bytes_eq, bytes_beq, ok,
}
use mathlib.Core.List.{append-nil}
use nux_auth.Prelude.Assoc.{lookup}
use nux_auth.Auth
use nux_auth.Net.{Net}
use nux_auth.Whitelist.{Roles}
use nux_auth.Protocol.{TunnelHeader, tunnel_ack}
use nux_auth.Protocol.Codec.{Bincode}
use nux_auth.Tunnel.{TunnelRegistry, ExposedService}
use nux_auth.Tunnel.Header.{write_header, read_header, read_header-write}
use nux_auth.Tunnel.Serve.{World, connect, send, relay, serve_io}
use nux_auth.Tunnel.Silence.{MayPass, is_served}
use nux_auth.Tunnel.Client.{open_tunnel, sent_bytes, serve_io-acknowledged, open_tunnel-accepted}
use nux_auth.Node.Loop.{GuardLoop, Caps, accept_stream, semaphore_of}
use nux_auth.Node.Permits.{Conserved, holds}
use nux_auth.Node.Streams.{accept_stream_iff}

module _ {Peer Key : Type 0} (net : Net Peer Key) (caps : Caps) (g : GuardLoop Peer)
    (p : Peer) where
  -- The loop takes a stream of the peer.
  pub record HasRoom (roles : Roles) : Type 0 where
    pub conserved : Conserved caps g
    pub up : g.node.shutdown_deadline ≡ none
    pub session : Auth.session_roles net g.node.authenticator p ≡ some roles
    pub below_total : length g.tasks < caps.max_streams_total
    pub below_cap : count (holds (semaphore_of net g p).1) g.tasks < caps.per_peer_cap

module _ {Peer Key Addr : Type 0} (net : Net Peer Key) (registry : TunnelRegistry Peer Addr)
    (p : Peer) where
  -- The registry gives the service to these roles and to this binary.
  pub record Exposes (roles : Roles) (service hash : List ℕ) (target : ExposedService Addr)
      : Type 0 where
    pub exposed : lookup bytes_eq service registry.services ≡ some target
    pub holds_role :
        (required : List ℕ)
        → target.required_role ≡ some required
        → any (λ role. bytes_beq role required) roles ≡ true
    pub fingerprint :
        (expected : List ℕ)
        → lookup net.peer p registry.attested_binaries ≡ some expected
        → net.constant_time_eq hash expected ≡ true

module _ {Peer Key Addr : Type 0} (net : Net Peer Key) (bin : Bincode TunnelHeader)
    (registry : TunnelRegistry Peer Addr) (caps : Caps) (g : GuardLoop Peer) (p : Peer) where
  -- A peer with a session, in a loop with room, that asks for a service which its roles and its binary
  -- reach: the loop takes its stream, and where the Guard reads in time what the client has written,
  -- the service can be connected to, and the acknowledgement is written and flushed, the Guard connects
  -- to that service, acknowledges, relays and counts the stream as served, and the client has a tunnel
  -- whose content is what follows the Guard's one byte.
  pub session_reaches_service :
      (roles : Roles) (world : World Addr) (service hash sent relayed : List ℕ)
      (target : ExposedService Addr)
      → HasRoom net caps g p roles
      → Exposes net registry p roles service hash target
      → write_header bin ok (record { service = service; binary_sha256 = hash }) ≡ ok sent
      → world.incoming ≡ sent
      → world.timely ≡ true
      → world.connects target.target ≡ true
      → world.ack_written ≡ true
      → world.ack_flushed ≡ true
      → let r = serve_io net bin registry p roles world in
        (length (accept_stream net g p).0.tasks ≡ suc (length g.tasks))
        × (is_served r.0 ≡ true)
        × (r.1 ≡ connect target.target ∷ send tunnel_ack ∷ relay ∷ [])
        × (open_tunnel bin
              (record { opens = true; wire = ok; reply = sent_bytes world r.1 ++ relayed })
              (ok hash)
              service
            ≡ ok relayed)
  session_reaches_service roles world service hash sent relayed target room reach written arrives
        timely connects acked flushed =
      let header : TunnelHeader = record { service = service; binary_sha256 = hash } in
      let (readable, _) = read_header-write bin header sent [] written in
      let passes : MayPass net bin registry p roles world target = record {
        header = header;
        in_time = timely;
        rest = [];
        readable = ap (read_header bin) (arrives ∙ sym (append-nil sent)) ∙ readable;
        exposed = reach.exposed;
        holds_role = reach.holds_role;
        fingerprint = reach.fingerprint;
      } in
      let known = room.session in
      let (served, actions) =
        serve_io-acknowledged net bin registry p roles world
          (record { opens = true; wire = ok; reply = relayed }) service hash sent target passes
          connects acked flushed in
      (
        (accept_stream_iff net caps g p room.conserved).1
            (room.up, (ground (arith, known)), room.below_total, room.below_cap),
        served,
        actions,
        open_tunnel-accepted net bin registry p roles world
            (record {
              opens = true;
              wire = ok;
              reply = sent_bytes world (serve_io net bin registry p roles world).1 ++ relayed;
            })
            service hash sent relayed target refl written refl passes connects acked flushed,
      )

-- ===== src/Cli/Services.antt =====
-- What a Guard serves, in the words of its configuration file: crates/nux-cli/src/main.rs with
-- crates/nux-core/src/tunnel/mod.rs.
use nux_auth.Prelude.{
  ℕ, ◌≡◌, refl, sym, ◌∙◌, true, ◌&&◌, List, [], ◌∷◌, Option, none, some, arith, any, bytes_beq,
  bytes_eq, bytes_beq_iff, if◌then◌else◌, ok,
}
use nux_auth.Prelude.Assoc.{lookup, Distinct, lookup-insert}
use nux_auth.Net.{Net}
use nux_auth.Gateway.{Text}
use nux_auth.Whitelist.{Roles}
use nux_auth.Protocol.{TunnelHeader, tunnel_ack}
use nux_auth.Protocol.Codec.{Bincode}
use nux_auth.Metrics.{denied}
use nux_auth.Tunnel
use nux_auth.Tunnel.{ExposedService, TunnelRegistry, require_binary_sha256}
use nux_auth.Tunnel.Header.{read_header}
use nux_auth.Tunnel.Serve.{World, connect, send, relay, serve_io}
use nux_auth.Tunnel.Silence.{MayPass, serve_io_silent, serve_io_passes, is_send, is_served}
use nux_auth.Cli.Config.{GuardConfig}
use nux_auth.Cli.Start.{Localhost, expose_each, attest_each, registry_of}

abbrev service_of : ℕ × Option Text → ExposedService Localhost
service_of entry = record { target = record { port = entry.0 }; required_role = entry.1 }

module _ {Peer Key : Type 0} (net : Net Peer Key) where
  -- The digest of the last entry for a peer, or `found` if none names it.
  abbrev pub last_digest : Peer → List (Peer × List ℕ) → Option (List ℕ) → Option (List ℕ)
  last_digest p [] found = found
  last_digest p ((q, sha256) ∷ rest) found =
      last_digest p rest (if net.peer.beq q p then some sha256 else found)

  expose_each-services :
      (entries : List (Text × (ℕ × Option Text))) (r : TunnelRegistry Peer Localhost) (name : Text)
      → Distinct bytes_eq entries
      → lookup bytes_eq name (expose_each net entries r).services
        ≡ (elim (lookup bytes_eq name entries) [
          | none ↦ lookup bytes_eq name r.services
          | some entry ↦ some (service_of entry)
        ])
  unfolding expose_each Tunnel.expose lookup
  expose_each-services [] r name d = refl
  expose_each-services ((n, (port, role)) ∷ rest) r name d = ground (
    arith,
    bytes_beq_iff n name,
    lookup-insert bytes_eq n name (service_of (port, role)) r.services,
    expose_each-services rest (Tunnel.expose n (record { port = port }) role r) name d.1,
    d.0,
  )

  expose_each-attested :
      (entries : List (Text × (ℕ × Option Text))) (r : TunnelRegistry Peer Localhost)
      → (expose_each net entries r).attested_binaries ≡ r.attested_binaries
  unfolding expose_each Tunnel.expose
  expose_each-attested [] r = refl
  expose_each-attested ((n, (port, role)) ∷ rest) r =
      expose_each-attested rest (Tunnel.expose n (record { port = port }) role r)

  attest_each-services :
      (entries : List (Peer × List ℕ)) (r : TunnelRegistry Peer Localhost)
      → (attest_each net entries r).services ≡ r.services
  unfolding attest_each require_binary_sha256
  attest_each-services [] r = refl
  attest_each-services ((q, sha256) ∷ rest) r =
      attest_each-services rest (require_binary_sha256 net q sha256 r)

  attest_each-last :
      (entries : List (Peer × List ℕ)) (r : TunnelRegistry Peer Localhost) (p : Peer)
      → lookup net.peer p (attest_each net entries r).attested_binaries
        ≡ last_digest p entries (lookup net.peer p r.attested_binaries)
  unfolding attest_each require_binary_sha256
  attest_each-last [] r p = refl
  attest_each-last ((q, sha256) ∷ rest) r p =
      rw (← (lookup-insert net.peer q p sha256 r.attested_binaries))
        (attest_each-last rest (require_binary_sha256 net q sha256 r) p)

module _ {Peer Key Multiaddr Ip Name : Type 0} (net : Net Peer Key)
    (bin : Bincode TunnelHeader) where
  -- What entitles a stream of a peer with these roles to pass, by the configuration: its header comes
  -- in time and names a service of the file, one of the roles is the one asked for, if any, and the
  -- digest is the one that the last entry for the peer gives, if any.
  pub record ConfigAllows (cfg : GuardConfig Peer Multiaddr Ip Name) (peer : Peer) (roles : Roles)
      (world : World Localhost) (port : ℕ) (role : Option Text) : Type 0 where
    pub header : TunnelHeader
    pub in_time : world.timely ≡ true
    pub rest : List ℕ
    pub readable : read_header bin world.incoming ≡ ok (header, rest)
    pub exposed : lookup bytes_eq header.service cfg.expose ≡ some (port, role)
    pub holds_role :
        (required : Text) → role ≡ some required → any (λ r. bytes_beq r required) roles ≡ true
    pub fingerprint :
        (expected : List ℕ)
        → last_digest net peer cfg.checksum_bin none ≡ some expected
        → net.constant_time_eq header.binary_sha256 expected ≡ true

  registry-services :
      (cfg : GuardConfig Peer Multiaddr Ip Name) (name : Text)
      → Distinct bytes_eq cfg.expose
      → lookup bytes_eq name (registry_of net cfg).services
        ≡ (elim (lookup bytes_eq name cfg.expose) [
          | none ↦ none
          | some entry ↦ some (service_of entry)
        ])
  unfolding registry_of Tunnel.new lookup
  registry-services cfg name d =
      rw (attest_each-services net cfg.checksum_bin (expose_each net cfg.expose Tunnel.new))
        (expose_each-services net cfg.expose Tunnel.new name d)

  registry-attested :
      (cfg : GuardConfig Peer Multiaddr Ip Name) (p : Peer)
      → lookup net.peer p (registry_of net cfg).attested_binaries
        ≡ last_digest net p cfg.checksum_bin none
  unfolding registry_of Tunnel.new lookup
  registry-attested cfg p = ground (
    arith,
    attest_each-last net cfg.checksum_bin (expose_each net cfg.expose Tunnel.new) p,
    expose_each-attested net cfg.expose Tunnel.new,
  )

  MayPass-ConfigAllows :
      (cfg : GuardConfig Peer Multiaddr Ip Name) (peer : Peer) (roles : Roles)
      (world : World Localhost) (service : ExposedService Localhost)
      → Distinct bytes_eq cfg.expose
      → MayPass net bin (registry_of net cfg) peer roles world service
      → ConfigAllows cfg peer roles world service.target.port service.required_role
  MayPass-ConfigAllows cfg peer roles world service d m = record {
    header = m.header;
    in_time = m.in_time;
    rest = m.rest;
    readable = m.readable;
    exposed = ground (arith, registry-services cfg m.header.service d, m.exposed);
    holds_role = m.holds_role;
    fingerprint = λ expected h. m.fingerprint expected (registry-attested cfg peer ∙ h);
  }

  ConfigAllows-MayPass :
      (cfg : GuardConfig Peer Multiaddr Ip Name) (peer : Peer) (roles : Roles)
      (world : World Localhost) (port : ℕ) (role : Option Text)
      → Distinct bytes_eq cfg.expose
      → ConfigAllows cfg peer roles world port role
      → MayPass net bin (registry_of net cfg) peer roles world (service_of (port, role))
  ConfigAllows-MayPass cfg peer roles world port role d c = record {
    header = c.header;
    in_time = c.in_time;
    rest = c.rest;
    readable = c.readable;
    exposed = ground (arith, registry-services cfg c.header.service d, c.exposed);
    holds_role = c.holds_role;
    fingerprint = λ expected h. c.fingerprint expected (sym (registry-attested cfg peer) ∙ h);
  }

  -- On a Guard whose registry is made from a file with different service names, a stream that the
  -- file does not allow to any service gets no byte and causes no local connection.
  pub serve_io-unconfigured :
      (cfg : GuardConfig Peer Multiaddr Ip Name) (peer : Peer) (roles : Roles)
      (world : World Localhost)
      → Distinct bytes_eq cfg.expose
      → ((port : ℕ) (role : Option Text) → ¬ ConfigAllows cfg peer roles world port role)
      → serve_io net bin (registry_of net cfg) peer roles world ≡ (denied, [])
  serve_io-unconfigured cfg peer roles world d h =
      serve_io_silent net bin (registry_of net cfg) peer roles world (λ service m.
        h service.target.port service.required_role
          (MayPass-ConfigAllows cfg peer roles world service d m))

  -- On such a Guard, a stream that the file allows to a service leads to one connection, to the port
  -- of that service on the loopback interface; the acknowledgement is sent exactly if that connects,
  -- and the tunnel counts as served exactly if it was then written and flushed.
  pub serve_io-configured :
      (cfg : GuardConfig Peer Multiaddr Ip Name) (peer : Peer) (roles : Roles)
      (world : World Localhost) (port : ℕ) (role : Option Text)
      → Distinct bytes_eq cfg.expose
      → ConfigAllows cfg peer roles world port role
      → let r = serve_io net bin (registry_of net cfg) peer roles world in
        let local : Localhost = record { port = port } in
        (any is_send r.1 ≡ world.connects local)
        × (is_served r.0 ≡ (world.connects local && (world.ack_written && world.ack_flushed)))
        × (r.1
            ≡ connect local
              ∷ (if world.connects local
                  then send tunnel_ack
                    ∷ (if world.ack_written && world.ack_flushed then relay ∷ [] else [])
                  else []))
  serve_io-configured cfg peer roles world port role d c =
      serve_io_passes net bin (registry_of net cfg) peer roles world (service_of (port, role))
        (ConfigAllows-MayPass cfg peer roles world port role d c)

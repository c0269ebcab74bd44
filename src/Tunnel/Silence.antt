-- ===== src/Tunnel/Silence.antt =====
-- A stream that may not pass is dropped without a byte and without a local connection.
use nux_auth.Prelude.{
  ◌∙◌, ℕ, ◌≡◌, ◌⊎◌, inl, inr, refl, Bool, true, false, ◌&&◌, List, [], ◌∷◌, Option, none, some, ok,
  arith, any, bytes_beq, bytes_eq, if◌then◌else◌, Option-cases, Bool-cases, Result-cases,
}
use nux_auth.Prelude.Assoc.{lookup}
use nux_auth.Prelude.Optional.{◌>>=◌}
use nux_auth.Metrics.{TunnelOutcome, denied, served}
use nux_auth.Net.{Net}
use nux_auth.Protocol.{TunnelHeader, tunnel_ack}
use nux_auth.Protocol.Codec.{Bincode}
use nux_auth.Whitelist.{Roles}
use nux_auth.Tunnel.{TunnelRegistry, ExposedService, get, expected_binary_sha256, role_granted}
use nux_auth.Tunnel.Access.{role_granted-any}
use nux_auth.Tunnel.Header.{read_header}
use nux_auth.Tunnel.Serve.{
  World, Action, connect, send, relay, header_of, establish, acknowledge, attested, authorize,
  serve_io, relay_outcome,
}

abbrev pub is_send : {Addr : Type 0} → Action Addr → Bool
is_send (send b) = true
is_send _ = false

abbrev pub is_served : TunnelOutcome → Bool
is_served denied = false
is_served (served a b) = true

acknowledge_cases :
    {Addr : Type 0} (world : World Addr)
    → (is_served (acknowledge world).0 ≡ (world.ack_written && world.ack_flushed))
      × ((acknowledge world).1
          ≡ send tunnel_ack ∷ (if world.ack_written && world.ack_flushed then relay ∷ [] else []))
unfolding acknowledge relay_outcome
acknowledge_cases world = ground arith

establish_cases :
    {Addr : Type 0} (world : World Addr) (service : ExposedService Addr)
    → (any is_send (establish world service).1 ≡ world.connects service.target)
      × (is_served (establish world service).0
          ≡ (world.connects service.target && (world.ack_written && world.ack_flushed)))
      × ((establish world service).1
          ≡ connect service.target
            ∷ (if world.connects service.target
                then send tunnel_ack
                  ∷ (if world.ack_written && world.ack_flushed then relay ∷ [] else [])
                else []))
unfolding establish
establish_cases world service =
    let (outcome, actions) = acknowledge_cases world in
    elim (Bool-cases (world.connects service.target)) [
      | inl up ↦ rw (up, actions) (refl, outcome, refl)
      | inr down ↦ rw down (refl, refl, refl)
    ]

module _ {Peer Key : Type 0} (net : Net Peer Key) where
  holds-granted :
      (roles : Roles) (required : Option (List ℕ))
      → ((r : List ℕ) → required ≡ some r → any (λ role. bytes_beq role r) roles ≡ true)
      → role_granted net roles required ≡ true
  holds-granted roles none h = role_granted-any net roles none
  holds-granted roles (some r) h = role_granted-any net roles (some r) ∙ h r refl

module _ {Peer Key Addr : Type 0} (net : Net Peer Key) (bin : Bincode TunnelHeader) where
  -- What entitles a stream to pass, said without the code's loops.
  pub record MayPass (registry : TunnelRegistry Peer Addr) (peer : Peer) (roles : Roles)
      (world : World Addr) (service : ExposedService Addr) : Type 0 where
    pub header : TunnelHeader
    pub in_time : world.timely ≡ true
    pub rest : List ℕ
    pub readable : read_header bin world.incoming ≡ ok (header, rest)
    pub exposed : lookup bytes_eq header.service registry.services ≡ some service
    pub holds_role :
        (required : List ℕ)
        → service.required_role ≡ some required
        → any (λ role. bytes_beq role required) roles ≡ true
    pub fingerprint :
        (expected : List ℕ)
        → lookup net.peer peer registry.attested_binaries ≡ some expected
        → net.constant_time_eq header.binary_sha256 expected ≡ true

  abbrev passes :
      TunnelRegistry Peer Addr → Peer → Roles → World Addr → Option (ExposedService Addr)
  passes registry peer roles world =
      header_of bin world >>= λ header. authorize net bin registry peer roles header

  authorize-roles :
      (registry : TunnelRegistry Peer Addr) (peer : Peer) (roles : Roles) (header : TunnelHeader)
      (service : ExposedService Addr) (required : List ℕ)
      → authorize net bin registry peer roles header ≡ some service
      → service.required_role ≡ some required
      → any (λ role. bytes_beq role required) roles ≡ true
  unfolding authorize
  authorize-roles registry peer roles header service required h e =
      ground (arith, role_granted-any net roles service.required_role)

  authorize-exposed :
      (registry : TunnelRegistry Peer Addr) (peer : Peer) (roles : Roles) (header : TunnelHeader)
      (service : ExposedService Addr)
      → authorize net bin registry peer roles header ≡ some service
      → lookup bytes_eq header.service registry.services ≡ some service
  unfolding authorize get
  authorize-exposed registry peer roles header service h = ground arith

  authorize-fingerprint :
      (registry : TunnelRegistry Peer Addr) (peer : Peer) (roles : Roles) (header : TunnelHeader)
      (service : ExposedService Addr) (expected : List ℕ)
      → authorize net bin registry peer roles header ≡ some service
      → lookup net.peer peer registry.attested_binaries ≡ some expected
      → net.constant_time_eq header.binary_sha256 expected ≡ true
  unfolding authorize attested expected_binary_sha256
  authorize-fingerprint registry peer roles header service expected h e = ground arith

  header_of-read :
      (world : World Addr) (header : TunnelHeader)
      → header_of bin world ≡ some header
      → (world.timely ≡ true)
        × (rest : List ℕ) × (read_header bin world.incoming ≡ ok (header, rest))
  unfolding header_of
  header_of-read world header h = elim (Result-cases (read_header bin world.incoming)) [
    | inl ((got, rest), e) ↦
        let same : got ≡ header = ground arith in (ground arith, rest, rw (← same) e)
    | inr (x, e) ↦ absurd (ground arith)
  ]

  passes-MayPass :
      (registry : TunnelRegistry Peer Addr) (peer : Peer) (roles : Roles) (world : World Addr)
      (service : ExposedService Addr)
      → passes registry peer roles world ≡ some service
      → MayPass registry peer roles world service
  passes-MayPass registry peer roles world service h = elim (Option-cases (header_of bin world)) [
    | inl gone ↦ absurd (ground arith)
    | inr (header, got) ↦
        let ok : authorize net bin registry peer roles header ≡ some service = ground arith in
        let (timely, rest, read) = header_of-read world header got in
        record {
          header = header;
          in_time = timely;
          rest = rest;
          readable = read;
          exposed = authorize-exposed registry peer roles header service ok;
          holds_role =
              λ required e. authorize-roles registry peer roles header service required ok e;
          fingerprint =
              λ expected e. authorize-fingerprint registry peer roles header service expected ok e;
        }
  ]

  fingerprint-attested :
      (registry : TunnelRegistry Peer Addr) (peer : Peer) (header : TunnelHeader)
      → ((expected : List ℕ)
          → lookup net.peer peer registry.attested_binaries ≡ some expected
          → net.constant_time_eq header.binary_sha256 expected ≡ true)
      → attested net bin registry peer header ≡ true
  unfolding attested expected_binary_sha256
  fingerprint-attested registry peer header h =
      elim (Option-cases (lookup net.peer peer registry.attested_binaries)) [
        | inl free ↦ ground arith
        | inr (expected, e) ↦ ground (arith, h expected e)
      ]

  MayPass-passes :
      (registry : TunnelRegistry Peer Addr) (peer : Peer) (roles : Roles) (world : World Addr)
      (service : ExposedService Addr)
      → MayPass registry peer roles world service
      → passes registry peer roles world ≡ some service
  unfolding header_of authorize get
  MayPass-passes registry peer roles world service m = ground (
    arith,
    m.in_time,
    m.readable,
    m.exposed,
    holds-granted net roles service.required_role m.holds_role,
    fingerprint-attested registry peer m.header m.fingerprint,
  )

  -- Radio silence: a stream that may not pass to any service gets no byte, causes no local
  -- connection, and counts as refused.
  pub serve_io_silent :
      (registry : TunnelRegistry Peer Addr) (peer : Peer) (roles : Roles) (world : World Addr)
      → ((service : ExposedService Addr) → ¬ MayPass registry peer roles world service)
      → serve_io net bin registry peer roles world ≡ (denied, [])
  unfolding serve_io
  serve_io_silent registry peer roles world h =
      elim (Option-cases (passes registry peer roles world)) [
        | inl gone ↦ ground arith
        | inr (service, e) ↦ absurd (h service (passes-MayPass registry peer roles world service e))
      ]

  serve_io-establish :
      (registry : TunnelRegistry Peer Addr) (peer : Peer) (roles : Roles) (world : World Addr)
      (service : ExposedService Addr)
      → MayPass registry peer roles world service
      → serve_io net bin registry peer roles world ≡ establish world service
  unfolding serve_io
  serve_io-establish registry peer roles world service m =
      ground (arith, MayPass-passes registry peer roles world service m)

  -- A stream that may pass leads to one connection, to the address of the service that it named.
  -- A byte is sent only if that connects, it is the acknowledgement and nothing else, and the
  -- tunnel counts as served exactly if that byte was then written and flushed.
  pub serve_io_passes :
      (registry : TunnelRegistry Peer Addr) (peer : Peer) (roles : Roles) (world : World Addr)
      (service : ExposedService Addr)
      → MayPass registry peer roles world service
      → let r = serve_io net bin registry peer roles world in
        (any is_send r.1 ≡ world.connects service.target)
        × (is_served r.0
            ≡ (world.connects service.target && (world.ack_written && world.ack_flushed)))
        × (r.1
            ≡ connect service.target
              ∷ (if world.connects service.target
                  then send tunnel_ack
                    ∷ (if world.ack_written && world.ack_flushed then relay ∷ [] else [])
                  else []))
  serve_io_passes registry peer roles world service m =
      rw (serve_io-establish registry peer roles world service m) (establish_cases world service)

  -- A stream is dropped in silence, or it may pass to a service.
  pub serve_io-cases :
      (registry : TunnelRegistry Peer Addr) (peer : Peer) (roles : Roles) (world : World Addr)
      → (serve_io net bin registry peer roles world ≡ (denied, []))
        ⊎ ((service : ExposedService Addr) × MayPass registry peer roles world service)
  unfolding serve_io
  serve_io-cases registry peer roles world =
      elim (Option-cases (passes registry peer roles world)) [
        | inl gone ↦ inl (ground arith)
        | inr (service, e) ↦ inr (service, passes-MayPass registry peer roles world service e)
      ]

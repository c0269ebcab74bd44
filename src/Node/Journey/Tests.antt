-- ===== src/Node/Journey/Tests.antt =====
-- Peer 7, which has a session with the role that the service asks for.
use nux_auth.Prelude.{ℕ, suc, ◌≡◌, refl, true, List, [], ◌∷◌, ◌++◌, none, some, ok, arith, length}
use nux_auth.Prelude.Assoc.{lookup}
use nux_auth.Fixtures.{toy_net, toy_headers}
use nux_auth.Metrics.{default}
use nux_auth.Auth.{session_roles}
use nux_auth.Whitelist.Laws.{roles-lookup}
use nux_auth.Protocol.{tunnel_ack}
use nux_auth.Protocol.Codec.{encode}
use nux_auth.Tunnel.{TunnelRegistry, ExposedService}
use nux_auth.Tunnel.Header.{write_header, header_len}
use nux_auth.Tunnel.Serve.{World, connect, send, relay, serve_io}
use nux_auth.Tunnel.Silence.{is_served}
use nux_auth.Tunnel.Client.{open_tunnel, sent_bytes}
use nux_auth.Node.{NuxNode}
use nux_auth.Node.Loop.{GuardLoop, Caps, start, accept_stream, semaphore_of}
use nux_auth.Node.Permits.{start-Conserved}
use nux_auth.Node.Journey.{HasRoom, Exposes, session_reaches_service}

abbrev admin : List ℕ
admin = 97 ∷ []

abbrev ssh : ExposedService ℕ
ssh = record { target = 22; required_role = some admin }

abbrev registry : TunnelRegistry ℕ ℕ
registry = record {
  services = (115 ∷ [], ssh) ∷ [];
  max_streams_per_peer = 1;
  max_streams_total = 2;
  attested_binaries = (7, 5 ∷ []) ∷ [];
}

abbrev node : NuxNode ℕ
node = record {
  authenticator = record {
    whitelist = (7, admin ∷ []) ∷ [];
    pending = [];
    sessions = (7, admin ∷ []) ∷ [];
  };
  shutdown_deadline = none;
  metrics = default;
}

abbrev caps : Caps
caps = record { max_streams_total = 2; per_peer_cap = 1 }

abbrev loop : GuardLoop ℕ
loop = start caps node true

abbrev frame : List ℕ
frame = 0 ∷ 3 ∷ 1 ∷ 115 ∷ 5 ∷ []

abbrev world : World ℕ
world = record {
  incoming = frame;
  timely = true;
  connects = λ a. true;
  ack_written = true;
  ack_flushed = true;
  copied = ok (10, 20);
}

frame_written :
    write_header toy_headers ok (record { service = 115 ∷ []; binary_sha256 = 5 ∷ [] }) ≡ ok frame
unfolding write_header encode header_len
frame_written = refl

room : HasRoom toy_net caps loop 7 (admin ∷ [])
unfolding start session_roles semaphore_of lookup
room = record {
  conserved = start-Conserved toy_net caps node true;
  up = refl;
  session = rw (roles-lookup toy_net ((7, admin ∷ []) ∷ []) 7 (refl, tt)) refl;
  below_total = omega arith;
  below_cap = omega arith;
}

reach : Exposes toy_net registry 7 (admin ∷ []) (115 ∷ []) (5 ∷ []) ssh
unfolding lookup
reach = record {
  exposed = refl;
  holds_role = λ required e. ground arith;
  fingerprint = λ expected e. ground arith;
}

session_reaches_service_example :
    let r = serve_io toy_net toy_headers registry 7 (admin ∷ []) world in
    (length (accept_stream toy_net loop 7).0.tasks ≡ suc (length loop.tasks))
    × (is_served r.0 ≡ true)
    × (r.1 ≡ connect 22 ∷ send tunnel_ack ∷ relay ∷ [])
    × (open_tunnel toy_headers
          (record { opens = true; wire = ok; reply = sent_bytes world r.1 ++ 8 ∷ [] })
          (ok (5 ∷ []))
          (115 ∷ [])
        ≡ ok (8 ∷ []))
session_reaches_service_example =
    session_reaches_service toy_net toy_headers registry caps loop 7 (admin ∷ []) world (115 ∷ [])
      (5 ∷ []) frame (8 ∷ []) ssh room reach frame_written refl refl refl refl refl

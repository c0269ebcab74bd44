-- ===== src/Tunnel/Tests.antt =====
-- The tunnels on concrete streams.
use nux_auth.Prelude.{ℕ, ◌≡◌, refl, true, List, [], ◌∷◌, some, ok, arith}
use nux_auth.Prelude.Assoc.{lookup}
use nux_auth.Fixtures.{toy_net, toy_headers}
use nux_auth.Metrics.{denied}
use nux_auth.Protocol.{TunnelHeader}
use nux_auth.Protocol.Codec.{encode, decode}
use nux_auth.Tunnel.{TunnelRegistry, ExposedService}
use nux_auth.Tunnel.Header.{write_header, read_header, header_len, read_u16, read_exact}
use nux_auth.Tunnel.Serve.{World, serve_io}
use nux_auth.Tunnel.Silence.{MayPass, serve_io_silent}
use nux_auth.Tunnel.Client.{Remote}
use nux_auth.Tunnel.Forward.{Wake, accepted, failed, cancelled}

abbrev admin : List ℕ
admin = 97 ∷ []

abbrev ssh : ExposedService ℕ
ssh = record { target = 22; required_role = some admin }

-- One service, named by the byte 115, for the role `admin`.
abbrev registry : TunnelRegistry ℕ ℕ
registry = record {
  services = (115 ∷ [], ssh) ∷ [];
  max_streams_per_peer = 2;
  max_streams_total = 3;
  attested_binaries = (7, 5 ∷ []) ∷ [];
}

abbrev header : TunnelHeader
header = record { service = 115 ∷ []; binary_sha256 = 5 ∷ [] }

abbrev frame : List ℕ
frame = 0 ∷ 3 ∷ 1 ∷ 115 ∷ 5 ∷ []

abbrev world : World ℕ
world = record {
  incoming = frame;
  timely = true;
  connects = λ a. true;
  ack_written = true;
  ack_flushed = true;
  copied = ok (10, 20);
}

frame_written : write_header toy_headers ok header ≡ ok frame
unfolding write_header encode header_len
frame_written = refl

frame_read : read_header toy_headers frame ≡ ok (header, [])
unfolding read_header read_u16 read_exact decode
frame_read = refl

-- The role that the service asks for is not among those of the peer.
barred : (service : ExposedService ℕ) → ¬ MayPass toy_net toy_headers registry 7 [] world service
unfolding lookup
barred service m = let r = frame_read in ground (arith, m.readable, m.exposed, m.holds_role admin)

entitled : MayPass toy_net toy_headers registry 7 (admin ∷ []) world ssh
unfolding lookup
entitled = record {
  header = header;
  in_time = refl;
  rest = [];
  readable = frame_read;
  exposed = refl;
  holds_role = λ required e. ground arith;
  fingerprint = λ expected e. ground arith;
}

serve_io_silent_example : serve_io toy_net toy_headers registry 7 [] world ≡ (denied, [])
serve_io_silent_example = serve_io_silent toy_net toy_headers registry 7 [] world barred

abbrev remote : List ℕ → Remote
remote reply = record { opens = true; wire = ok; reply = reply }

abbrev wakes : List (Wake ℕ)
wakes = accepted 1000 ∷ failed ∷ accepted 0 ∷ cancelled ∷ accepted 1000 ∷ []

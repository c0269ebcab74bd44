-- ===== src/Cli/Tests.antt =====
-- The command line on concrete files.
use nux_auth.Prelude.{
  ℕ, ◌≡◌, refl, List, [], ◌∷◌, none, some, Option, length, arith, ok, err, is_ok, any, true, false,
}
use nux_auth.Fixtures.{toy_net}
use nux_auth.Gateway.{
  Text, ConfigNodeGuardInput, validate_input, validate_exempt, validate_allow, validate_check_sum,
}
use nux_auth.Whitelist
use nux_auth.Metrics.{default}
use nux_auth.Prelude.Assoc.{lookup}
use nux_auth.Node.{NuxNode, Chance}
use nux_auth.Node.Loop.{Caps}
use nux_auth.Error.{NuxError, NuxResult}
use nux_auth.Cli.{Tables, parsers}
use nux_auth.Cli.Config.{
  GuardConfig, raw_config, resolve, load, load_exempt, load_allow, load_expose, load_checksum_bin,
}
use nux_auth.Cli.Remote.{apply_remote_config}
use nux_auth.Cli.Valid.{IsValid, load-IsValid}
use nux_auth.Cli.Accepts.{acceptable, load_accepts}
use nux_auth.Cli.Applied.{Updated, remote_of, apply_remote_config-load}
use nux_auth.Cli.Sync.{
  Companion, Response, answered, unreachable, fetch_remote_config, unchanged, poll, polls,
  failed_sighup_lost,
}
use nux_auth.Cli.Services.{ConfigAllows, serve_io-configured}
use nux_auth.Cli.Start.{Localhost, RelayWorld, registry_of}
use nux_auth.Builder.{Host}
use nux_auth.Identity.{Ed25519}
use nux_auth.Protocol.{TunnelHeader, tunnel_ack}
use nux_auth.Protocol.Codec.{decode}
use nux_auth.Tunnel.Header.{read_header, read_u16, read_exact}
use nux_auth.Tunnel.Serve.{World, connect, send, relay, serve_io}
use nux_auth.Tunnel.Silence.{is_send, is_served}
use nux_auth.Fixtures.{toy_headers}
use nux_auth.Cli.Sample.{toy_toml, toy_disk, toy_formats, tables_coding}

abbrev digest : Text
digest =
    1 ∷ 2 ∷ 3 ∷ 4 ∷ 5 ∷ 6 ∷ 7 ∷ 8 ∷ 1 ∷ 2 ∷ 3 ∷ 4 ∷ 5 ∷ 6 ∷ 7 ∷ 8 ∷ 1 ∷ 2 ∷ 3 ∷ 4 ∷ 5 ∷ 6 ∷ 7 ∷ 8
    ∷ 1 ∷ 2 ∷ 3 ∷ 4 ∷ 5 ∷ 6 ∷ 7 ∷ 8 ∷ []

-- A file that allows peer 7 and exposes two services.
abbrev tables : Tables
tables = record {
  listen = none;
  rate_limit = none;
  allow = some (record { peer = 7 ∷ []; roles = some ((97 ∷ []) ∷ []) } ∷ []);
  expose = some (
      record { name = 112 ∷ []; port = 5432; role = some (97 ∷ []) }
      ∷ record { name = 113 ∷ []; port = 80; role = none }
      ∷ []);
  checksum_bin = none;
  relay = some (47 ∷ []);
  namespace = none;
}

abbrev file : Text
file = tables_coding.enc tables

-- What the gateway sends: peer 8 in the place of peer 7, with a digest.
abbrev input : ConfigNodeGuardInput
input = record {
  rate_limit = record { max = 5; window_secs = 10; exempt = (9 ∷ []) ∷ [] };
  allow = record { peer = 8 ∷ []; roles = [] } ∷ [];
  check_sum = record { peer = 8 ∷ []; sha256 = digest } ∷ [];
}

abbrev config : GuardConfig ℕ Text ℕ Text
config = record {
  listen =
      47 ∷ 105 ∷ 112 ∷ 52 ∷ 47 ∷ 48 ∷ 46 ∷ 48 ∷ 46 ∷ 48 ∷ 46 ∷ 48 ∷ 47 ∷ 116 ∷ 99 ∷ 112 ∷ 47 ∷ 52
      ∷ 53 ∷ 56 ∷ 56 ∷ [];
  rate_limit_max = 30;
  rate_limit_window = 60000000000;
  rate_limit_exempt = [];
  whitelist = (7, (97 ∷ []) ∷ []) ∷ [];
  expose = (112 ∷ [], (5432, some (97 ∷ []))) ∷ (113 ∷ [], (80, none)) ∷ [];
  checksum_bin = [];
  relay = some (47 ∷ []);
  namespace = none;
}

loaded : load toy_net toy_formats toy_toml (some file) ≡ ok config
unfolding load resolve raw_config load_exempt load_allow load_expose load_checksum_bin
    Whitelist.allow Whitelist.new
loaded = refl

checked : validate_input (parsers toy_formats) input ≡ ok tt
unfolding validate_input validate_exempt validate_allow validate_check_sum
checked = refl

load-IsValid_example : IsValid toy_net toy_formats config
load-IsValid_example = load-IsValid toy_net toy_formats toy_toml (some file) config loaded

load_accepts_example : is_ok (load toy_net toy_formats toy_toml (some file)) ≡ (elim (some file) [
  | none ↦ false
  | some text ↦ elim (toy_toml.from_str text) [
    | none ↦ false
    | some t ↦ acceptable toy_net toy_formats (raw_config t)
  ]
])
load_accepts_example = load_accepts toy_net toy_formats toy_toml (some file)

apply_remote_config-load_example :
    let r = apply_remote_config toy_toml toy_disk (some file) (remote_of input (50 ∷ [])) in
    (r.1 ≡ ok tt)
    × (cfg' : GuardConfig ℕ Text ℕ Text) × (load toy_net toy_formats toy_toml r.0 ≡ ok cfg')
    × Updated toy_net toy_formats config (remote_of input (50 ∷ [])) cfg'
apply_remote_config-load_example =
    apply_remote_config-load toy_net toy_formats toy_toml toy_disk file tables input (50 ∷ [])
      config loaded refl checked refl

abbrev new_answer : Text → Response
new_answer path = answered true (some (remote_of input (50 ∷ [])))

abbrev synced : Companion
synced = record { file = some file; last_updated_at = some (50 ∷ []) }

abbrev quiet : List ((Text → Response) × NuxResult (Unit {0}))
quiet =
    (new_answer, ok tt) ∷ ((λ path. unreachable), ok tt) ∷ (new_answer, err NuxError.config) ∷ []

failed_sighup_lost_example :
    let c : Companion = record { file = some file; last_updated_at = none } in
    ((poll toy_toml toy_disk [] c new_answer (err NuxError.config)).1 ≡ false)
    × (any
          (λ b. b)
          (polls toy_toml toy_disk []
            (poll toy_toml toy_disk [] c new_answer (err NuxError.config)).0
            quiet).1
        ≡ false)
unfolding fetch_remote_config apply_remote_config unchanged
failed_sighup_lost_example =
    failed_sighup_lost toy_toml toy_disk [] (record { file = some file; last_updated_at = none })
      new_answer (remote_of input (50 ∷ [])) NuxError.config quiet refl refl refl
      (refl, (refl, (refl, tt)))

abbrev node : NuxNode ℕ
node = record {
  authenticator = record {
    whitelist = (7, []) ∷ (8, []) ∷ [];
    pending = [];
    sessions = (7, []) ∷ (8, []) ∷ [];
  };
  shutdown_deadline = none;
  metrics = default;
}

abbrev caps : Caps
caps = record { max_streams_total = 2; per_peer_cap = 1 }

abbrev chance : Chance
chance = record { nonce = 1 ∷ 2 ∷ []; unix_now = 100 }

-- A stream that asks for the first service of the file.
abbrev header : TunnelHeader
header = record { service = 112 ∷ []; binary_sha256 = [] }

abbrev world : World Localhost
world = record {
  incoming = 0 ∷ 2 ∷ 1 ∷ 112 ∷ [];
  timely = true;
  connects = λ a. true;
  ack_written = true;
  ack_flushed = true;
  copied = ok (10, 20);
}

header_read : read_header toy_headers world.incoming ≡ ok (header, [])
unfolding read_header read_u16 read_exact decode
header_read = refl

config-IsValid : IsValid toy_net toy_formats config
config-IsValid = load-IsValid toy_net toy_formats toy_toml (some file) config loaded

allowed : ConfigAllows toy_net toy_headers config 7 ((97 ∷ []) ∷ []) world 5432 (some (97 ∷ []))
unfolding lookup
allowed = record {
  header = header;
  in_time = refl;
  rest = [];
  readable = header_read;
  exposed = refl;
  holds_role = λ required e. ground arith;
  fingerprint = λ expected e. ground arith;
}

serve_io-configured_example :
    let r = serve_io toy_net toy_headers (registry_of toy_net config) 7 ((97 ∷ []) ∷ []) world in
    let local : Localhost = record { port = 5432 } in
    (any is_send r.1 ≡ true)
    × (is_served r.0 ≡ true)
    × (r.1 ≡ connect local ∷ send tunnel_ack ∷ relay ∷ [])
serve_io-configured_example =
    serve_io-configured toy_net toy_headers config 7 ((97 ∷ []) ∷ []) world 5432 (some (97 ∷ []))
      config-IsValid.services allowed

-- The role that the service asks for is not among those of the peer.
barred :
    (port : ℕ) (role : Option Text) → ¬ ConfigAllows toy_net toy_headers config 7 [] world port role
unfolding lookup
barred port role m =
    let r = header_read in ground (arith, m.readable, m.exposed, m.holds_role (97 ∷ []))

abbrev absent : List ℕ → Option (List ℕ)
absent kp = none

absent-length : (kp s : List ℕ) → absent kp ≡ some s → length s ≡ 32
absent-length kp s h = cc

absent-some : (kp s : List ℕ) → absent kp ≡ some s → some s ≡ some kp
absent-some kp s h = cc

-- Keys of another kind than Ed25519.
abbrev keys : Ed25519 (List ℕ)
keys = record {
  secret_of = absent;
  ed25519_from_bytes = some;
  sized = absent-length;
  recovered = absent-some;
}

abbrev host : Host (List ℕ) ℕ Text
host = record {
  generated = 1 ∷ [];
  key_file = λ path. none;
  variable = λ name. none;
  decode_trimmed = some;
  assembled = true;
  listens = λ addr. true;
  now = 0;
}

abbrev relay_world : RelayWorld ℕ
relay_world = record {
  dialled = true;
  next_connection = none;
  circuit_listened = false;
  reservation = none;
  registration = ok tt;
}

-- ===== src/Gateway/Boot/Tests.antt =====
-- A gateway that starts with the configuration of Guard 7, which allows peer 8. An identity is the
-- text of one byte.
use nux_auth.Prelude.{
  ℕ, ◌≡◌, refl, true, List, [], ◌∷◌, ◌++◌, none, some, Option, any, ok, nat_eq, length, parse_uint,
}
use nux_auth.Prelude.Assoc.{Distinct, lookup, insert}
use nux_auth.Fixtures.{toy_net, toy_headers}
use nux_auth.Auth
use nux_auth.Identity
use nux_auth.Identity.{Ed25519}
use nux_auth.Node.{NodeMode}
use nux_auth.RateLimit
use nux_auth.RateLimit.Behaviour.{with_exemptions}
use nux_auth.Builder.{Host, Built, build, default_idle_timeout, default_request_timeout}
use nux_auth.Whitelist
use nux_auth.Whitelist.{Whitelist, Roles, same_bytes}
use nux_auth.Protocol.Codec.{decode}
use nux_auth.Tunnel
use nux_auth.Tunnel.{role_granted, expected_binary_sha256}
use nux_auth.Tunnel.Header.{read_header, read_u16, read_exact}
use nux_auth.Tunnel.Serve.{World, serve_io, header_of, authorize, attested, establish}
use nux_auth.Cli.Start.{Localhost}
use nux_auth.Gateway.{Text, Parsers, ConfigNodeGuard}
use nux_auth.Gateway.Sample.{sample_json}
use nux_auth.Gateway.Roles.{
  role_guard, role_client, roles_for_config, allowed_by, last_of, roles-allowed_by,
}
use nux_auth.Gateway.Configs.{Database, into_row, from_row}
use nux_auth.Gateway.Settings.{
  AddressParsers, Key, nux_gw_admin_token, database_url, nux_gw_api_url, Config, from_env,
  default_admin_addr, default_gateway_listen,
}
use nux_auth.Gateway.Boot.{
  Booted, boot, gateway_registry, gwapi_guard, rebuild_whitelist, allow_rows,
}
use nux_auth.Gateway.Boot.Restart.{stored, all_roles, withdrawn_at_restart}
use nux_auth.Gateway.Boot.Access.{reaches, registers, booted_reaches-registered}

abbrev parsers : Parsers ℕ
parsers = record {
  peer_id = λ t. elim t [ [] ↦ none | x ∷ xs ↦ some x ];
  ip_addr = λ t. true;
  hex_decode = some;
  trim = λ t. t;
}

abbrev guard_config : ConfigNodeGuard
guard_config = record {
  uuid = 7 ∷ [];
  rate_limit = record { max = 30; window_secs = 60; exempt = [] };
  allow = record { peer = 8 ∷ []; roles = [] } ∷ [];
  check_sum = [];
  updated_at = [];
}

abbrev db : Database
db = record { rows = (7 ∷ [], into_row sample_json guard_config []) ∷ []; works = true }

rows-stored : stored toy_net parsers sample_json db.rows ≡ some (guard_config ∷ [])
unfolding from_row into_row
rows-stored = refl

-- Peer 9 was allowed before, and the configurations no longer name it.
abbrev live : Whitelist ℕ
live = (9, role_client ∷ []) ∷ []

only_9 : Distinct toy_net.peer live
unfolding lookup
only_9 = (refl, tt)

withdrawn_at_restart_example :
    (Whitelist.roles toy_net (allowed_by toy_net live (roles_for_config parsers guard_config)) 9
      ≡ Whitelist.roles toy_net live 9)
    × (rebuilt : Whitelist ℕ) × (rebuild_whitelist toy_net parsers sample_json db ≡ some rebuilt)
    × (Whitelist.roles toy_net rebuilt 9 ≡ none)
unfolding roles_for_config
withdrawn_at_restart_example =
    withdrawn_at_restart toy_net parsers sample_json live guard_config db (guard_config ∷ []) 9
      only_9 refl refl rows-stored refl

abbrev toy_addresses : AddressParsers Text Text
toy_addresses = record { socket_addr = some; multiaddr = some; trim = λ t. t }

abbrev secret_token : Text
secret_token = 1 ∷ 2 ∷ 3 ∷ 4 ∷ 5 ∷ 6 ∷ 7 ∷ 8 ∷ 1 ∷ 2 ∷ 3 ∷ 4 ∷ 5 ∷ 6 ∷ 7 ∷ 8 ∷ []

abbrev env : Key → Option Text
env nux_gw_admin_token = some secret_token
env database_url = some (1 ∷ [])
env nux_gw_api_url = some (2 ∷ 47 ∷ [])
env _ = none

abbrev settings : Config Text Text
settings = record {
  admin_addr = default_admin_addr;
  listen = default_gateway_listen;
  identity_file = none;
  guard_port = 8089;
  client_port = 8090;
  database = 1 ∷ [];
  dashboard_base_url = 2 ∷ [];
  admin_token = secret_token;
  dashboard_token = none;
  upstream_timeout_secs = 10;
}

valid : from_env toy_addresses env ≡ ok settings
unfolding from_env parse_uint
valid = refl

abbrev absent : List ℕ → Option (List ℕ)
absent kp = none

absent-length : (kp s : List ℕ) → absent kp ≡ some s → length s ≡ 32
absent-length kp s h = cc

absent-some : (kp s : List ℕ) → absent kp ≡ some s → some s ≡ some kp
absent-some kp s h = cc

abbrev keys : Ed25519 (List ℕ)
keys = record {
  secret_of = absent;
  ed25519_from_bytes = some;
  sized = absent-length;
  recovered = absent-some;
}

abbrev secret : List ℕ
secret = secret_token ++ secret_token

abbrev host : Host (List ℕ) Text Text
host = record {
  generated = [];
  key_file = λ path. none;
  variable = λ name. some secret;
  decode_trimmed = some;
  assembled = true;
  listens = λ addr. true;
  now = 0;
}

abbrev node : Built (List ℕ) Text ℕ
node = record {
  mode = NodeMode.guard;
  keypair = secret;
  limiter = with_exemptions nat_eq RateLimit.default_max_per_window RateLimit.default_window [] 0;
  listening = default_gateway_listen ∷ [];
  idle_timeout = default_idle_timeout;
  request_timeout = default_request_timeout;
}

abbrev started : Whitelist ℕ
started = allowed_by toy_net [] (all_roles toy_net parsers sample_json (guard_config ∷ []))

abbrev booted : Booted toy_net parsers sample_json (List ℕ) Text ℕ
booted = record {
  node = node;
  authenticator = Auth.new started;
  registry = gateway_registry settings.guard_port settings.client_port;
}

boots :
    boot toy_net parsers sample_json keys nat_eq host (from_env toy_addresses env) (some db)
    ≡ some booted
unfolding boot from_env parse_uint build allow_rows allowed_by from_row into_row Identity.from_env
    roles_for_config
boots = refl

roles_of_7 :
    Whitelist.roles toy_net booted.authenticator.whitelist 7 ≡ some (role_guard ∷ role_client ∷ [])
unfolding Auth.new roles_for_config last_of
roles_of_7 =
    roles-allowed_by toy_net [] (all_roles toy_net parsers sample_json (guard_config ∷ [])) 7 tt

-- A stream for the service "gwapi-guard".
abbrev world : World Localhost
world = record {
  incoming = 0 ∷ 12 ∷ 11 ∷ gwapi_guard;
  timely = true;
  connects = λ a. true;
  ack_written = true;
  ack_flushed = true;
  copied = ok (10, 20);
}

reached :
    reaches settings.guard_port
      (serve_io toy_net toy_headers booted.registry 7 (role_guard ∷ role_client ∷ []) world).1
    ≡ true
unfolding serve_io gateway_registry header_of read_header read_u16 read_exact decode authorize
    Tunnel.get lookup insert role_granted same_bytes attested expected_binary_sha256 establish
    Tunnel.role_loop
reached = refl

booted_reaches-registered_example :
    any (registers toy_net toy_headers parsers sample_json 7) (guard_config ∷ []) ≡ true
booted_reaches-registered_example =
    booted_reaches-registered toy_net toy_headers parsers sample_json keys nat_eq host toy_addresses
      env settings db (guard_config ∷ []) booted 7 (role_guard ∷ role_client ∷ []) world valid boots
      rows-stored roles_of_7 reached

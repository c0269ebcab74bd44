-- ===== src/Gateway/Tests.antt =====
-- The gateway on concrete requests: an identity is the text of one byte.
use nux_auth.Prelude.{◌++◌, Option, parse_uint, ℕ, ◌≡◌, refl, true, List, [], ◌∷◌, none, some, ok}
use nux_auth.Fixtures.{toy_net}
use nux_auth.Gateway.{Text, ConfigNodeGuardInput, Parsers, validate_input}
use nux_auth.Gateway.Limiter.{WindowLimiter}
use nux_auth.Gateway.Roles.{role_guard, role_client, last_of, roles_for_config, commands}
use nux_auth.Gateway.Configs.{config_of, put_config, get_config, put_config-get}
use nux_auth.Gateway.Settings.{
  AddressParsers, Key, nux_gw_admin_token, database_url, nux_gw_api_url, nux_gw_client_port, Config,
  default_admin_addr, default_gateway_listen, from_env, required_token, not_blank, trim_slashes,
}
use nux_auth.Gateway.Proxy.{Method, DashboardRequest, AppState, nodes_path, state_path}
use nux_auth.Gateway.Sample.{sample_json}
use nux_auth.Whitelist.{Roles}

abbrev limiter : WindowLimiter
limiter = record { max_per_window = 2; window_secs = 60; window_start = 0; count = 2 }

-- The Guard 7 is also among the peers that it allows.
abbrev entries : List (ℕ × Roles)
entries = (7, role_guard ∷ role_client ∷ []) ∷ (8, role_client ∷ []) ∷ (7, role_client ∷ []) ∷ []

-- What `last_of` comes to: the role of a Guard is lost.
demoted : last_of toy_net 7 entries none ≡ some (role_client ∷ [])
unfolding last_of
demoted = refl

abbrev parsers : Parsers ℕ
parsers = record {
  peer_id = λ t. elim t [ [] ↦ none | x ∷ xs ↦ some x ];
  ip_addr = λ t. true;
  hex_decode = some;
  trim = λ t. t;
}

abbrev input : ConfigNodeGuardInput
input = record {
  rate_limit = record { max = 30; window_secs = 60; exempt = [] };
  allow = record { peer = 8 ∷ []; roles = [] } ∷ [];
  check_sum = [];
}

input-valid : validate_input parsers input ≡ ok tt
unfolding validate_input
input-valid = refl

put_config-get_example :
    let r = put_config parsers sample_json (record { rows = []; works = true }) (7 ∷ []) input [] in
    let saved = config_of (7 ∷ []) input [] in
    (r.answer ≡ some (ok saved))
    × (r.sent ≡ commands (roles_for_config parsers saved))
    × (get_config parsers sample_json (record { rows = r.table; works = true }) (7 ∷ [])
        ≡ some (ok saved))
put_config-get_example =
    put_config-get parsers sample_json [] (7 ∷ []) (7 ∷ []) input [] refl input-valid

abbrev secret_token : Text
secret_token = 1 ∷ 2 ∷ 3 ∷ 4 ∷ 5 ∷ 6 ∷ 7 ∷ 8 ∷ 1 ∷ 2 ∷ 3 ∷ 4 ∷ 5 ∷ 6 ∷ 7 ∷ 8 ∷ []

abbrev parse_settings : AddressParsers Text Text
parse_settings = record { socket_addr = some; multiaddr = some; trim = λ t. t }

abbrev env : Key → Option Text
env nux_gw_admin_token = some secret_token
env database_url = some (1 ∷ [])
env nux_gw_api_url = some (2 ∷ 47 ∷ 47 ∷ [])
env nux_gw_client_port = some (49 ∷ 48 ∷ [])
env _ = none

abbrev settings : Config Text Text
settings = record {
  admin_addr = default_admin_addr;
  listen = default_gateway_listen;
  identity_file = none;
  guard_port = 8089;
  client_port = 10;
  database = 1 ∷ [];
  dashboard_base_url = 2 ∷ [];
  admin_token = secret_token;
  dashboard_token = none;
  upstream_timeout_secs = 10;
}

started : from_env parse_settings env ≡ ok settings
unfolding from_env required_token not_blank trim_slashes parse_uint
started = refl

abbrev dashboard : AppState
dashboard = record { dashboard_base_url = 2 ∷ []; dashboard_token = some (9 ∷ []) }

abbrev relayed : DashboardRequest
relayed = record {
  method = Method.post;
  url = 2 ∷ (nodes_path ++ (5 ∷ [] ++ state_path));
  body = some (114 ∷ 101 ∷ 108 ∷ 97 ∷ 121 ∷ []);
  bearer = some (9 ∷ []);
}

-- ===== src/Gateway/Settings.antt =====
-- nux_gateway/src/config.rs: the settings of the gateway, from its environment.
use nux_auth.Prelude.{
  ℕ, ◌≤◌, ◌≡◌, ◌≢◌, Bool, true, false, not, [], ◌∷◌, Option, none, some, arith, length, ltb, ◌==◌,
  if◌then◌else◌, Result, ok, err, ◌>>=◌, or_fail, parse_uint,
}
use nux_auth.Gateway.{Text}

abbrev pub min_token_len : ℕ
min_token_len = 16

-- The names of the variables.
pub data Key : Type 0 where
  nux_gw_admin_addr nux_gw_listen nux_gw_identity_file nux_gw_guard_port : Key
  nux_gw_client_port database_url nux_gw_api_url nux_gw_admin_token : Key
  nux_gw_dashboard_token : Key

pub record Config (SocketAddr Multiaddr : Type 0) : Type 0 where
  pub admin_addr : SocketAddr
  pub listen : Multiaddr
  pub identity_file : Option Text
  pub guard_port : ℕ
  pub client_port : ℕ
  pub database : Text
  pub dashboard_base_url : Text
  pub admin_token : Text
  pub dashboard_token : Option Text
  pub upstream_timeout_secs : ℕ

-- The parsers of addresses, and `trim`.
pub record AddressParsers (SocketAddr Multiaddr : Type 0) : Type 0 where
  pub socket_addr : Text → Option SocketAddr
  pub multiaddr : Text → Option Multiaddr
  pub trim : Text → Text

-- "0.0.0.0:8088", "/ip4/0.0.0.0/tcp/4589", "8089" and "8090"
abbrev pub default_admin_addr : Text
default_admin_addr = 48 ∷ 46 ∷ 48 ∷ 46 ∷ 48 ∷ 46 ∷ 48 ∷ 58 ∷ 56 ∷ 48 ∷ 56 ∷ 56 ∷ []

abbrev pub default_gateway_listen : Text
default_gateway_listen =
    47 ∷ 105 ∷ 112 ∷ 52 ∷ 47 ∷ 48 ∷ 46 ∷ 48 ∷ 46 ∷ 48 ∷ 46 ∷ 48 ∷ 47 ∷ 116 ∷ 99 ∷ 112 ∷ 47 ∷ 52 ∷ 53
    ∷ 56 ∷ 57 ∷ []

abbrev pub default_guard_port : Text
default_guard_port = 56 ∷ 48 ∷ 56 ∷ 57 ∷ []

abbrev pub default_client_port : Text
default_client_port = 56 ∷ 48 ∷ 57 ∷ 48 ∷ []

-- `trim_end_matches('/')`
unfoldable pub trim_slashes : Text → Text
trim_slashes [] = []
trim_slashes (c ∷ cs) = elim (trim_slashes cs) [
  | [] ↦ if c == 47 then [] else c ∷ []
  | d ∷ ds ↦ c ∷ d ∷ ds
]

abbrev pub u16_max : ℕ
u16_max = 65535

-- Every error is a text, which is left out.
abbrev pub Checked : Type 0 → Type 0
Checked = Result (Unit {0})

abbrev pub needed : {A : Type 0} → Option A → Checked A
needed o = or_fail tt o

abbrev pub check : Bool → Checked (Unit {0})
check b = if b then ok tt else err tt

-- `env_or`
abbrev pub env_or : Option Text → Text → Text
env_or none default = default
env_or (some value) default = value

unfoldable pub required_token : Option Text → Checked Text
required_token variable = do
  value ← needed variable
  _ ← check (not (ltb (length value) min_token_len))
  ok value

abbrev pub is_empty : Text → Bool
is_empty [] = true
is_empty (c ∷ cs) = false

module _ {SocketAddr Multiaddr : Type 0} (parse : AddressParsers SocketAddr Multiaddr) where
  -- A variable that is set to more than blanks.
  unfoldable pub not_blank : Option Text → Option Text
  not_blank none = none
  not_blank (some value) = if is_empty (parse.trim value) then none else some value

  unfoldable pub from_env : (Key → Option Text) → Checked (Config SocketAddr Multiaddr)
  unfolding not_blank required_token trim_slashes
  from_env env = do
    admin_addr ← needed (parse.socket_addr (env_or (env nux_gw_admin_addr) default_admin_addr))
    listen ← needed (parse.multiaddr (env_or (env nux_gw_listen) default_gateway_listen))
    guard_port ← needed (parse_uint u16_max (env_or (env nux_gw_guard_port) default_guard_port))
    client_port ← needed (parse_uint u16_max (env_or (env nux_gw_client_port) default_client_port))
    _ ← check (not (guard_port == client_port))
    database ← needed (env database_url)
    base ← needed (env nux_gw_api_url)
    admin_token ← required_token (env nux_gw_admin_token)
    ok (record {
      admin_addr = admin_addr;
      listen = listen;
      identity_file = not_blank (env nux_gw_identity_file);
      guard_port = guard_port;
      client_port = client_port;
      database = database;
      dashboard_base_url = trim_slashes base;
      admin_token = admin_token;
      dashboard_token = not_blank (env nux_gw_dashboard_token);
      upstream_timeout_secs = 10;
    })

  -- A gateway that starts has the token of its environment, of sixteen bytes or more, two different
  -- ports for its tunnels, and a token for the dashboard only if it is more than blanks.
  pub from_env-strict :
      (env : Key → Option Text) (c : Config SocketAddr Multiaddr)
      → from_env env ≡ ok c
      → (env nux_gw_admin_token ≡ some c.admin_token)
        × (16 ≤ length c.admin_token)
        × (c.guard_port ≢ c.client_port)
        × ((token : Text) → c.dashboard_token ≡ some token → is_empty (parse.trim token) ≡ false)
  unfolding from_env required_token not_blank
  from_env-strict env c h = (ground arith, ground arith, ground arith, λ token e. ground arith)

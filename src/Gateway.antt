-- ===== src/Gateway.antt =====
-- nux_gateway/src/models.rs, nux_gateway/src/error.rs and the validation of
-- nux_gateway/src/handlers/configs.rs: the configurations of Guards that the gateway keeps. A text
-- is the list of its bytes; the messages of the errors are left out.
pub mod Limiter
pub mod Roles
pub mod Configs
pub mod Bearer
pub mod Settings
pub mod Proxy
pub mod Http
pub mod Handlers
pub mod Routes
pub mod Boot
pub mod Sample
mod Tests
use nux_auth.Prelude.{
  ℕ, Bool, false, not, List, [], ◌∷◌, Option, none, some, length, ◌==◌, is_some, if◌then◌else◌,
  Result, ok, err, ◌>>=◌,
}

abbrev pub Text : Type 0
Text = List ℕ

pub data AppError : Type 0 where
  unauthorized not_found bad_request dashboard_not_configured dashboard_unreachable : AppError
  rate_limited internal : AppError

pub record RateLimit : Type 0 where
  pub max : ℕ
  pub window_secs : ℕ
  pub exempt : List Text

pub record Allow : Type 0 where
  pub peer : Text
  pub roles : List Text

pub record CheckSum : Type 0 where
  pub peer : Text
  pub sha256 : Text

pub record ConfigNodeGuardInput : Type 0 where
  pub rate_limit : RateLimit
  pub allow : List Allow
  pub check_sum : List CheckSum

pub record ConfigNodeGuard : Type 0 where
  pub uuid : Text
  pub rate_limit : RateLimit
  pub allow : List Allow
  pub check_sum : List CheckSum
  pub updated_at : Text

abbrev pub sha256_len : ℕ
sha256_len = 32

-- What the gateway parses with third-party code: identities, addresses, hexadecimal.
pub record Parsers (Peer : Type 0) : Type 0 where
  pub peer_id : Text → Option Peer
  pub ip_addr : Text → Bool
  pub hex_decode : Text → Option (List ℕ)
  pub trim : Text → Text

abbrev pub AppResult : Type 0 → Type 0
AppResult = Result AppError

abbrev pub require : Bool → AppResult (Unit {0})
require b = if b then ok tt else err AppError.bad_request

module _ {Peer : Type 0} (parse : Parsers Peer) where
  unfoldable pub validate_exempt : List Text → AppResult (Unit {0})
  validate_exempt [] = ok tt
  validate_exempt (ip ∷ ips) = do _ ← require (parse.ip_addr ip); validate_exempt ips

  unfoldable pub validate_allow : List Allow → AppResult (Unit {0})
  validate_allow [] = ok tt
  validate_allow (entry ∷ entries) = do
    _ ← require (is_some (parse.peer_id entry.peer))
    validate_allow entries

  abbrev pub is_sha256 : Text → Bool
  is_sha256 text = elim (parse.hex_decode (parse.trim text)) [
    | none ↦ false
    | some bytes ↦ length bytes == sha256_len
  ]

  unfoldable pub validate_check_sum : List CheckSum → AppResult (Unit {0})
  validate_check_sum [] = ok tt
  validate_check_sum (entry ∷ entries) = do
    _ ← require (is_some (parse.peer_id entry.peer))
    _ ← require (is_sha256 entry.sha256)
    validate_check_sum entries

  unfoldable pub validate_input : ConfigNodeGuardInput → AppResult (Unit {0})
  unfolding validate_exempt validate_allow validate_check_sum
  validate_input input = do
    _ ← require (not (input.rate_limit.window_secs == 0))
    _ ← validate_exempt input.rate_limit.exempt
    _ ← validate_allow input.allow
    validate_check_sum input.check_sum

-- ===== src/Cli.antt =====
-- crates/nux-cli/src: the command line. What it takes from third-party code to read a Guard's
-- file: the TOML crates, and the parsers of addresses, identities, names and hexadecimal digits.
pub mod Config
pub mod Valid
pub mod Remote
pub mod Accepts
pub mod Applied
pub mod Sync
pub mod Reload
pub mod Unserved
pub mod Start
pub mod Services
pub mod Starts
pub mod Args
pub mod Dial
pub mod Client
pub mod Keygen
pub mod Sample
mod Tests
use nux_auth.Prelude.{ℕ, Bool, List, Option, some, ◌≡◌, is_some}
use nux_auth.Gateway.{Text, Parsers}
use nux_auth.Error.{NuxError, NuxResult}
use nux_auth.Prelude.{ok, err, if◌then◌else◌}

pub record Formats (Peer Multiaddr Ip Name : Type 0) : Type 0 where
  -- `parse::<Multiaddr>`, `parse::<IpAddr>` and `parse::<PeerId>`
  pub multiaddr : Text → Option Multiaddr
  pub ip_addr : Text → Option Ip
  pub peer_id : Text → Option Peer
  -- `Namespace::new`
  pub namespace : Text → Option Name
  pub hex_decode : Text → Option (List ℕ)
  pub trim : Text → Text

-- The same parsers, as the gateway uses them.
abbrev pub parsers :
    {Peer Multiaddr Ip Name : Type 0} → Formats Peer Multiaddr Ip Name → Parsers Peer
parsers f = record {
  peer_id = f.peer_id;
  ip_addr = λ t. is_some (f.ip_addr t);
  hex_decode = f.hex_decode;
  trim = f.trim;
}

-- The tables of a file, with `none` for a key that is not there.
pub record RateLimitTable : Type 0 where
  pub max : Option ℕ
  pub window_secs : Option ℕ
  pub exempt : Option (List Text)

pub record AllowTable : Type 0 where
  pub peer : Text
  pub roles : Option (List Text)

pub record ExposeTable : Type 0 where
  pub name : Text
  pub port : ℕ
  pub role : Option Text

pub record ChecksumBinTable : Type 0 where
  pub peer : Text
  pub sha256 : Text

pub record Tables : Type 0 where
  pub listen : Option Text
  pub rate_limit : Option RateLimitTable
  pub allow : Option (List AllowTable)
  pub expose : Option (List ExposeTable)
  pub checksum_bin : Option (List ChecksumBinTable)
  pub relay : Option Text
  pub namespace : Option Text

-- `toml::from_str` and the editing of a document by `toml_edit`: setting one of the three keys
-- changes what is read under that key and nothing else.
pub record Toml (Document : Type 0) : Type 1 where
  pub from_str : Text → Option Tables
  pub parse : Text → Option Document
  pub to_string : Document → Text
  pub tables : Document → Option Tables
  pub set_rate_limit : RateLimitTable → Document → Document
  pub set_allow : List AllowTable → Document → Document
  pub set_checksum_bin : List ChecksumBinTable → Document → Document
  pub from_str_printed : (d : Document) → from_str (to_string d) ≡ tables d
  pub from_str_parsed : (t : Text) (d : Document) → parse t ≡ some d → from_str t ≡ tables d
  pub rate_limit_set :
      (x : RateLimitTable) (d : Document) (t : Tables)
      → tables d ≡ some t
      → tables (set_rate_limit x d) ≡ some (record t { rate_limit = some x })
  pub allow_set :
      (x : List AllowTable) (d : Document) (t : Tables)
      → tables d ≡ some t
      → tables (set_allow x d) ≡ some (record t { allow = some x })
  pub checksum_bin_set :
      (x : List ChecksumBinTable) (d : Document) (t : Tables)
      → tables d ≡ some t
      → tables (set_checksum_bin x d) ≡ some (record t { checksum_bin = some x })

-- A check that refuses a file.
abbrev pub require : Bool → NuxResult (Unit {0})
require b = if b then ok tt else err NuxError.config

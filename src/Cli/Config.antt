-- ===== src/Cli/Config.antt =====
-- crates/nux-cli/src/guard_config.rs, `load`: the configuration of a Guard from the text of its
-- file. Every error is of the kind `Config`; which of several errors is reported is not modelled.
use nux_auth.Prelude.{
  ℕ, ◌*◌, ◌/◌, ◌^◌, not, ◌&&◌, List, [], ◌∷◌, Option, none, some, ◌==◌, length, any, bytes_beq,
  is_some, is_none, ok, ◌>>=◌, or_fail, if◌then◌else◌,
}
use nux_auth.Net.{Net}
use nux_auth.Error.{NuxError, NuxResult}
use nux_auth.Gateway.{Text, sha256_len}
use nux_auth.Whitelist
use nux_auth.Whitelist.{Whitelist}
use nux_auth.RateLimit
use nux_auth.Cli.{
  Formats, RateLimitTable, AllowTable, ExposeTable, ChecksumBinTable, Tables, Toml, require,
}

-- "/ip4/0.0.0.0/tcp/4588"
abbrev pub default_listen : Text
default_listen =
    47 ∷ 105 ∷ 112 ∷ 52 ∷ 47 ∷ 48 ∷ 46 ∷ 48 ∷ 46 ∷ 48 ∷ 46 ∷ 48 ∷ 47 ∷ 116 ∷ 99 ∷ 112 ∷ 47 ∷ 52 ∷ 53
    ∷ 56 ∷ 56 ∷ []

abbrev pub default_rate_max : ℕ
default_rate_max = RateLimit.default_max_per_window

abbrev pub default_rate_window_secs : ℕ
default_rate_window_secs = RateLimit.default_window / 10 ^ 9

pub record RawRateLimit : Type 0 where
  pub max : ℕ
  pub window_secs : ℕ
  pub exempt : List Text

pub record RawAllow : Type 0 where
  pub peer : Text
  pub roles : List Text

pub record RawConfig : Type 0 where
  pub listen : Text
  pub rate_limit : RawRateLimit
  pub allow : List RawAllow
  pub expose : List ExposeTable
  pub checksum_bin : List ChecksumBinTable
  pub relay : Option Text
  pub namespace : Option Text

-- The attributes `#[serde(default)]`: what stands for a key that is not there.
abbrev pub or_else {ℓ} : {A : Type ℓ} → A → Option A → A
or_else x none = x
or_else x (some a) = a

abbrev pub raw_rate_limit : Option RateLimitTable → RawRateLimit
raw_rate_limit none = record {
  max = default_rate_max;
  window_secs = default_rate_window_secs;
  exempt = [];
}
raw_rate_limit (some t) = record {
  max = or_else default_rate_max t.max;
  window_secs = or_else default_rate_window_secs t.window_secs;
  exempt = or_else [] t.exempt;
}

abbrev pub raw_allow : List AllowTable → List RawAllow
raw_allow [] = []
raw_allow (t ∷ ts) = record { peer = t.peer; roles = or_else [] t.roles } ∷ raw_allow ts

unfoldable pub raw_config : Tables → RawConfig
raw_config t = record {
  listen = or_else default_listen t.listen;
  rate_limit = raw_rate_limit t.rate_limit;
  allow = raw_allow (or_else [] t.allow);
  expose = or_else [] t.expose;
  checksum_bin = or_else [] t.checksum_bin;
  relay = t.relay;
  namespace = t.namespace;
}

-- The window is in nanoseconds, as the limiter measures it.
pub record GuardConfig (Peer Multiaddr Ip Name : Type 0) : Type 0 where
  pub listen : Multiaddr
  pub rate_limit_max : ℕ
  pub rate_limit_window : ℕ
  pub rate_limit_exempt : List Ip
  pub whitelist : Whitelist Peer
  pub expose : List (Text × (ℕ × Option Text))
  pub checksum_bin : List (Peer × List ℕ)
  pub relay : Option Multiaddr
  pub namespace : Option Name

-- `map(..).transpose()?` with a parser: a key that is there must parse.
abbrev pub optional {ℓ} : {A : Type ℓ} → (Text → Option A) → Option Text → Option (Option A)
optional parse none = some none
optional parse (some t) = elim (parse t) [ none ↦ none | some a ↦ some (some a) ]

module _ {Peer Key Multiaddr Ip Name : Type 0} (net : Net Peer Key)
    (f : Formats Peer Multiaddr Ip Name) where
  unfoldable pub parse_sha256_hex : Text → Option (List ℕ)
  parse_sha256_hex value = elim (f.hex_decode (f.trim value)) [
    | none ↦ none
    | some bytes ↦ if length bytes == sha256_len then some bytes else none
  ]

  unfoldable pub load_exempt : List Text → NuxResult (List Ip)
  load_exempt [] = ok []
  load_exempt (ip ∷ ips) = do
    parsed ← or_fail NuxError.config (f.ip_addr ip)
    rest ← load_exempt ips
    ok (parsed ∷ rest)

  unfoldable pub load_allow : List RawAllow → Whitelist Peer → NuxResult (Whitelist Peer)
  load_allow [] whitelist = ok whitelist
  load_allow (entry ∷ entries) whitelist = do
    peer ← or_fail NuxError.config (f.peer_id entry.peer)
    load_allow entries (Whitelist.allow net peer entry.roles whitelist)

  unfoldable pub load_expose :
      List ExposeTable → List Text → NuxResult (List (Text × (ℕ × Option Text)))
  load_expose [] seen = ok []
  load_expose (entry ∷ entries) seen = do
    _ ← require (not (any (bytes_beq entry.name) seen))
    rest ← load_expose entries (entry.name ∷ seen)
    ok ((entry.name, (entry.port, entry.role)) ∷ rest)

  unfoldable pub load_checksum_bin : List ChecksumBinTable → NuxResult (List (Peer × List ℕ))
  unfolding parse_sha256_hex
  load_checksum_bin [] = ok []
  load_checksum_bin (entry ∷ entries) = do
    peer ← or_fail NuxError.config (f.peer_id entry.peer)
    sha256 ← or_fail NuxError.config (parse_sha256_hex entry.sha256)
    rest ← load_checksum_bin entries
    ok ((peer, sha256) ∷ rest)

  -- `load` behind the reading of the file and of its tables.
  unfoldable pub resolve : RawConfig → NuxResult (GuardConfig Peer Multiaddr Ip Name)
  unfolding load_exempt load_allow load_expose load_checksum_bin
  resolve raw = do
    listen ← or_fail NuxError.config (f.multiaddr raw.listen)
    _ ← require (not (raw.rate_limit.window_secs == 0))
    exempt ← load_exempt raw.rate_limit.exempt
    whitelist ← load_allow raw.allow Whitelist.new
    expose ← load_expose raw.expose []
    checksum_bin ← load_checksum_bin raw.checksum_bin
    relay ← or_fail NuxError.config (optional f.multiaddr raw.relay)
    namespace ← or_fail NuxError.config (optional f.namespace raw.namespace)
    _ ← require (not (is_some namespace && is_none relay))
    ok (record {
      listen = listen;
      rate_limit_max = raw.rate_limit.max;
      rate_limit_window = raw.rate_limit.window_secs * 10 ^ 9;
      rate_limit_exempt = exempt;
      whitelist = whitelist;
      expose = expose;
      checksum_bin = checksum_bin;
      relay = relay;
      namespace = namespace;
    })

  -- `read_to_string path` has given the text, or failed.
  unfoldable pub load :
      {Document : Type 0}
      → Toml Document
      → Option Text
      → NuxResult (GuardConfig Peer Multiaddr Ip Name)
  unfolding raw_config resolve
  load toml file = do
    text ← or_fail NuxError.config file
    t ← or_fail NuxError.config (toml.from_str text)
    resolve (raw_config t)

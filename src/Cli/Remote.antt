-- ===== src/Cli/Remote.antt =====
-- crates/nux-cli/src/guard_config.rs, `apply_remote_config`: a configuration of the gateway put
-- into a Guard's file.
use nux_auth.Prelude.{
  ℕ, ◌-◌, ◌^◌, ◌≡◌, Bool, true, List, [], ◌∷◌, Option, none, some, leb, ok, err, if◌then◌else◌,
}
use nux_auth.Error.{NuxError, NuxResult}
use nux_auth.Gateway.{Text}
use nux_auth.Cli.{RateLimitTable, AllowTable, ChecksumBinTable, Toml}

pub record RemoteRateLimit : Type 0 where
  pub max : ℕ
  pub window_secs : ℕ
  pub exempt : List Text

pub record RemoteAllow : Type 0 where
  pub peer : Text
  pub roles : List Text

pub record RemoteCheckSum : Type 0 where
  pub peer : Text
  pub sha256 : Text

pub record RemoteConfig : Type 0 where
  pub rate_limit : RemoteRateLimit
  pub allow : List RemoteAllow
  pub check_sum : List RemoteCheckSum
  pub updated_at : Text

-- `fs::write` on one file: what is in the file afterwards (`none` for nothing that can be read as a
-- text), and whether the call succeeded, which it does only with the whole text in place.
pub record Disk : Type 0 where
  pub write : Option Text → Text → Option Text × Bool
  pub written : (old : Option Text) (t : Text) → (write old t).1 ≡ true → (write old t).0 ≡ some t

abbrev pub i64_max : ℕ
i64_max = 2 ^ 63 - 1

-- `i64::try_from(window_secs).unwrap_or(i64::MAX)`
abbrev pub to_i64 : ℕ → ℕ
to_i64 n = if leb n i64_max then n else i64_max

abbrev pub rate_limit_table : RemoteRateLimit → RateLimitTable
rate_limit_table r = record {
  max = some r.max;
  window_secs = some (to_i64 r.window_secs);
  exempt = some r.exempt;
}

abbrev pub allow_tables : List RemoteAllow → List AllowTable
allow_tables [] = []
allow_tables (entry ∷ entries) =
    record { peer = entry.peer; roles = some entry.roles } ∷ allow_tables entries

abbrev pub checksum_bin_tables : List RemoteCheckSum → List ChecksumBinTable
checksum_bin_tables [] = []
checksum_bin_tables (entry ∷ entries) =
    record { peer = entry.peer; sha256 = entry.sha256 } ∷ checksum_bin_tables entries

module _ {Document : Type 0} (toml : Toml Document) where
  -- The three keys of the document, in the order in which they are set.
  unfoldable pub edit : RemoteConfig → Document → Document
  edit remote doc = toml.set_checksum_bin (checksum_bin_tables remote.check_sum) (
      toml.set_allow (allow_tables remote.allow)
        (toml.set_rate_limit (rate_limit_table remote.rate_limit) doc))

  -- The file afterwards, and the answer.
  unfoldable pub apply_remote_config :
      Disk → Option Text → RemoteConfig → Option Text × NuxResult (Unit {0})
  unfolding edit
  apply_remote_config disk file remote = elim file [
    | none ↦ (none, err NuxError.config)
    | some text ↦ elim (toml.parse text) [
      | none ↦ (some text, err NuxError.config)
      | some doc ↦
          let (after, done) = disk.write (some text) (toml.to_string (edit remote doc)) in
          (after, if done then ok tt else err NuxError.config)
    ]
  ]

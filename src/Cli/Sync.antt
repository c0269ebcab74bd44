-- ===== src/Cli/Sync.antt =====
-- crates/nux-cli/src/main.rs, `sync-config`: the companion that asks the gateway for the
-- configuration of a Guard, writes it into the Guard's file and sends it SIGHUP.
use nux_auth.Prelude.{
  ◌≡◌, refl, Bool, true, false, List, [], ◌∷◌, ◌++◌, Option, none, some, arith, bytes_beq, ok, err,
  is_ok, or_fail, ◌>>=◌, if◌then◌else◌, any, All,
}
use nux_auth.Error.{NuxError, NuxResult}
use nux_auth.Gateway.{Text}
use nux_auth.Exposition.{codes}
use nux_auth.Cli.{Toml}
use nux_auth.Cli.Remote.{RemoteConfig, Disk, apply_remote_config}

-- What a request to the gateway comes back with: `json` is the body, read as a configuration.
pub data Response : Type 0 where
  unreachable : Response
  answered : Bool → Option RemoteConfig → Response

-- The path of the request, behind `http://127.0.0.1:{gateway_port}`.
abbrev pub config_path : Text → Text
config_path uuid = codes "/api/v1/private/configs/" ++ uuid

unfoldable pub read_config : Response → NuxResult RemoteConfig
read_config unreachable = err NuxError.network
read_config (answered false json) = err NuxError.network
read_config (answered true json) = or_fail NuxError.network json

-- `http` is what a GET of a path on the forwarded port comes back with.
unfoldable pub fetch_remote_config : (Text → Response) → Text → NuxResult RemoteConfig
unfolding read_config
fetch_remote_config http uuid = read_config (http (config_path uuid))

-- `Pid::from_raw` and `kill_process` are rustix's.
unfoldable pub send_sighup :
    {Raw Pid : Type 0} → (Raw → Option Pid) → (Pid → Bool) → Raw → NuxResult (Unit {0})
send_sighup from_raw kill_process pid = do
  p ← or_fail NuxError.config (from_raw pid)
  if kill_process p then ok tt else err NuxError.config

-- The Guard's file, and the stamp of the configuration that was applied last.
pub record Companion : Type 0 where
  pub file : Option Text
  pub last_updated_at : Option Text

unfoldable pub unchanged : Option Text → Text → Bool
unchanged none stamp = false
unchanged (some last) stamp = bytes_beq last stamp

module _ {Document : Type 0} (toml : Toml Document) (disk : Disk) (uuid : Text) where
  -- One turn of `sync_config_loop`: the companion afterwards, and whether SIGHUP was delivered. The
  -- last argument is what `send_sighup` answers, in the one branch that calls it.
  unfoldable pub poll : Companion → (Text → Response) → NuxResult (Unit {0}) → Companion × Bool
  unfolding fetch_remote_config unchanged
  poll c http sighup = elim (fetch_remote_config http uuid) [
    | err e ↦ (c, false)
    | ok remote ↦
        if unchanged c.last_updated_at remote.updated_at
        then (c, false)
        else let (file, applied) = apply_remote_config toml disk c.file remote in
          elim applied [
            | ok done ↦
                (record { file = file; last_updated_at = some remote.updated_at }, is_ok sighup)
            | err e ↦ (record c { file = file }, false)
          ]
  ]

  -- The polls of a run, with the answer of `send_sighup` in each.
  unfoldable pub polls :
      Companion → List ((Text → Response) × NuxResult (Unit {0})) → Companion × List Bool
  polls c [] = (c, [])
  polls c ((http, sighup) ∷ rest) =
      let once = poll c http sighup in let later = polls once.0 rest in (later.0, once.1 ∷ later.1)

  -- An answer that brings nothing new once the stamp `last` is applied: none, or the same stamp.
  abbrev pub stale : Text → (Text → Response) × NuxResult (Unit {0}) → Bool
  stale last (http, sighup) = elim (fetch_remote_config http uuid) [
    | err e ↦ true
    | ok remote ↦ bytes_beq last remote.updated_at
  ]

  -- Once a configuration is applied, polls that bring no other stamp leave the file and the
  -- companion alone and deliver no SIGHUP, whatever `send_sighup` would answer.
  pub polls_quiet :
      (c : Companion) (last : Text) (rs : List ((Text → Response) × NuxResult (Unit {0})))
      → c.last_updated_at ≡ some last
      → All (λ r. stale last r ≡ true) rs
      → ((polls c rs).0 ≡ c) × (any (λ b. b) (polls c rs).1 ≡ false)
  unfolding polls poll unchanged
  polls_quiet c last [] h q = (refl, refl)
  polls_quiet c last ((http, sighup) ∷ rs) h q =
      let same : poll c http sighup ≡ (c, false) = ground (arith, q.0) in
      let (kept, silent) = polls_quiet c last rs h q.1 in (rw same kept, rw same silent)

  -- A SIGHUP that fails is not sent again: after a poll whose configuration was written and whose
  -- SIGHUP failed, no poll delivers one until the gateway answers another stamp.
  pub failed_sighup_lost :
      (c : Companion) (http : Text → Response) (remote : RemoteConfig) (e : NuxError)
      (rs : List ((Text → Response) × NuxResult (Unit {0})))
      → fetch_remote_config http uuid ≡ ok remote
      → (apply_remote_config toml disk c.file remote).1 ≡ ok tt
      → unchanged c.last_updated_at remote.updated_at ≡ false
      → All (λ r. stale remote.updated_at r ≡ true) rs
      → ((poll c http (err e)).1 ≡ false)
        × (any (λ b. b) (polls (poll c http (err e)).0 rs).1 ≡ false)
  unfolding poll
  failed_sighup_lost c http remote e rs h applied fresh q =
      (ground arith, (polls_quiet (poll c http (err e)).0 remote.updated_at rs (ground arith) q).1)

  -- The poll that finds a new stamp and can write it: the file is the edited one, the stamp is kept,
  -- and SIGHUP goes out.
  pub poll-applied :
      (c : Companion) (http : Text → Response) (remote : RemoteConfig)
      (sighup : NuxResult (Unit {0}))
      → fetch_remote_config http uuid ≡ ok remote
      → unchanged c.last_updated_at remote.updated_at ≡ false
      → (apply_remote_config toml disk c.file remote).1 ≡ ok tt
      → poll c http sighup ≡ (
        record {
          file = (apply_remote_config toml disk c.file remote).0;
          last_updated_at = some remote.updated_at;
        },
        is_ok sighup,
      )
  unfolding poll
  poll-applied c http remote sighup h fresh applied = ground arith

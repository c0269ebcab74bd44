-- ===== src/Cli/Reload.antt =====
-- crates/nux-cli/src/main.rs, `spawn_reload_on_sighup`: what a Guard does with its file on SIGHUP,
-- and a configuration that the companion is given on its way to the Guard's whitelist.
use nux_auth.Prelude.{
  ℕ, ◌≡◌, refl, Bool, true, false, List, [], ◌∷◌, Option, none, some, arith, ok, err, is_some,
  if◌then◌else◌,
}
use nux_auth.Prelude.Assoc.{lookup}
use nux_auth.Net.{Net}
use nux_auth.Gateway.{Text, ConfigNodeGuardInput, validate_input}
use nux_auth.Auth.{session_roles}
use nux_auth.Node.{GuardControl, Chance}
use nux_auth.Node.Loop.{GuardLoop, Caps, command, turn, obey}
use nux_auth.Node.Reload.{reload-session_roles}
use nux_auth.Cli.{Formats, Toml, parsers}
use nux_auth.Cli.Config.{GuardConfig, load}
use nux_auth.Cli.Valid.{load-IsValid}
use nux_auth.Cli.Remote.{Disk, edit, apply_remote_config}
use nux_auth.Cli.Applied.{remote_of, last_roles, apply_remote_config-load}
use nux_auth.Cli.Sync.{Companion, Response, fetch_remote_config, unchanged, poll, poll-applied}

module _ {Peer Key Multiaddr Ip Name : Type 0} (net : Net Peer Key)
    (f : Formats Peer Multiaddr Ip Name) {Document : Type 0} (toml : Toml Document) where
  -- The command that one SIGHUP makes: none where the file is refused.
  unfoldable pub on_hangup : Option Text → Option (GuardControl Peer)
  on_hangup file = elim (load net f toml file) [
    | ok cfg ↦ some (GuardControl.reload_whitelist cfg.whitelist)
    | err e ↦ none
  ]

  on_hangup-load :
      (file : Option Text) (cfg : GuardConfig Peer Multiaddr Ip Name)
      → load net f toml file ≡ ok cfg
      → on_hangup file ≡ some (GuardControl.reload_whitelist cfg.whitelist)
  unfolding on_hangup
  on_hangup-load file cfg h = rw (on_hangup, h) refl

  -- The task: the file at each SIGHUP, and whether the Guard's channel still takes a command. It
  -- ends at the first command that cannot be sent.
  unfoldable pub spawn_reload_on_sighup : List (Option Text × Bool) → List (GuardControl Peer)
  unfolding on_hangup
  spawn_reload_on_sighup [] = []
  spawn_reload_on_sighup ((file, open_) ∷ rest) =
      let later = spawn_reload_on_sighup rest in
      elim (on_hangup file) [ none ↦ later | some cmd ↦ if open_ then cmd ∷ later else [] ]

  -- From an answer to the Guard: where the path that the companion asks for is answered with a
  -- configuration that the gateway's checks accept, under a new stamp, and the file is loadable and the
  -- write and the signal succeed, a SIGHUP follows, which becomes a reload command, and once the
  -- running Guard has taken it every peer with a session has the roles of the last entry that names it
  -- in that configuration, and every other peer none.
  pub sync_reaches_sessions :
      (disk : Disk) (text : Text) (d : Document) (cfg : GuardConfig Peer Multiaddr Ip Name)
      (input : ConfigNodeGuardInput) (stamp : Text) (last : Option Text) (http : Text → Response)
      (uuid : Text) (caps : Caps) (g : GuardLoop Peer) (now : ℕ) (c : Chance)
      → load net f toml (some text) ≡ ok cfg
      → toml.parse text ≡ some d
      → validate_input (parsers f) input ≡ ok tt
      → (disk.write (some text) (toml.to_string (edit toml (remote_of input stamp) d))).1 ≡ true
      → fetch_remote_config http uuid ≡ ok (remote_of input stamp)
      → unchanged last stamp ≡ false
      → g.stopped ≡ false
      → g.control_open ≡ true
      → let turned =
          poll toml disk uuid (record { file = some text; last_updated_at = last }) http (ok tt) in
        (turned.1 ≡ true)
        × (cmd : GuardControl Peer) × (on_hangup turned.0.file ≡ some cmd)
        × ((p : Peer)
            → session_roles net (turn net caps g (command (some cmd) now) c).0.node.authenticator p
              ≡ (if is_some (lookup net.peer p g.node.authenticator.sessions)
                  then last_roles net f p (remote_of input stamp).allow none
                  else none))
  unfolding turn obey
  sync_reaches_sessions disk text d cfg input stamp last http uuid caps g now c h parsed valid done
        fetched fresh on heard =
      let remote = remote_of input stamp in
      let (applied, cfg', loads, updated) =
        apply_remote_config-load net f toml disk text d input stamp cfg h parsed valid done in
      let start : Companion = record { file = some text; last_updated_at = last } in
      let moved = poll-applied toml disk uuid start http remote (ok tt) fetched fresh applied in
      let ok_cfg =
        load-IsValid net f toml (apply_remote_config toml disk (some text) remote).0 cfg' loads in
      (
        rw moved refl,
        GuardControl.reload_whitelist cfg'.whitelist,
        rw moved (on_hangup-load (apply_remote_config toml disk (some text) remote).0 cfg' loads),
        λ p.
            ground (
              arith,
              reload-session_roles net g cfg'.whitelist p ok_cfg.listed,
              updated.new_roles p,
            ),
      )

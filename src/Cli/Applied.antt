-- ===== src/Cli/Applied.antt =====
-- A configuration that the gateway accepts (nux_gateway/src/handlers/configs.rs), put into the file
-- of a Guard and loaded from it (crates/nux-cli/src/guard_config.rs).
use nux_auth.Prelude.{
  ◌*◌, ◌^◌, ◌≡◌, refl, sym, ◌∙◌, true, false, List, [], ◌∷◌, map, Option, none, some, arith, any,
  ◌==◌, ok, if◌then◌else◌, Option-cases, Result-cases, inl, inr,
}
use nux_auth.Prelude.Assoc.{lookup, lookup-insert}
use nux_auth.Net.{Net}
use nux_auth.Gateway.{
  Text, ConfigNodeGuardInput, Allow, CheckSum, validate_exempt, validate_allow, validate_check_sum,
  validate_input,
}
use nux_auth.Whitelist
use nux_auth.Whitelist.{Whitelist, Roles}
use nux_auth.Whitelist.Laws.{roles-lookup}
use nux_auth.Cli.{Formats, Tables, Toml, parsers}
use nux_auth.Cli.Config.{
  RawConfig, GuardConfig, raw_allow, raw_config, resolve, load, load_allow, load_exempt,
}
use nux_auth.Cli.Remote.{
  RemoteConfig, RemoteAllow, RemoteCheckSum, Disk, to_i64, rate_limit_table, allow_tables,
  checksum_bin_tables, edit, apply_remote_config,
}
use nux_auth.Cli.Valid.{resolve-Parts, resolve-IsValid}
use nux_auth.Cli.Accepts.{acceptable, resolve-accepts, bad_ip, bad_entry, bad_checksum}

-- The answer of the gateway as the Guard reads it: both sides have the same keys.
abbrev remote_allow : List Allow → List RemoteAllow
remote_allow [] = []
remote_allow (a ∷ l) = record { peer = a.peer; roles = a.roles } ∷ remote_allow l

abbrev remote_check_sum : List CheckSum → List RemoteCheckSum
remote_check_sum [] = []
remote_check_sum (c ∷ l) = record { peer = c.peer; sha256 = c.sha256 } ∷ remote_check_sum l

abbrev pub remote_of : ConfigNodeGuardInput → Text → RemoteConfig
remote_of input updated_at = record {
  rate_limit = record {
    max = input.rate_limit.max;
    window_secs = input.rate_limit.window_secs;
    exempt = input.rate_limit.exempt;
  };
  allow = remote_allow input.allow;
  check_sum = remote_check_sum input.check_sum;
  updated_at = updated_at;
}

module _ {Peer Key Multiaddr Ip Name : Type 0} (net : Net Peer Key)
    (f : Formats Peer Multiaddr Ip Name) where
  -- The roles that the last entry for a peer gives, or `found` if no entry names it.
  abbrev pub last_roles : Peer → List RemoteAllow → Option Roles → Option Roles
  last_roles p [] found = found
  last_roles p (entry ∷ entries) found = last_roles p entries (elim (f.peer_id entry.peer) [
    | none ↦ found
    | some q ↦ if net.peer.beq q p then some entry.roles else found
  ])

  -- A configuration with what the gateway sent, and the rest as it was.
  pub record Updated (cfg : GuardConfig Peer Multiaddr Ip Name) (remote : RemoteConfig)
      (cfg' : GuardConfig Peer Multiaddr Ip Name) : Type 0 where
    pub same_listen : cfg'.listen ≡ cfg.listen
    pub same_expose : cfg'.expose ≡ cfg.expose
    pub same_relay : cfg'.relay ≡ cfg.relay
    pub same_namespace : cfg'.namespace ≡ cfg.namespace
    pub new_max : cfg'.rate_limit_max ≡ remote.rate_limit.max
    pub new_window : cfg'.rate_limit_window ≡ to_i64 remote.rate_limit.window_secs * 10 ^ 9
    pub new_exempt : map f.ip_addr remote.rate_limit.exempt ≡ map some cfg'.rate_limit_exempt
    pub new_roles :
        (p : Peer) → Whitelist.roles net cfg'.whitelist p ≡ last_roles p remote.allow none

  load_exempt-map :
      (ips : List Text) (xs : List Ip)
      → load_exempt net f ips ≡ ok xs
      → map f.ip_addr ips ≡ map some xs
  unfolding load_exempt
  load_exempt-map [] xs h = ground arith
  load_exempt-map (ip ∷ ips) xs h = elim (Result-cases (load_exempt net f ips)) [
    | inl (rest, good) ↦ ground (arith, load_exempt-map ips rest good)
    | inr (x, bad) ↦ absurd (ground arith)
  ]

  load_allow-last :
      (entries : List RemoteAllow) (w w' : Whitelist Peer) (p : Peer)
      → load_allow net f (raw_allow (allow_tables entries)) w ≡ ok w'
      → lookup net.peer p w' ≡ last_roles p entries (lookup net.peer p w)
  unfolding load_allow Whitelist.allow
  load_allow-last [] w w' p h = ground arith
  load_allow-last (e ∷ entries) w w' p h = elim (Option-cases (f.peer_id e.peer)) [
    | inl bad ↦ absurd (ground arith)
    | inr (q, good) ↦ ground (
      arith,
      lookup-insert net.peer q p e.roles w,
      load_allow-last entries (Whitelist.allow net q e.roles w) w' p,
    )
  ]

  exempt_parse :
      (ips : List Text) → validate_exempt (parsers f) ips ≡ ok tt → any (bad_ip net f) ips ≡ false
  unfolding validate_exempt
  exempt_parse [] h = refl
  exempt_parse (ip ∷ ips) h = ground (arith, exempt_parse ips)

  allow_parse :
      (entries : List Allow)
      → validate_allow (parsers f) entries ≡ ok tt
      → any (bad_entry net f) (raw_allow (allow_tables (remote_allow entries))) ≡ false
  unfolding validate_allow
  allow_parse [] h = refl
  allow_parse (e ∷ entries) h = ground (arith, allow_parse entries)

  check_sum_parse :
      (entries : List CheckSum)
      → validate_check_sum (parsers f) entries ≡ ok tt
      → any (bad_checksum net f) (checksum_bin_tables (remote_check_sum entries)) ≡ false
  unfolding validate_check_sum
  check_sum_parse [] h = refl
  check_sum_parse (e ∷ entries) h = ground (arith, check_sum_parse entries)

  -- What the gateway's checks give, in the Guard's terms.
  record Checked (input : ConfigNodeGuardInput) (raw : RawConfig) : Type 0 where
    pub opens : (raw.rate_limit.window_secs == 0) ≡ false
    pub exempts : any (bad_ip net f) raw.rate_limit.exempt ≡ false
    pub allows : any (bad_entry net f) raw.allow ≡ false
    pub attests : any (bad_checksum net f) raw.checksum_bin ≡ false

  -- The parsed file with the gateway's part in it.
  abbrev merged : RemoteConfig → Tables → Tables
  merged remote t = record t {
    rate_limit = some (rate_limit_table remote.rate_limit);
    allow = some (allow_tables remote.allow);
    checksum_bin = some (checksum_bin_tables remote.check_sum);
  }

  merged-Checked :
      (input : ConfigNodeGuardInput) (stamp : Text) (t : Tables)
      → validate_input (parsers f) input ≡ ok tt
      → Checked input (raw_config (merged (remote_of input stamp) t))
  unfolding validate_input raw_config
  merged-Checked input stamp t h = record {
    opens = ground arith;
    exempts = exempt_parse input.rate_limit.exempt (ground arith);
    allows = allow_parse input.allow (ground arith);
    attests = check_sum_parse input.check_sum (ground arith);
  }

  merged-acceptable :
      (input : ConfigNodeGuardInput) (stamp : Text) (t : Tables)
      → validate_input (parsers f) input ≡ ok tt
      → acceptable net f (raw_config t) ≡ true
      → acceptable net f (raw_config (merged (remote_of input stamp) t)) ≡ true
  unfolding acceptable raw_config
  merged-acceptable input stamp t h good =
      let c = merged-Checked input stamp t h in
      ground (arith, c.opens, c.exempts, c.allows, c.attests)

  merged-Updated :
      (remote : RemoteConfig) (t : Tables) (cfg cfg' : GuardConfig Peer Multiaddr Ip Name)
      → resolve net f (raw_config t) ≡ ok cfg
      → resolve net f (raw_config (merged remote t)) ≡ ok cfg'
      → Updated cfg remote cfg'
  unfolding raw_config Whitelist.new lookup
  merged-Updated remote t cfg cfg' h h' =
      let p = resolve-Parts net f (raw_config t) cfg h in
      let p' = resolve-Parts net f (raw_config (merged remote t)) cfg' h' in
      let valid = resolve-IsValid net f (raw_config (merged remote t)) cfg' h' in
      record {
        same_listen = ground (arith, p.listens, p'.listens);
        same_expose = ground (arith, p.exposes, p'.exposes);
        same_relay = ground (arith, p.relays, p'.relays);
        same_namespace = ground (arith, p.names, p'.names);
        new_max = p'.capped;
        new_window = p'.spans;
        new_exempt = load_exempt-map remote.rate_limit.exempt cfg'.rate_limit_exempt p'.exempts;
        new_roles = λ q.
            rw (roles-lookup net cfg'.whitelist q valid.listed)
              (load_allow-last remote.allow [] cfg'.whitelist q p'.allows);
      }

  module _ {Document : Type 0} (toml : Toml Document) where
    edited :
        (remote : RemoteConfig) (d : Document) (t : Tables)
        → toml.tables d ≡ some t
        → toml.from_str (toml.to_string (edit toml remote d)) ≡ some (merged remote t)
    unfolding edit
    edited remote d t h =
        let d1 = toml.set_rate_limit (rate_limit_table remote.rate_limit) d in
        let e1 = toml.rate_limit_set (rate_limit_table remote.rate_limit) d t h in
        let t1 : Tables = record t { rate_limit = some (rate_limit_table remote.rate_limit) } in
        let d2 = toml.set_allow (allow_tables remote.allow) d1 in
        let e2 = toml.allow_set (allow_tables remote.allow) d1 t1 e1 in
        let t2 : Tables = record t1 { allow = some (allow_tables remote.allow) } in
        rw (toml.from_str_printed (edit toml remote d))
          (toml.checksum_bin_set (checksum_bin_tables remote.check_sum) d2 t2 e2)

    done-apply :
        (disk : Disk) (text : Text) (d : Document) (remote : RemoteConfig)
        → toml.parse text ≡ some d
        → (disk.write (some text) (toml.to_string (edit toml remote d))).1 ≡ true
        → apply_remote_config toml disk (some text) remote
          ≡ (some (toml.to_string (edit toml remote d)), ok tt)
    unfolding apply_remote_config
    done-apply disk text d remote parsed done =
        ground (arith, disk.written (some text) (toml.to_string (edit toml remote d)) done)

    -- A configuration that the gateway accepts never makes a Guard's file unloadable: put into a
    -- file that `load` accepts and `toml_edit` can parse, by a write that succeeds, it gives a file
    -- that `load` accepts, with the limits, the exempted addresses and the roles of each peer as
    -- sent (the window clamped to 2^63 - 1 seconds), and the address, the services, the relay and
    -- the namespace as before.
    pub apply_remote_config-load :
        (disk : Disk) (text : Text) (d : Document) (input : ConfigNodeGuardInput) (stamp : Text)
        (cfg : GuardConfig Peer Multiaddr Ip Name)
        → load net f toml (some text) ≡ ok cfg
        → toml.parse text ≡ some d
        → validate_input (parsers f) input ≡ ok tt
        → (disk.write (some text) (toml.to_string (edit toml (remote_of input stamp) d))).1 ≡ true
        → let r = apply_remote_config toml disk (some text) (remote_of input stamp) in
          (r.1 ≡ ok tt)
          × (cfg' : GuardConfig Peer Multiaddr Ip Name) × (load net f toml r.0 ≡ ok cfg')
          × Updated cfg (remote_of input stamp) cfg'
    unfolding load
    apply_remote_config-load disk text d input stamp cfg h parsed valid done =
        elim (Option-cases (toml.from_str text)) [
          | inl bad ↦ absurd (ground arith)
          | inr (t, read) ↦
              let remote = remote_of input stamp in
              let after = done-apply disk text d remote parsed done in
              let fresh = edited remote d t (sym (toml.from_str_parsed text d parsed) ∙ read) in
              let old : resolve net f (raw_config t) ≡ ok cfg = ground arith in
              let was = resolve-accepts net f (raw_config t) in
              let fine = merged-acceptable input stamp t valid (ground arith) in
              let now = resolve-accepts net f (raw_config (merged remote t)) in
              elim (Result-cases (resolve net f (raw_config (merged remote t)))) [
                | inl (cfg', new) ↦ (
                  rw after refl,
                  cfg',
                  rw (after, fresh) new,
                  merged-Updated remote t cfg cfg' old new,
                )
                | inr (x, bad) ↦ absurd (ground arith)
              ]
        ]

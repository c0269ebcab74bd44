-- ===== src/Cli/Starts.antt =====
-- When a Guard starts, and what it starts with: crates/nux-cli/src/main.rs with
-- crates/nux-core/src/builder.rs.
use nux_auth.Prelude.{
  ◌*◌, ◌^◌, ◌≡◌, refl, ap, ◌∙◌, ◌&&◌, ◌||◌, List, [], ◌∷◌, ◌++◌, Option, none, some, arith, Eq,
  is_none, ok, ◌>>=◌, is_ok, Option-cases, Result-cases, inl, inr,
}
use nux_auth.Net.{Net}
use nux_auth.Gateway.{Text}
use nux_auth.Identity.{Ed25519}
use nux_auth.Node.{NodeMode}
use nux_auth.Auth
use nux_auth.RateLimit.Behaviour.{with_exemptions}
use nux_auth.Builder
use nux_auth.Builder.{
  NuxNodeBuilder, Host, Built, build, resolve_identity, listen_all, IdentitySource, file, env,
  ephemeral,
}
use nux_auth.Cli.{Formats, Toml}
use nux_auth.Cli.Config.{GuardConfig, load}
use nux_auth.Cli.Start.{
  RelayWorld, join_relay, builder, exempt_each, registry_of, Started, start_guard, identity_env_var,
}

-- The source of the key: the file that was named, else the variable where it is set, else a new key.
abbrev pub chosen :
    {Keypair File Multiaddr : Type 0}
    → Host Keypair File Multiaddr
    → Option File
    → IdentitySource Keypair File
chosen host (some path) = file path
chosen host none = elim (host.variable identity_env_var) [
  | none ↦ ephemeral
  | some v ↦ env identity_env_var
]

append_assoc : {A : Type 0} (xs ys zs : List A) → (xs ++ ys) ++ zs ≡ xs ++ (ys ++ zs)
append_assoc [] ys zs = refl
append_assoc (x ∷ xs) ys zs = ap (◌∷◌ x) (append_assoc xs ys zs)

append_nil : {A : Type 0} (xs : List A) → xs ++ [] ≡ xs
append_nil [] = refl
append_nil (x ∷ xs) = ap (◌∷◌ x) (append_nil xs)

module _ {Keypair File Multiaddr Ip : Type 0} where
  exempt_each-record :
      (ips : List Ip) (b : NuxNodeBuilder Keypair File Multiaddr Ip)
      → exempt_each ips b ≡ (record b { rate_limit_exempt = b.rate_limit_exempt ++ ips })
  unfolding exempt_each
  exempt_each-record [] b = rw (append_nil b.rate_limit_exempt) refl
  exempt_each-record (ip ∷ ips) b =
      rw (← (append_assoc b.rate_limit_exempt (ip ∷ []) ips))
        (exempt_each-record ips (Builder.exempt_ip ip b))

  -- The settings with which a Guard is built.
  abbrev settings :
      {Peer Name : Type 0}
      → Host Keypair File Multiaddr
      → GuardConfig Peer Multiaddr Ip Name
      → Option File
      → NuxNodeBuilder Keypair File Multiaddr Ip
  settings host cfg identity = exempt_each cfg.rate_limit_exempt (
      Builder.inbound_rate_limit cfg.rate_limit_max cfg.rate_limit_window
        (Builder.listen_on cfg.listen (builder host NodeMode.guard identity)))

  -- What the settings are, whatever the identity comes from.
  settings-record :
      {Peer Name : Type 0} (host : Host Keypair File Multiaddr)
      (cfg : GuardConfig Peer Multiaddr Ip Name) (identity : Option File)
      → settings host cfg identity ≡ (record {
        mode = NodeMode.guard;
        identity = chosen host identity;
        listen_addrs = cfg.listen ∷ [];
        idle_timeout = 3600 * 10 ^ 9;
        request_timeout = Builder.default_request_timeout;
        rate_limit_max = cfg.rate_limit_max;
        rate_limit_window = cfg.rate_limit_window;
        rate_limit_exempt = cfg.rate_limit_exempt;
      })
  unfolding builder Builder.new
  settings-record host cfg (some path) = exempt_each-record cfg.rate_limit_exempt (
      Builder.inbound_rate_limit cfg.rate_limit_max cfg.rate_limit_window
        (Builder.listen_on cfg.listen (builder host NodeMode.guard (some path))))
  settings-record host cfg none =
      let b =
        Builder.inbound_rate_limit cfg.rate_limit_max cfg.rate_limit_window
          (Builder.listen_on cfg.listen (builder {Ip = Ip} host NodeMode.guard none)) in
      elim (Option-cases (host.variable identity_env_var)) [
        | inl unset ↦
            exempt_each-record cfg.rate_limit_exempt b
            ∙ rw (builder, unset) (rw (chosen, unset) refl)
        | inr (v, set) ↦
            exempt_each-record cfg.rate_limit_exempt b ∙ rw (builder, set) (rw (chosen, set) refl)
      ]

module _ {Peer Key Keypair File Multiaddr Ip Name Document : Type 0} (net : Net Peer Key)
    (f : Formats Peer Multiaddr Ip Name) (toml : Toml Document) (keys : Ed25519 Keypair)
    (ip : Eq Ip) (host : Host Keypair File Multiaddr) (w : RelayWorld Peer) where
  is_ok-join_relay :
      (relay : Option Multiaddr) (namespace : Option Name)
      → is_ok (join_relay w relay namespace) ≡ (is_none relay || w.dialled)
  unfolding join_relay
  is_ok-join_relay none namespace = refl
  is_ok-join_relay (some addr) namespace = ground arith

  -- With a file that loads, a Guard starts exactly if its key can be had, the swarm can be
  -- assembled, the address of the file can be listened on, and the relay, if the file names one, can
  -- be dialled at once; what becomes of that connection, of the circuit and of the registration does
  -- not matter.
  pub start_guard-starts :
      (text : Option Text) (identity : Option File) (cfg : GuardConfig Peer Multiaddr Ip Name)
      → load net f toml text ≡ ok cfg
      → is_ok (start_guard net f toml keys ip host w text identity) ≡ (
          is_ok (resolve_identity keys ip host (chosen host identity))
          && host.assembled
          && host.listens cfg.listen
          && (is_none cfg.relay || w.dialled))
  unfolding start_guard build listen_all
  start_guard-starts text identity cfg h =
      let s = settings-record {Ip = Ip} host cfg identity in
      let r = is_ok-join_relay cfg.relay cfg.namespace in rw (h, start_guard, s) (ground (arith, r))

  -- What a started Guard has of its file: the limiter with its limits and exemptions, the address,
  -- the registry of its services and digests, and an authority with its whitelist and no session.
  pub start_guard-Configured :
      (text : Option Text) (identity : Option File) (cfg : GuardConfig Peer Multiaddr Ip Name)
      (s : Started Peer Keypair Multiaddr Ip)
      → load net f toml text ≡ ok cfg
      → start_guard net f toml keys ip host w text identity ≡ ok s
      → (s.node.mode ≡ NodeMode.guard)
        × (s.node.listening ≡ cfg.listen ∷ [])
        × (s.node.limiter
            ≡ with_exemptions ip cfg.rate_limit_max cfg.rate_limit_window cfg.rate_limit_exempt
                host.now)
        × (resolve_identity keys ip host (chosen host identity) ≡ ok s.node.keypair)
        × (s.registry ≡ registry_of net cfg)
        × (s.authenticator ≡ Auth.new cfg.whitelist)
  unfolding start_guard build listen_all
  start_guard-Configured text identity cfg s h started =
      let e = settings-record {Ip = Ip} host cfg identity in
      let same : start_guard net f toml keys ip host w text identity ≡ (
          build keys ip host (settings host cfg identity) >>= λ node.
          join_relay w cfg.relay cfg.namespace >>= λ relay. ok (record {
            node = node;
            registry = registry_of net cfg;
            authenticator = Auth.new cfg.whitelist;
            relay = relay;
          })) =
        rw (h, start_guard) refl in
      elim (Result-cases (resolve_identity keys ip host (chosen host identity))) [
        | inr (x, bad) ↦ absurd (ground (arith, e, same))
        | inl (kp, good) ↦ ground (arith, e, same)
      ]

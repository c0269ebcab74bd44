-- ===== src/Cli/Valid.antt =====
-- What `load` of crates/nux-cli/src/guard_config.rs guarantees of a configuration it accepts.
use nux_auth.Prelude.{
  ℕ, ◌*◌, ◌^◌, ◌<◌, ◌≡◌, true, false, ◌&&◌, List, [], ◌∷◌, Option, none, some, arith, length, any,
  All, bytes_beq, bytes_eq, bytes_beq_iff, beq_refl, is_some, is_none, ok, Option-cases,
  Result-cases, inl, inr,
}
use nux_auth.Prelude.Assoc.{lookup, Distinct}
use nux_auth.Net.{Net}
use nux_auth.Gateway.{Text}
use nux_auth.Whitelist
use nux_auth.Whitelist.{Whitelist}
use nux_auth.Whitelist.Laws.{allow-Distinct}
use nux_auth.Cli.{Formats, ExposeTable, ChecksumBinTable, Toml}
use nux_auth.Cli.Config.{
  RawAllow, RawConfig, GuardConfig, parse_sha256_hex, load_exempt, load_allow, load_expose,
  load_checksum_bin, resolve, load, raw_config, optional,
}

module _ {Peer Key Multiaddr Ip Name : Type 0} (net : Net Peer Key)
    (f : Formats Peer Multiaddr Ip Name) where
  pub record IsValid (cfg : GuardConfig Peer Multiaddr Ip Name) : Type 0 where
    pub opens : 0 < cfg.rate_limit_window
    pub listed : Distinct net.peer cfg.whitelist
    pub services : Distinct bytes_eq cfg.expose
    pub digests : All (λ x. length x.1 ≡ 32) cfg.checksum_bin
    pub named : (is_some cfg.namespace && is_none cfg.relay) ≡ false

  load_allow-Distinct :
      (entries : List RawAllow) (w w' : Whitelist Peer)
      → Distinct net.peer w
      → load_allow net f entries w ≡ ok w'
      → Distinct net.peer w'
  unfolding load_allow
  load_allow-Distinct [] w w' d h = ground (arith, d)
  load_allow-Distinct (entry ∷ entries) w w' d h = elim (Option-cases (f.peer_id entry.peer)) [
    | inl bad ↦ absurd (ground arith)
    | inr (p, good) ↦
        load_allow-Distinct entries (Whitelist.allow net p entry.roles w) w'
          (allow-Distinct net w p entry.roles d) (ground arith)
  ]

  load_checksum_bin-length :
      (entries : List ChecksumBinTable) (xs : List (Peer × List ℕ))
      → load_checksum_bin net f entries ≡ ok xs
      → All (λ x. length x.1 ≡ 32) xs
  unfolding load_checksum_bin parse_sha256_hex
  load_checksum_bin-length [] xs h = ground arith
  load_checksum_bin-length (entry ∷ entries) xs h =
      elim (Result-cases (load_checksum_bin net f entries)) [
        | inl (rest, good) ↦ ground (arith, load_checksum_bin-length entries rest good)
        | inr (x, bad) ↦ absurd (ground arith)
      ]

  load_expose-unseen :
      (entries : List ExposeTable) (seen : List Text) (xs : List (Text × (ℕ × Option Text)))
      (name : Text)
      → load_expose net f entries seen ≡ ok xs
      → any (bytes_beq name) seen ≡ true
      → lookup bytes_eq name xs ≡ none
  unfolding load_expose lookup
  load_expose-unseen [] seen xs name h s = ground arith
  load_expose-unseen (entry ∷ entries) seen xs name h s =
      elim (Result-cases (load_expose net f entries (entry.name ∷ seen))) [
        | inl (rest, good) ↦ ground (
          arith,
          bytes_beq_iff entry.name name,
          load_expose-unseen entries (entry.name ∷ seen) rest name good,
        )
        | inr (x, bad) ↦ absurd (ground arith)
      ]

  load_expose-Distinct :
      (entries : List ExposeTable) (seen : List Text) (xs : List (Text × (ℕ × Option Text)))
      → load_expose net f entries seen ≡ ok xs
      → Distinct bytes_eq xs
  unfolding load_expose
  load_expose-Distinct [] seen xs h = ground arith
  load_expose-Distinct (entry ∷ entries) seen xs h =
      elim (Result-cases (load_expose net f entries (entry.name ∷ seen))) [
        | inl (rest, good) ↦ ground (
          arith,
          beq_refl bytes_eq entry.name,
          load_expose-Distinct entries (entry.name ∷ seen) rest good,
          load_expose-unseen entries (entry.name ∷ seen) rest entry.name good,
        )
        | inr (x, bad) ↦ absurd (ground arith)
      ]

  -- What each part of an accepted file has become.
  pub record Parts (raw : RawConfig) (cfg : GuardConfig Peer Multiaddr Ip Name) : Type 0 where
    pub listens : f.multiaddr raw.listen ≡ some cfg.listen
    pub opens : 0 < raw.rate_limit.window_secs
    pub capped : cfg.rate_limit_max ≡ raw.rate_limit.max
    pub spans : cfg.rate_limit_window ≡ raw.rate_limit.window_secs * 10 ^ 9
    pub exempts : load_exempt net f raw.rate_limit.exempt ≡ ok cfg.rate_limit_exempt
    pub allows : load_allow net f raw.allow Whitelist.new ≡ ok cfg.whitelist
    pub exposes : load_expose net f raw.expose [] ≡ ok cfg.expose
    pub attests : load_checksum_bin net f raw.checksum_bin ≡ ok cfg.checksum_bin
    pub relays : optional f.multiaddr raw.relay ≡ some cfg.relay
    pub names : optional f.namespace raw.namespace ≡ some cfg.namespace
    pub named : (is_some cfg.namespace && is_none cfg.relay) ≡ false

  pub resolve-Parts :
      (raw : RawConfig) (cfg : GuardConfig Peer Multiaddr Ip Name)
      → resolve net f raw ≡ ok cfg
      → Parts raw cfg
  unfolding resolve
  resolve-Parts raw cfg h = elim (Result-cases (load_exempt net f raw.rate_limit.exempt)) [
    | inr (x, bad) ↦ absurd (ground arith)
    | inl (exempt, e1) ↦ elim (Result-cases (load_allow net f raw.allow Whitelist.new)) [
      | inr (x, bad) ↦ absurd (ground arith)
      | inl (whitelist, e2) ↦ elim (Result-cases (load_expose net f raw.expose [])) [
        | inr (x, bad) ↦ absurd (ground arith)
        | inl (expose, e3) ↦ elim (Result-cases (load_checksum_bin net f raw.checksum_bin)) [
          | inr (x, bad) ↦ absurd (ground arith)
          | inl (digests, e4) ↦ record {
            listens = ground arith;
            opens = ground arith;
            capped = ground arith;
            spans = ground arith;
            exempts = ground arith;
            allows = ground arith;
            exposes = ground arith;
            attests = ground arith;
            relays = ground arith;
            names = ground arith;
            named = ground arith;
          }
        ]
      ]
    ]
  ]

  pub Parts-resolve :
      (raw : RawConfig) (cfg : GuardConfig Peer Multiaddr Ip Name)
      → Parts raw cfg
      → resolve net f raw ≡ ok cfg
  unfolding resolve
  Parts-resolve raw cfg p = ground (
    arith, p.listens, p.opens, p.capped, p.spans, p.exempts, p.allows, p.exposes, p.attests,
    p.relays, p.names, p.named,
  )

  pub resolve-IsValid :
      (raw : RawConfig) (cfg : GuardConfig Peer Multiaddr Ip Name)
      → resolve net f raw ≡ ok cfg
      → IsValid cfg
  unfolding Whitelist.new
  resolve-IsValid raw cfg h =
      let p = resolve-Parts raw cfg h in
      record {
        opens = rw p.spans (omega (arith, p.opens));
        listed = load_allow-Distinct raw.allow Whitelist.new cfg.whitelist tt p.allows;
        services = load_expose-Distinct raw.expose [] cfg.expose p.exposes;
        digests = load_checksum_bin-length raw.checksum_bin cfg.checksum_bin p.attests;
        named = p.named;
      }

  -- A configuration that `load` accepts has a window that is not empty, a whitelist that names each
  -- peer once, services with different names, digests of 32 bytes, and a relay if it has a
  -- namespace.
  pub load-IsValid :
      {Document : Type 0} (toml : Toml Document) (file : Option Text)
      (cfg : GuardConfig Peer Multiaddr Ip Name)
      → load net f toml file ≡ ok cfg
      → IsValid cfg
  unfolding load
  load-IsValid toml none cfg h = absurd (cc)
  load-IsValid toml (some text) cfg h = elim (Option-cases (toml.from_str text)) [
    | inl bad ↦ absurd (ground arith)
    | inr (t, good) ↦ resolve-IsValid (raw_config t) cfg (ground arith)
  ]

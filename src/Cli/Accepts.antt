-- ===== src/Cli/Accepts.antt =====
-- Exactly which files `load` of crates/nux-cli/src/guard_config.rs accepts.
use nux_auth.Prelude.{
  ◌≡◌, refl, Bool, true, false, not, ◌&&◌, ◌||◌, List, [], ◌∷◌, Option, none, some, arith, any,
  ◌==◌, bytes_beq, is_some, is_none, is_ok, Option-cases, inl, inr,
}
use nux_auth.Net.{Net}
use nux_auth.Gateway.{Text, is_sha256}
use nux_auth.Whitelist
use nux_auth.Whitelist.{Whitelist}
use nux_auth.Cli.{Formats, ExposeTable, ChecksumBinTable, Toml, parsers}
use nux_auth.Cli.Config.{
  RawAllow, RawConfig, parse_sha256_hex, load_exempt, load_allow, load_expose, load_checksum_bin,
  resolve, load, raw_config,
}

any-or {ℓ} :
    {A : Type ℓ} (p q : A → Bool) (xs : List A) → any (λ x. p x || q x) xs ≡ (any p xs || any q xs)
any-or p q [] = refl
any-or p q (x ∷ xs) = ground (arith, any-or p q xs)

-- No two entries with one name.
abbrev pub distinct_names : List ExposeTable → Bool
distinct_names [] = true
distinct_names (e ∷ es) = not (any (λ d. bytes_beq d.name e.name) es) && distinct_names es

-- A key that is absent or that parses.
abbrev pub absent_or {ℓ} : {A : Type ℓ} → (Text → Option A) → Option Text → Bool
absent_or parse none = true
absent_or parse (some t) = is_some (parse t)

module _ {Peer Key Multiaddr Ip Name : Type 0} (net : Net Peer Key)
    (f : Formats Peer Multiaddr Ip Name) where
  abbrev pub bad_ip : Text → Bool
  bad_ip ip = is_none (f.ip_addr ip)

  abbrev pub bad_entry : RawAllow → Bool
  bad_entry e = is_none (f.peer_id e.peer)

  abbrev pub bad_checksum : ChecksumBinTable → Bool
  bad_checksum e = not (is_some (f.peer_id e.peer) && is_sha256 (parsers f) e.sha256)

  -- The requirements, in no order.
  unfoldable pub acceptable : RawConfig → Bool
  acceptable raw =
      is_some (f.multiaddr raw.listen)
      && not (raw.rate_limit.window_secs == 0)
      && not (any bad_ip raw.rate_limit.exempt)
      && not (any bad_entry raw.allow)
      && distinct_names raw.expose
      && not (any bad_checksum raw.checksum_bin)
      && absent_or f.multiaddr raw.relay
      && absent_or f.namespace raw.namespace
      && (is_none raw.namespace || is_some raw.relay)

  is_ok-load_exempt : (ips : List Text) → is_ok (load_exempt net f ips) ≡ not (any bad_ip ips)
  unfolding load_exempt
  is_ok-load_exempt [] = refl
  is_ok-load_exempt (ip ∷ ips) = ground (arith, is_ok-load_exempt ips)

  is_ok-load_allow :
      (entries : List RawAllow) (w : Whitelist Peer)
      → is_ok (load_allow net f entries w) ≡ not (any bad_entry entries)
  unfolding load_allow
  is_ok-load_allow [] w = refl
  is_ok-load_allow (e ∷ entries) w = elim (Option-cases (f.peer_id e.peer)) [
    | inl bad ↦ ground arith
    | inr (p, good) ↦ ground (arith, is_ok-load_allow entries (Whitelist.allow net p e.roles w))
  ]

  is_ok-load_expose :
      (entries : List ExposeTable) (seen : List Text)
      → is_ok (load_expose net f entries seen)
        ≡ (not (any (λ d. any (bytes_beq d.name) seen) entries) && distinct_names entries)
  unfolding load_expose
  is_ok-load_expose [] seen = refl
  is_ok-load_expose (e ∷ entries) seen = ground (
    arith,
    is_ok-load_expose entries (e.name ∷ seen),
    any-or (λ (d : ExposeTable). bytes_beq d.name e.name)
        (λ (d : ExposeTable). any (bytes_beq d.name) seen) entries,
  )

  is_ok-load_checksum_bin :
      (entries : List ChecksumBinTable)
      → is_ok (load_checksum_bin net f entries) ≡ not (any bad_checksum entries)
  unfolding load_checksum_bin parse_sha256_hex
  is_ok-load_checksum_bin [] = refl
  is_ok-load_checksum_bin (e ∷ entries) = ground (arith, is_ok-load_checksum_bin entries)

  any_never {ℓ} : {A : Type ℓ} (xs : List A) → any (λ (x : A). false) xs ≡ false
  any_never [] = refl
  any_never (x ∷ xs) = any_never xs

  pub resolve-accepts : (raw : RawConfig) → is_ok (resolve net f raw) ≡ acceptable raw
  unfolding resolve acceptable
  resolve-accepts raw =
      let a = is_ok-load_exempt raw.rate_limit.exempt in
      let b = is_ok-load_allow raw.allow Whitelist.new in
      let c = is_ok-load_expose raw.expose [] in
      let n = any_never raw.expose in
      let d = is_ok-load_checksum_bin raw.checksum_bin in ground (arith, a, b, c, n, d)

  -- `load` accepts a file that can be read and has the right tables exactly if the address to
  -- listen on parses, the window is not zero, every exempted address and every identity parses, no
  -- two services share a name, every digest is 32 bytes of hexadecimal, the relay and the namespace
  -- parse where they are there, and there is a relay where there is a namespace.
  pub load_accepts :
      {Document : Type 0} (toml : Toml Document) (file : Option Text)
      → is_ok (load net f toml file) ≡ (elim file [
        | none ↦ false
        | some text ↦ elim (toml.from_str text) [
          | none ↦ false
          | some t ↦ acceptable (raw_config t)
        ]
      ])
  unfolding load
  load_accepts toml none = refl
  load_accepts toml (some text) = elim (Option-cases (toml.from_str text)) [
    | inl bad ↦ ground arith
    | inr (t, good) ↦ ground (arith, resolve-accepts (raw_config t))
  ]

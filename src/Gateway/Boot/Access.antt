-- ===== src/Gateway/Boot/Access.antt =====
-- Who reaches the router of the Guards on a gateway that has just started.
use nux_auth.Prelude.{
  ℕ, ◌≡◌, ◌≢◌, ◌⊎◌, refl, ◌∙◌, ap, sym, arith, Bool, true, false, ◌&&◌, ◌||◌, List, [], ◌∷◌, ◌++◌,
  Option, none, some, any, ◌==◌, Option-cases, Bool-cases, inl, inr, if◌then◌else◌, ok, bytes_beq,
  bytes_eq, Eq, Result-cases,
}
use nux_auth.Prelude.Assoc.{lookup, insert}
use nux_auth.Net.{Net}
use nux_auth.Auth
use nux_auth.Identity.{Ed25519}
use nux_auth.Builder.{Host, build}
use nux_auth.Protocol.{TunnelHeader, tunnel_ack}
use nux_auth.Protocol.Codec.{Bincode}
use nux_auth.Whitelist
use nux_auth.Whitelist.{Whitelist, Roles}
use nux_auth.Tunnel.{ExposedService}
use nux_auth.Tunnel.Serve.{World, Action, connect, send, relay, serve_io}
use nux_auth.Tunnel.Silence.{serve_io-cases, serve_io_passes}
use nux_auth.Cli.Start.{Localhost}
use nux_auth.Gateway.{Text, Parsers, ConfigNodeGuard, Allow}
use nux_auth.Gateway.Roles.{
  role_guard, role_client, client_roles, roles_for_config, allowed_by, last_of, roles-allowed_by,
}
use nux_auth.Gateway.Configs.{Json, Database}
use nux_auth.Gateway.Settings.{AddressParsers, Config, from_env, from_env-strict}
use nux_auth.Gateway.Settings as Settings
use nux_auth.Gateway.Boot.{
  Booted, boot, gateway_builder, gateway_registry, gwapi_guard, gwapi_client, rebuild_whitelist,
}
use nux_auth.Gateway.Boot.Restart.{stored, all_roles, allow_rows-all, roles-empty}

-- Whether a connection to the port is among the actions.
abbrev pub reaches : ℕ → List (Action Localhost) → Bool
reaches port [] = false
reaches port (connect addr ∷ actions) = (addr.port == port) || reaches port actions
reaches port (_ ∷ actions) = reaches port actions

abbrev pub holds : Text → Roles → Bool
holds role = any (λ r. bytes_beq r role)

module _ {Peer Key : Type 0} (net : Net Peer Key) (bin : Bincode TunnelHeader)
    (parse : Parsers Peer) (json : Json) where
  -- Whether the configuration is the one of this Guard.
  abbrev pub registers : Peer → ConfigNodeGuard → Bool
  registers q config = elim (parse.peer_id config.uuid) [
    | none ↦ false
    | some peer ↦ net.peer.beq peer q
  ]

  -- An entry that gives the peer the role of a Guard.
  abbrev gives : Peer → List (Peer × Roles) → Bool
  gives q = any (λ e. net.peer.beq e.0 q && holds role_guard e.1)

  last_of-gives :
      (q : Peer) (entries : List (Peer × Roles)) (before : Option Roles) (roles : Roles)
      → last_of net q entries before ≡ some roles
      → holds role_guard roles ≡ true
      → (gives q entries ≡ true) ⊎ (before ≡ some roles)
  unfolding last_of
  last_of-gives q [] before roles h held = inr h
  last_of-gives q ((peer, given) ∷ entries) before roles h held =
      elim (last_of-gives q entries (if net.peer.beq peer q then some given else before) roles h
        held) [
          | inl later ↦ inl (ground arith)
          | inr here ↦ elim (Bool-cases (net.peer.beq peer q)) [
            | inl hit ↦ let same : given ≡ roles = ground arith in inl (rw (hit, same, held) refl)
            | inr miss ↦ inr (ground arith)
          ]
        ]

  gives-append :
      (q : Peer) (a b : List (Peer × Roles)) → gives q (a ++ b) ≡ (gives q a || gives q b)
  gives-append q [] b = refl
  gives-append q (e ∷ a) b = ground (arith, gives-append q a b)

  client_roles-gives :
      (q : Peer) (entries : List Allow) → gives q (client_roles parse entries) ≡ false
  unfolding client_roles
  client_roles-gives q [] = refl
  client_roles-gives q (entry ∷ entries) = ground (arith, client_roles-gives q entries)

  roles_for_config-gives :
      (q : Peer) (config : ConfigNodeGuard)
      → gives q (roles_for_config parse config) ≡ registers q config
  unfolding roles_for_config
  roles_for_config-gives q config = elim (Option-cases (parse.peer_id config.uuid)) [
    | inl bad ↦ ground (arith, client_roles-gives q config.allow)
    | inr (peer, named) ↦ ground (arith, client_roles-gives q config.allow)
  ]

  all_roles-gives :
      (q : Peer) (configs : List ConfigNodeGuard)
      → gives q (all_roles net parse json configs) ≡ any (registers q) configs
  all_roles-gives q [] = refl
  all_roles-gives q (config ∷ configs) =
      gives-append q (roles_for_config parse config) (all_roles net parse json configs)
      ∙ ap (λ b. b || gives q (all_roles net parse json configs)) (roles_for_config-gives q config)
      ∙ ap (λ b. registers q config || b) (all_roles-gives q configs)

  abbrev guard_service : ℕ → ExposedService Localhost
  guard_service port = record { target = record { port = port }; required_role = some role_guard }

  abbrev client_service : ℕ → ExposedService Localhost
  client_service port = record { target = record { port = port }; required_role = some role_client }

  -- What is behind a name.
  services-lookup :
      (guard_port client_port : ℕ) (name : Text)
      → lookup bytes_eq name (gateway_registry {Peer = Peer} guard_port client_port).services ≡ (
          if bytes_beq gwapi_guard name
          then some (guard_service guard_port)
          else if bytes_beq gwapi_client name
          then some (client_service client_port)
          else none)
  unfolding gateway_registry lookup insert
  services-lookup guard_port client_port name = refl

  one_of_two :
      (a b : Bool) (s t service : ExposedService Localhost)
      → (if a then some s else if b then some t else none) ≡ some service
      → (service ≡ s) ⊎ (service ≡ t)
  one_of_two true b s t service h = inl (ground arith)
  one_of_two false true s t service h = inr (ground arith)
  one_of_two false false s t service h = absurd (ground arith)

  service-guard_port :
      (guard_port client_port : ℕ) (name : Text) (service : ExposedService Localhost)
      → guard_port ≢ client_port
      → lookup bytes_eq name (gateway_registry {Peer = Peer} guard_port client_port).services
        ≡ some service
      → service.target.port ≡ guard_port
      → service.required_role ≡ some role_guard
  service-guard_port guard_port client_port name service apart h e =
      elim (one_of_two (bytes_beq gwapi_guard name) (bytes_beq gwapi_client name)
        (guard_service guard_port) (client_service client_port) service
        (sym (services-lookup guard_port client_port name) ∙ h)) [
          | inl same ↦ ap (λ (s : ExposedService Localhost). s.required_role) same
          | inr other ↦
              absurd (apart (sym e ∙ ap (λ (s : ExposedService Localhost). s.target.port) other))
        ]

  reaches-target :
      (port : ℕ) (target : Localhost) (a b : Bool)
      → reaches port
          (connect target ∷ (if a then send tunnel_ack ∷ (if b then relay ∷ [] else []) else []))
        ≡ true
      → target.port ≡ port
  reaches-target port target a b h = ground arith

  -- With the whitelist of a start, a stream leads to the port of the Guards' router only for a
  -- peer that is itself the Guard of a configuration in the database.
  reaches-registered :
      (db : Database) (configs : List ConfigNodeGuard) (whitelist : Whitelist Peer)
      (guard_port client_port : ℕ) (q : Peer) (roles : Roles) (world : World Localhost)
      → guard_port ≢ client_port
      → stored net parse json db.rows ≡ some configs
      → rebuild_whitelist net parse json db ≡ some whitelist
      → Whitelist.roles net whitelist q ≡ some roles
      → reaches guard_port
          (serve_io net bin (gateway_registry guard_port client_port) q roles world).1
        ≡ true
      → any (registers q) configs ≡ true
  unfolding rebuild_whitelist
  reaches-registered db configs whitelist guard_port client_port q roles world apart read started
        has h =
      elim (serve_io-cases net bin (gateway_registry guard_port client_port) q roles world) [
        | inl silent ↦ absurd (ground (arith, silent, h))
        | inr (service, m) ↦
            let (_, _, actions) = serve_io_passes net bin _ q roles world service m in
            let at : service.target.port ≡ guard_port =
              reaches-target guard_port service.target _ _
                (sym (ap (reaches guard_port) actions) ∙ h) in
            let required = service-guard_port guard_port client_port _ service apart m.exposed at in
            let held = m.holds_role role_guard required in
            let made = allow_rows-all net parse json db.rows [] configs read in
            let w : whitelist ≡ allowed_by net [] (all_roles net parse json configs) =
              ground (arith, started, made) in
            let last : last_of net q (all_roles net parse json configs) none ≡ some roles =
              ap (last_of net q (all_roles net parse json configs))
                (sym (roles-empty net parse json q))
              ∙ sym (roles-allowed_by net [] (all_roles net parse json configs) q tt)
              ∙ ap (λ l. Whitelist.roles net l q) (sym w)
              ∙ has in
            elim (last_of-gives q (all_roles net parse json configs) none roles last held) [
              | inl given ↦ sym (all_roles-gives q configs) ∙ given
              | inr never ↦ absurd (ground arith)
            ]
      ]

  module _ {Keypair Ip SocketAddr Multiaddr : Type 0} (keys : Ed25519 Keypair) (ip : Eq Ip)
      (host : Host Keypair Text Multiaddr) (addresses : AddressParsers SocketAddr Multiaddr) where
    -- On a gateway that has started from its environment and its database, with the whitelist of
    -- its start, a stream leads to the port of the Guards' router only for a peer that is itself the
    -- Guard of a configuration in the database.
    pub booted_reaches-registered :
        (env : Settings.Key → Option Text) (cfg : Config SocketAddr Multiaddr) (db : Database)
        (configs : List ConfigNodeGuard) (b : Booted net parse json Keypair Multiaddr Ip) (q : Peer)
        (roles : Roles) (world : World Localhost)
        → from_env addresses env ≡ ok cfg
        → boot net parse json keys ip host (from_env addresses env) (some db) ≡ some b
        → stored net parse json db.rows ≡ some configs
        → Whitelist.roles net b.authenticator.whitelist q ≡ some roles
        → reaches cfg.guard_port (serve_io net bin b.registry q roles world).1 ≡ true
        → any (registers q) configs ≡ true
    unfolding boot Auth.new
    booted_reaches-registered env cfg db configs b q roles world valid booted read has h =
        let (_, _, apart, _) = from_env-strict addresses env cfg valid in
        elim (Option-cases (rebuild_whitelist net parse json db)) [
          | inl gone ↦ absurd (ground (arith, valid, booted, gone))
          | inr (whitelist, made) ↦
              elim (Result-cases
                (build keys ip host (gateway_builder net parse json keys ip host cfg))) [
                  | inr (e, failed) ↦ absurd (ground (arith, valid, booted, made, failed))
                  | inl (node, built) ↦
                      let w : b.authenticator.whitelist ≡ whitelist =
                        ground (arith, valid, booted, made, built) in
                      let r : b.registry ≡ gateway_registry cfg.guard_port cfg.client_port =
                        ground (arith, valid, booted, made, built) in
                      reaches-registered db configs whitelist cfg.guard_port cfg.client_port q roles
                        world apart read made (ap (λ l. Whitelist.roles net l q) (sym w) ∙ has)
                        (ap (λ g. reaches cfg.guard_port (serve_io net bin g q roles world).1)
                            (sym r)
                          ∙ h)
                ]
        ]

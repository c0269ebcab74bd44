-- ===== src/Gateway/Boot/Restart.antt =====
-- The whitelist that a start of the gateway makes, and the one that it has kept until then.
use nux_auth.Prelude.{
  ◌≡◌, refl, ◌∙◌, arith, Bool, true, false, List, [], ◌∷◌, ◌++◌, Option, none, some, any,
  Option-cases, inl, inr,
}
use nux_auth.Prelude.Assoc.{Distinct, lookup}
use nux_auth.Net.{Net}
use nux_auth.Whitelist
use nux_auth.Whitelist.{Whitelist, Roles}
use nux_auth.Whitelist.Laws.{roles-lookup}
use nux_auth.Gateway.{Parsers, ConfigNodeGuard}
use nux_auth.Gateway.Roles.{roles_for_config, allowed_by, last_of, roles-allowed_by}
use nux_auth.Gateway.Configs.{Json, Table, Database, from_row}
use nux_auth.Gateway.Boot.{allow_rows, rebuild_whitelist}

module _ {Peer Key : Type 0} (net : Net Peer Key) (parse : Parsers Peer) (json : Json) where
  -- The configurations of the rows, if every row can be read.
  abbrev pub stored : Table → Option (List ConfigNodeGuard)
  stored [] = some []
  stored ((uuid, row) ∷ rows) = elim (from_row json row) [
    | none ↦ none
    | some config ↦ elim (stored rows) [ none ↦ none | some rest ↦ some (config ∷ rest) ]
  ]

  -- Every role that the configurations give, in their order.
  abbrev pub all_roles : List ConfigNodeGuard → List (Peer × Roles)
  all_roles [] = []
  all_roles (config ∷ configs) = roles_for_config parse config ++ all_roles configs

  abbrev pub names : Peer → List (Peer × Roles) → Bool
  names q = any (λ e. net.peer.beq e.0 q)

  allowed_by-append :
      (w : Whitelist Peer) (a b : List (Peer × Roles))
      → allowed_by net w (a ++ b) ≡ allowed_by net (allowed_by net w a) b
  unfolding allowed_by
  allowed_by-append w [] b = refl
  allowed_by-append w ((peer, roles) ∷ a) b =
      allowed_by-append (Whitelist.allow net peer roles w) a b

  pub allow_rows-all :
      (rows : Table) (w : Whitelist Peer) (configs : List ConfigNodeGuard)
      → stored rows ≡ some configs
      → allow_rows net parse json rows w ≡ some (allowed_by net w (all_roles configs))
  unfolding allow_rows allowed_by
  allow_rows-all [] w configs h = ground arith
  allow_rows-all ((uuid, row) ∷ rows) w configs h = elim (Option-cases (from_row json row)) [
    | inl bad ↦ absurd (ground arith)
    | inr (config, read) ↦ elim (Option-cases (stored rows)) [
      | inl gone ↦ absurd (ground arith)
      | inr (rest, kept) ↦
          let w' = allowed_by net w (roles_for_config parse config) in
          let next = allow_rows-all rows w' rest kept in
          let split = allowed_by-append w (roles_for_config parse config) (all_roles rest) in
          ground (arith, next, split)
    ]
  ]

  last_of-unnamed :
      (q : Peer) (entries : List (Peer × Roles)) (before : Option Roles)
      → names q entries ≡ false
      → last_of net q entries before ≡ before
  unfolding last_of
  last_of-unnamed q [] before h = refl
  last_of-unnamed q ((peer, roles) ∷ entries) before h =
      ground (arith, last_of-unnamed q entries before)

  pub roles-empty : (q : Peer) → Whitelist.roles net [] q ≡ none
  unfolding lookup
  roles-empty q = roles-lookup net [] q tt

  -- The commands of a configuration leave a peer that it does not name with the roles that it had;
  -- a start from a database whose configurations can be read and do not name the peer leaves it
  -- without.
  pub withdrawn_at_restart :
      (live : Whitelist Peer) (saved : ConfigNodeGuard) (db : Database)
      (configs : List ConfigNodeGuard) (q : Peer)
      → Distinct net.peer live
      → names q (roles_for_config parse saved) ≡ false
      → db.works ≡ true
      → stored db.rows ≡ some configs
      → names q (all_roles configs) ≡ false
      → (Whitelist.roles net (allowed_by net live (roles_for_config parse saved)) q
          ≡ Whitelist.roles net live q)
        × (rebuilt : Whitelist Peer) × (rebuild_whitelist net parse json db ≡ some rebuilt)
        × (Whitelist.roles net rebuilt q ≡ none)
  unfolding rebuild_whitelist
  withdrawn_at_restart live saved db configs q d unnamed works read absent = (
    roles-allowed_by net live (roles_for_config parse saved) q d
        ∙ last_of-unnamed q (roles_for_config parse saved) _ unnamed,
    allowed_by net [] (all_roles configs),
    rw works (allow_rows-all db.rows [] configs read),
    roles-allowed_by net [] (all_roles configs) q tt
        ∙ last_of-unnamed q (all_roles configs) _ absent
        ∙ roles-empty q,
  )

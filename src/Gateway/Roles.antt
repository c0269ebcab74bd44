-- ===== src/Gateway/Roles.antt =====
-- nux_gateway/src/roles.rs: the roles of tunnels that a configuration gives, and what a Guard that
-- obeys them makes of its whitelist.
use nux_auth.Prelude.{◌≡◌, refl, List, [], ◌∷◌, Option, none, some, if◌then◌else◌}
use nux_auth.Prelude.Assoc.{Distinct}
use nux_auth.Gateway.{Text, Allow, ConfigNodeGuard, Parsers}
use nux_auth.Net.{Net}
use nux_auth.Node.{GuardControl}
use nux_auth.Whitelist
use nux_auth.Whitelist.{Whitelist, Roles}
use nux_auth.Whitelist.Laws.{roles-allow, allow-Distinct}

-- "gw-guard" and "gw-client".
abbrev pub role_guard : Text
role_guard = 103 ∷ 119 ∷ 45 ∷ 103 ∷ 117 ∷ 97 ∷ 114 ∷ 100 ∷ []

abbrev pub role_client : Text
role_client = 103 ∷ 119 ∷ 45 ∷ 99 ∷ 108 ∷ 105 ∷ 101 ∷ 110 ∷ 116 ∷ []

module _ {Peer : Type 0} (parse : Parsers Peer) where
  -- The loop over the allowed peers; an entry that names no identity is skipped.
  unfoldable pub client_roles : List Allow → List (Peer × Roles)
  client_roles [] = []
  client_roles (entry ∷ entries) =
      let rest = client_roles entries in
      elim (parse.peer_id entry.peer) [ none ↦ rest | some peer ↦ (peer, role_client ∷ []) ∷ rest ]

  unfoldable pub roles_for_config : ConfigNodeGuard → List (Peer × Roles)
  unfolding client_roles
  roles_for_config config =
      let rest = client_roles config.allow in
      elim (parse.peer_id config.uuid) [
        | none ↦ rest
        | some peer ↦ (peer, role_guard ∷ role_client ∷ []) ∷ rest
      ]

module _ {Peer : Type 0} where
  -- The commands of `put_config`, in the order in which they are sent.
  unfoldable pub commands : List (Peer × Roles) → List (GuardControl Peer)
  commands [] = []
  commands ((peer, roles) ∷ entries) = GuardControl.allow peer roles ∷ commands entries

module _ {Peer Key : Type 0} (net : Net Peer Key) where
  -- The whitelist of a Guard that obeys `Allow` commands; other commands are not among them.
  unfoldable pub allowed_by : Whitelist Peer → List (Peer × Roles) → Whitelist Peer
  allowed_by w [] = w
  allowed_by w ((peer, roles) ∷ entries) = allowed_by (Whitelist.allow net peer roles w) entries

  -- The roles of the last entry that names the peer.
  unfoldable pub last_of : Peer → List (Peer × Roles) → Option Roles → Option Roles
  last_of q [] before = before
  last_of q ((peer, roles) ∷ entries) before =
      last_of q entries (if net.peer.beq peer q then some roles else before)

  -- After the commands of a configuration a peer has the roles of the last entry that names it, and
  -- a peer that no entry names keeps what it had.
  pub roles-allowed_by :
      (w : Whitelist Peer) (entries : List (Peer × Roles)) (q : Peer)
      → Distinct net.peer w
      → Whitelist.roles net (allowed_by w entries) q ≡ last_of q entries (Whitelist.roles net w q)
  unfolding allowed_by last_of
  roles-allowed_by w [] q d = refl
  roles-allowed_by w ((peer, roles) ∷ entries) q d = rw (← roles-allow net w peer q roles d) (
      roles-allowed_by (Whitelist.allow net peer roles w) entries q
        (allow-Distinct net w peer roles d))

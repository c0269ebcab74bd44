-- ===== src/Whitelist.antt =====
-- crates/nux-core/src/auth/whitelist.rs: the peers that are allowed, each with its roles.
pub mod Laws
mod Tests
use nux_auth.Prelude.{
  ℕ, zero, suc, Bool, ◌&&◌, List, [], ◌∷◌, Option, none, some, length, get_elem?, ◌==◌,
  if◌then◌else◌,
}
use nux_auth.Prelude.Assoc.{insert, remove}
use nux_auth.Net.{Net}

-- A role is a text, as the list of its bytes.
abbrev pub Roles : Type 0
Roles = List (List ℕ)

-- The entries, in the order of the vector.
abbrev pub Whitelist : Type 0 → Type 0
Whitelist Peer = List (Peer × Roles)

unfoldable pub new : {Peer : Type 0} → Whitelist Peer
new = []

module _ {Peer Key : Type 0} (net : Net Peer Key) where
  -- Replaces the roles of a known peer in place, and pushes an unknown one.
  unfoldable pub allow : Peer → Roles → Whitelist Peer → Whitelist Peer
  unfolding insert
  allow peer roles entries = insert net.peer peer roles entries

  unfoldable pub revoke : Peer → Whitelist Peer → Whitelist Peer
  unfolding remove
  revoke peer entries = remove net.peer peer entries

  -- The comparison of `roles`: the lengths, then every byte in constant time.
  unfoldable pub same_bytes : List ℕ → List ℕ → Bool
  same_bytes a b = length a == length b && net.constant_time_eq a b

  -- The whole walk: no early exit, so the last match stays.
  pub scan : List ℕ → ℕ → Whitelist Peer → Option ℕ → Option ℕ
  scan needle index [] found = found
  scan needle index ((candidate, _) ∷ entries) found =
      scan needle (suc index) entries
        (if same_bytes (net.to_bytes candidate) needle then some index else found)

  pub roles : Whitelist Peer → Peer → Option Roles
  unfolding scan same_bytes
  roles entries peer = elim (scan (net.to_bytes peer) zero entries none) [
    | none ↦ none
    | some index ↦ elim (get_elem? entries index) [ none ↦ none | some entry ↦ some entry.1 ]
  ]

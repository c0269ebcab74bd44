-- ===== src/Client.antt =====
-- crates/nux-core/src/node.rs: what a client waits for. A loop over `next_event` is recursion on
-- the events that come; where they end it is still waiting, and the result is `none`.
pub mod Handshake
pub mod Access
pub mod Grants
pub mod Backoff
pub mod Waits
pub mod Rendezvous
pub mod Session
pub mod Tunnels
mod Tests
use nux_auth.Prelude.{
  ℕ, Bool, true, false, ◌&&◌, List, [], ◌∷◌, Option, none, some, ◌==◌, if◌then◌else◌, Eq, Result,
  ok, err,
}
use nux_auth.Error.{NuxError, NuxResult}
use nux_auth.Protocol.{NuxResponse}

-- The events of the swarm that the waits tell apart; `other` stands for all else.
pub data ClientEvent (Peer : Type 0) : Type 0 where
  connection_established : Peer → ClientEvent Peer
  outgoing_connection_error : Option Peer → ClientEvent Peer
  reservation_req_accepted : Peer → ClientEvent Peer
  response : Peer → ℕ → NuxResponse → ClientEvent Peer
  outbound_failure : Peer → ℕ → ClientEvent Peer
  connection_closed : Peer → ClientEvent Peer
  other : ClientEvent Peer

module _ {Peer : Type 0} where
  unfoldable pub next_connection : List (ClientEvent Peer) → Option (NuxResult Peer)
  next_connection [] = none
  next_connection (connection_established p ∷ events) = some (ok p)
  next_connection (outgoing_connection_error p ∷ events) = some (err NuxError.dial)
  next_connection (_ ∷ events) = next_connection events

module _ {Peer : Type 0} (e : Eq Peer) where
  abbrev pub is_peer : Option Peer → Peer → Bool
  is_peer none peer = false
  is_peer (some p) peer = e.beq p peer

  -- The result, and the events that are left for the loop behind it.
  unfoldable pub wait_for_peer :
      Peer → List (ClientEvent Peer) → Option (NuxResult (List (ClientEvent Peer)))
  wait_for_peer peer [] = none
  wait_for_peer peer (connection_established p ∷ events) =
      if e.beq p peer then some (ok events) else wait_for_peer peer events
  wait_for_peer peer (outgoing_connection_error p ∷ events) =
      if is_peer p peer then some (err NuxError.dial) else wait_for_peer peer events
  wait_for_peer peer (_ ∷ events) = wait_for_peer peer events

  unfoldable pub wait_for_circuit_reservation :
      Peer → List (ClientEvent Peer) → Option (NuxResult (List (ClientEvent Peer)))
  wait_for_circuit_reservation relay_node [] = none
  wait_for_circuit_reservation relay_node (reservation_req_accepted p ∷ events) =
      if e.beq p relay_node
      then some (ok events)
      else wait_for_circuit_reservation relay_node events
  wait_for_circuit_reservation relay_node (connection_closed p ∷ events) =
      if e.beq p relay_node
      then some (err NuxError.network)
      else wait_for_circuit_reservation relay_node events
  wait_for_circuit_reservation relay_node (_ ∷ events) =
      wait_for_circuit_reservation relay_node events

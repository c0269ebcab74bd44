-- ===== src/Client/Waits.antt =====
-- What a client's waits for a connection and for a reservation return on.
use nux_auth.Prelude.{
  ◌≡◌, inl, inr, refl, ap, Bool, false, List, [], ◌∷◌, ◌++◌, some, arith, Eq, ok, Bool-cases, any,
}
use nux_auth.Client.{
  ClientEvent, connection_established, outgoing_connection_error, reservation_req_accepted,
  response, outbound_failure, connection_closed, other, wait_for_peer, wait_for_circuit_reservation,
  is_peer,
}

module _ {Peer : Type 0} (e : Eq Peer) where
  -- The events that end the wait for a peer.
  abbrev pub connects_or_fails : Peer → ClientEvent Peer → Bool
  connects_or_fails peer (connection_established p) = e.beq p peer
  connects_or_fails peer (outgoing_connection_error p) = is_peer e p peer
  connects_or_fails peer _ = false

  -- The events that end the wait for a reservation.
  abbrev pub reserves_or_closes : Peer → ClientEvent Peer → Bool
  reserves_or_closes peer (reservation_req_accepted p) = e.beq p peer
  reserves_or_closes peer (connection_closed p) = e.beq p peer
  reserves_or_closes peer _ = false

  -- The first event that ends a wait, and what comes behind it.
  abbrev pub FirstOf :
      (ClientEvent Peer → Bool)
      → ClientEvent Peer
      → List (ClientEvent Peer)
      → List (ClientEvent Peer)
      → Type 0
  FirstOf ends x events rest =
      (before : List (ClientEvent Peer)) × (any ends before ≡ false) × (events ≡ before ++ x ∷ rest)

  FirstOf-later :
      (ends : ClientEvent Peer → Bool) (y x : ClientEvent Peer)
      (events rest : List (ClientEvent Peer))
      → ends y ≡ false
      → FirstOf ends x events rest
      → FirstOf ends x (y ∷ events) rest
  FirstOf-later ends y x events rest off (before, free, h) =
      (y ∷ before, rw off free, ap (λ l. y ∷ l) h)

  -- The wait for a peer succeeds only on a connection to that very peer, the first event that is
  -- about dialling it, and leaves the events behind it.
  pub wait_for_peer-FirstOf :
      (peer : Peer) (events rest : List (ClientEvent Peer))
      → wait_for_peer e peer events ≡ some (ok rest)
      → FirstOf (connects_or_fails peer) (connection_established peer) events rest
  unfolding wait_for_peer
  wait_for_peer-FirstOf peer [] rest h = absurd (ground arith)
  wait_for_peer-FirstOf peer (connection_established p ∷ events) rest h =
      elim (Bool-cases (e.beq p peer)) [
        | inl hit ↦
            let who : p ≡ peer = (e.beq_iff p peer).0 hit in
            let same : events ≡ rest = ground (arith, hit, h) in ([], refl, rw (who, same) refl)
        | inr off ↦
            FirstOf-later (connects_or_fails peer) (connection_established p) _ events rest off
              (wait_for_peer-FirstOf peer events rest (ground (arith, off, h)))
      ]
  wait_for_peer-FirstOf peer (outgoing_connection_error p ∷ events) rest h =
      elim (Bool-cases (is_peer e p peer)) [
        | inl hit ↦ absurd (ground (arith, hit, h))
        | inr off ↦
            FirstOf-later (connects_or_fails peer) (outgoing_connection_error p) _ events rest off
              (wait_for_peer-FirstOf peer events rest (ground (arith, off, h)))
      ]
  wait_for_peer-FirstOf peer (reservation_req_accepted p ∷ events) rest h =
      FirstOf-later (connects_or_fails peer) (reservation_req_accepted p) _ events rest refl
        (wait_for_peer-FirstOf peer events rest h)
  wait_for_peer-FirstOf peer (response p id r ∷ events) rest h =
      FirstOf-later (connects_or_fails peer) (response p id r) _ events rest refl
        (wait_for_peer-FirstOf peer events rest h)
  wait_for_peer-FirstOf peer (outbound_failure p id ∷ events) rest h =
      FirstOf-later (connects_or_fails peer) (outbound_failure p id) _ events rest refl
        (wait_for_peer-FirstOf peer events rest h)
  wait_for_peer-FirstOf peer (connection_closed p ∷ events) rest h =
      FirstOf-later (connects_or_fails peer) (connection_closed p) _ events rest refl
        (wait_for_peer-FirstOf peer events rest h)
  wait_for_peer-FirstOf peer (other ∷ events) rest h =
      FirstOf-later (connects_or_fails peer) other _ events rest refl
        (wait_for_peer-FirstOf peer events rest h)

  -- The wait for a reservation succeeds only on one that the very relay accepted, before it closed
  -- the connection.
  pub wait_for_circuit_reservation-FirstOf :
      (relay_node : Peer) (events rest : List (ClientEvent Peer))
      → wait_for_circuit_reservation e relay_node events ≡ some (ok rest)
      → FirstOf (reserves_or_closes relay_node) (reservation_req_accepted relay_node) events rest
  unfolding wait_for_circuit_reservation
  wait_for_circuit_reservation-FirstOf peer [] rest h = absurd (ground arith)
  wait_for_circuit_reservation-FirstOf peer (reservation_req_accepted p ∷ events) rest h =
      elim (Bool-cases (e.beq p peer)) [
        | inl hit ↦
            let who : p ≡ peer = (e.beq_iff p peer).0 hit in
            let same : events ≡ rest = ground (arith, hit, h) in ([], refl, rw (who, same) refl)
        | inr off ↦
            FirstOf-later (reserves_or_closes peer) (reservation_req_accepted p) _ events rest off
              (wait_for_circuit_reservation-FirstOf peer events rest (ground (arith, off, h)))
      ]
  wait_for_circuit_reservation-FirstOf peer (connection_closed p ∷ events) rest h =
      elim (Bool-cases (e.beq p peer)) [
        | inl hit ↦ absurd (ground (arith, hit, h))
        | inr off ↦
            FirstOf-later (reserves_or_closes peer) (connection_closed p) _ events rest off
              (wait_for_circuit_reservation-FirstOf peer events rest (ground (arith, off, h)))
      ]
  wait_for_circuit_reservation-FirstOf peer (connection_established p ∷ events) rest h =
      FirstOf-later (reserves_or_closes peer) (connection_established p) _ events rest refl
        (wait_for_circuit_reservation-FirstOf peer events rest h)
  wait_for_circuit_reservation-FirstOf peer (outgoing_connection_error p ∷ events) rest h =
      FirstOf-later (reserves_or_closes peer) (outgoing_connection_error p) _ events rest refl
        (wait_for_circuit_reservation-FirstOf peer events rest h)
  wait_for_circuit_reservation-FirstOf peer (response p id r ∷ events) rest h =
      FirstOf-later (reserves_or_closes peer) (response p id r) _ events rest refl
        (wait_for_circuit_reservation-FirstOf peer events rest h)
  wait_for_circuit_reservation-FirstOf peer (outbound_failure p id ∷ events) rest h =
      FirstOf-later (reserves_or_closes peer) (outbound_failure p id) _ events rest refl
        (wait_for_circuit_reservation-FirstOf peer events rest h)
  wait_for_circuit_reservation-FirstOf peer (other ∷ events) rest h =
      FirstOf-later (reserves_or_closes peer) other _ events rest refl
        (wait_for_circuit_reservation-FirstOf peer events rest h)

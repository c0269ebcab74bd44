-- ===== src/Client/Access.antt =====
-- The client's loop once the challenge is answered: what a grant needs, and what it ignores.
use nux_auth.Prelude.{
  ℕ, ◌≡◌, inl, inr, refl, ap, Bool, false, ◌&&◌, List, [], ◌∷◌, ◌++◌, some, arith, ◌==◌, ==_iff, Eq,
  ok, Bool-cases, any,
}
use nux_auth.Protocol.{NuxResponse, challenge, access_granted, denied}
use nux_auth.Client.{
  ClientEvent, connection_established, outgoing_connection_error, reservation_req_accepted,
  response, outbound_failure, connection_closed, other,
}
use nux_auth.Client.Handshake.{access_of, await_access}

module _ {Peer : Type 0} (e : Eq Peer) where
  -- An event stands in a sequence.
  abbrev pub Occurs : ClientEvent Peer → List (ClientEvent Peer) → Type 0
  Occurs x events =
      (before : List (ClientEvent Peer)) × (after : List (ClientEvent Peer)) × (events
        ≡ before ++ x ∷ after)

  pub Occurs-later :
      (y x : ClientEvent Peer) (events : List (ClientEvent Peer))
      → Occurs x events
      → Occurs x (y ∷ events)
  Occurs-later y x events (before, after, h) = (y ∷ before, after, ap (λ l. y ∷ l) h)

  -- The events of a peer that the loops of the handshake look at.
  abbrev pub concerns : Peer → ClientEvent Peer → Bool
  concerns guard (response p id r) = e.beq p guard
  concerns guard (outbound_failure p id) = e.beq p guard
  concerns guard (connection_closed p) = e.beq p guard
  concerns guard _ = false

  access_of-ok :
      (r : NuxResponse) (roles : List (List ℕ)) → access_of r ≡ ok roles → r ≡ access_granted roles
  unfolding access_of
  access_of-ok (access_granted rs) roles h = ground arith
  access_of-ok denied roles h = absurd (ground arith)
  access_of-ok (challenge n t) roles h = absurd (ground arith)

  pub await_access-granted :
      (guard : Peer) (awaiting : ℕ) (events : List (ClientEvent Peer)) (roles : List (List ℕ))
      → (await_access e guard awaiting events).outcome ≡ some (ok roles)
      → Occurs (response guard awaiting (access_granted roles)) events
  unfolding await_access
  await_access-granted guard awaiting [] roles h = absurd (ground arith)
  await_access-granted guard awaiting (response p id r ∷ events) roles h =
      elim (Bool-cases (e.beq p guard && (id == awaiting))) [
        | inl hit ↦
            let who : p ≡ guard = ground (arith, e.beq_iff p guard) in
            let which : id ≡ awaiting = ground (arith, ==_iff id awaiting) in
            let what : r ≡ access_granted roles = access_of-ok r roles (ground (arith, hit, h)) in
            ([], events, rw (who, which, what) refl)
        | inr off ↦
            Occurs-later _ _ events
              (await_access-granted guard awaiting events roles (ground (arith, off, h)))
      ]
  await_access-granted guard awaiting (outbound_failure p id ∷ events) roles h =
      Occurs-later _ _ events (await_access-granted guard awaiting events roles (ground (arith, h)))
  await_access-granted guard awaiting (connection_closed p ∷ events) roles h =
      Occurs-later _ _ events (await_access-granted guard awaiting events roles (ground (arith, h)))
  await_access-granted guard awaiting (connection_established p ∷ events) roles h =
      Occurs-later _ _ events (await_access-granted guard awaiting events roles h)
  await_access-granted guard awaiting (outgoing_connection_error p ∷ events) roles h =
      Occurs-later _ _ events (await_access-granted guard awaiting events roles h)
  await_access-granted guard awaiting (reservation_req_accepted p ∷ events) roles h =
      Occurs-later _ _ events (await_access-granted guard awaiting events roles h)
  await_access-granted guard awaiting (other ∷ events) roles h =
      Occurs-later _ _ events (await_access-granted guard awaiting events roles h)

  pub await_access-sent :
      (guard : Peer) (awaiting : ℕ) (events : List (ClientEvent Peer))
      → (await_access e guard awaiting events).sent ≡ []
  unfolding await_access
  await_access-sent guard awaiting [] = refl
  await_access-sent guard awaiting (response p id r ∷ events) =
      ground (arith, await_access-sent guard awaiting events)
  await_access-sent guard awaiting (outbound_failure p id ∷ events) =
      ground (arith, await_access-sent guard awaiting events)
  await_access-sent guard awaiting (connection_closed p ∷ events) =
      ground (arith, await_access-sent guard awaiting events)
  await_access-sent guard awaiting (connection_established p ∷ events) =
      await_access-sent guard awaiting events
  await_access-sent guard awaiting (outgoing_connection_error p ∷ events) =
      await_access-sent guard awaiting events
  await_access-sent guard awaiting (reservation_req_accepted p ∷ events) =
      await_access-sent guard awaiting events
  await_access-sent guard awaiting (other ∷ events) = await_access-sent guard awaiting events

  -- Events of other peers change nothing.
  pub await_access-skip :
      (guard : Peer) (awaiting : ℕ) (noise events : List (ClientEvent Peer))
      → any (concerns guard) noise ≡ false
      → await_access e guard awaiting (noise ++ events) ≡ await_access e guard awaiting events
  unfolding await_access
  await_access-skip guard awaiting [] events h = refl
  await_access-skip guard awaiting (response p id r ∷ noise) events h =
      ground (arith, await_access-skip guard awaiting noise events)
  await_access-skip guard awaiting (outbound_failure p id ∷ noise) events h =
      ground (arith, await_access-skip guard awaiting noise events)
  await_access-skip guard awaiting (connection_closed p ∷ noise) events h =
      ground (arith, await_access-skip guard awaiting noise events)
  await_access-skip guard awaiting (connection_established p ∷ noise) events h =
      await_access-skip guard awaiting noise events h
  await_access-skip guard awaiting (outgoing_connection_error p ∷ noise) events h =
      await_access-skip guard awaiting noise events h
  await_access-skip guard awaiting (reservation_req_accepted p ∷ noise) events h =
      await_access-skip guard awaiting noise events h
  await_access-skip guard awaiting (other ∷ noise) events h =
      await_access-skip guard awaiting noise events h

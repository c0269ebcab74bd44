-- ===== src/Client/Grants.antt =====
-- What the handshake of a client comes to: where its roles come from, and when it gets them.
use nux_auth.Prelude.{
  ℕ, ◌≡◌, inl, inr, refl, ap, ◌∙◌, true, false, ◌&&◌, List, [], ◌∷◌, ◌++◌, Option, some, arith,
  ◌==◌, ==_iff, beq_refl, Eq, ok, Bool-cases, any, Result-cases,
}
use nux_auth.Auth.{answer_challenge}
use nux_auth.Protocol.{NuxRequest, NuxResponse, handshake_init, challenge, access_granted, denied}
use nux_auth.Client.{
  ClientEvent, connection_established, outgoing_connection_error, reservation_req_accepted,
  response, outbound_failure, connection_closed, other,
}
use nux_auth.Client.Handshake.{
  over, sending, access_of, await_access, answer_to, await_challenge, authenticate,
}
use nux_auth.Client.Access.{
  Occurs, Occurs-later, concerns, await_access-granted, await_access-sent, await_access-skip,
}

module _ {Peer : Type 0} (e : Eq Peer) (sign : List ℕ → Option (List ℕ)) where
  -- What stands behind roles that a client obtains.
  pub record Earned (guard : Peer) (first second now : ℕ) (events : List (ClientEvent Peer))
      (roles : List (List ℕ)) (sent : List NuxRequest) : Type 0 where
    pub nonce : List ℕ
    pub issued : ℕ
    pub answer : NuxRequest
    pub challenged : Occurs e (response guard first (challenge nonce issued)) events
    pub answered : answer_challenge sign nonce now ≡ ok answer
    pub granted : Occurs e (response guard second (access_granted roles)) events
    pub asked : sent ≡ answer ∷ []

  Earned-later :
      (guard : Peer) (first second now : ℕ) (y : ClientEvent Peer)
      (events : List (ClientEvent Peer)) (roles : List (List ℕ)) (sent : List NuxRequest)
      → Earned guard first second now events roles sent
      → Earned guard first second now (y ∷ events) roles sent
  Earned-later guard first second now y events roles sent k = record {
    nonce = k.nonce;
    issued = k.issued;
    answer = k.answer;
    challenged = Occurs-later e y _ events k.challenged;
    answered = k.answered;
    granted = Occurs-later e y _ events k.granted;
    asked = k.asked;
  }

  answer_to-Earned :
      (guard : Peer) (first second now : ℕ) (r : NuxResponse) (events : List (ClientEvent Peer))
      (roles : List (List ℕ))
      → (answer_to e sign guard second now r events).outcome ≡ some (ok roles)
      → Earned guard first second now
          (response guard first r ∷ events)
          roles
          (answer_to e sign guard second now r events).sent
  unfolding answer_to
  answer_to-Earned guard first second now (challenge nonce issued) events roles h =
      elim (Result-cases (answer_challenge sign nonce now)) [
        | inl (answer, made) ↦ record {
          nonce = nonce;
          issued = issued;
          answer = answer;
          challenged = ([], events, refl);
          answered = made;
          granted =
              Occurs-later e _ _ events
                (await_access-granted e guard second events roles (ground (arith, made, h)));
          asked = ground (arith, made, await_access-sent e guard second events);
        }
        | inr (x, fails) ↦ absurd (ground (arith, fails, h))
      ]
  answer_to-Earned guard first second now denied events roles h = absurd (ground arith)
  answer_to-Earned guard first second now (access_granted rs) events roles h = absurd (ground arith)

  await_challenge-Earned :
      (guard : Peer) (first second now : ℕ) (events : List (ClientEvent Peer))
      (roles : List (List ℕ))
      → (await_challenge e sign guard first second now events).outcome ≡ some (ok roles)
      → Earned guard first second now events roles
          (await_challenge e sign guard first second now events).sent
  unfolding await_challenge
  await_challenge-Earned guard first second now [] roles h = absurd (ground arith)
  await_challenge-Earned guard first second now (response p id r ∷ events) roles h =
      elim (Bool-cases (e.beq p guard && (id == first))) [
        | inl hit ↦
            let who : p ≡ guard = ground (arith, e.beq_iff p guard) in
            let which : id ≡ first = ground (arith, ==_iff id first) in
            let got =
              answer_to-Earned guard first second now r events roles (ground (arith, hit, h)) in
            rw (hit, who, which) got
        | inr off ↦ rw off (
            Earned-later guard first second now _ events roles _
              (await_challenge-Earned guard first second now events roles (ground (arith, off, h))))
      ]
  await_challenge-Earned guard first second now (outbound_failure p id ∷ events) roles h =
      elim (Bool-cases (e.beq p guard && (id == first))) [
        | inl hit ↦ absurd (ground (arith, hit, h))
        | inr off ↦ rw off (
            Earned-later guard first second now _ events roles _
              (await_challenge-Earned guard first second now events roles (ground (arith, off, h))))
      ]
  await_challenge-Earned guard first second now (connection_closed p ∷ events) roles h =
      elim (Bool-cases (e.beq p guard)) [
        | inl hit ↦ absurd (ground (arith, hit, h))
        | inr off ↦ rw off (
            Earned-later guard first second now _ events roles _
              (await_challenge-Earned guard first second now events roles (ground (arith, off, h))))
      ]
  await_challenge-Earned guard first second now (connection_established p ∷ events) roles h =
      Earned-later guard first second now _ events roles _
        (await_challenge-Earned guard first second now events roles h)
  await_challenge-Earned guard first second now (outgoing_connection_error p ∷ events) roles h =
      Earned-later guard first second now _ events roles _
        (await_challenge-Earned guard first second now events roles h)
  await_challenge-Earned guard first second now (reservation_req_accepted p ∷ events) roles h =
      Earned-later guard first second now _ events roles _
        (await_challenge-Earned guard first second now events roles h)
  await_challenge-Earned guard first second now (other ∷ events) roles h =
      Earned-later guard first second now _ events roles _
        (await_challenge-Earned guard first second now events roles h)

  -- A client that is connected obtains roles only from its Guard: a challenge of the Guard answers
  -- the first request, the client signs it and sends that answer and nothing more, and the Guard's
  -- response to that answer grants exactly those roles.
  pub authenticate-Earned :
      (guard : Peer) (first second now : ℕ) (events : List (ClientEvent Peer))
      (roles : List (List ℕ))
      → (authenticate e sign true guard first second now events).outcome ≡ some (ok roles)
      → (sent : List NuxRequest) × ((authenticate e sign true guard first second now events).sent
          ≡ handshake_init ∷ sent)
        × Earned guard first second now events roles sent
  unfolding authenticate
  authenticate-Earned guard first second now events roles h = (
    (await_challenge e sign guard first second now events).sent,
    refl,
    await_challenge-Earned guard first second now events roles h,
  )

  await_challenge-skip :
      (guard : Peer) (first second now : ℕ) (noise events : List (ClientEvent Peer))
      → any (concerns e guard) noise ≡ false
      → await_challenge e sign guard first second now (noise ++ events)
        ≡ await_challenge e sign guard first second now events
  unfolding await_challenge
  await_challenge-skip guard first second now [] events h = refl
  await_challenge-skip guard first second now (response p id r ∷ noise) events h =
      ground (arith, await_challenge-skip guard first second now noise events)
  await_challenge-skip guard first second now (outbound_failure p id ∷ noise) events h =
      ground (arith, await_challenge-skip guard first second now noise events)
  await_challenge-skip guard first second now (connection_closed p ∷ noise) events h =
      ground (arith, await_challenge-skip guard first second now noise events)
  await_challenge-skip guard first second now (connection_established p ∷ noise) events h =
      await_challenge-skip guard first second now noise events h
  await_challenge-skip guard first second now (outgoing_connection_error p ∷ noise) events h =
      await_challenge-skip guard first second now noise events h
  await_challenge-skip guard first second now (reservation_req_accepted p ∷ noise) events h =
      await_challenge-skip guard first second now noise events h
  await_challenge-skip guard first second now (other ∷ noise) events h =
      await_challenge-skip guard first second now noise events h

  await_access-hit :
      (guard : Peer) (second : ℕ) (roles : List (List ℕ)) (events : List (ClientEvent Peer))
      → await_access e guard second (response guard second (access_granted roles) ∷ events)
        ≡ over (ok roles)
  unfolding await_access access_of
  await_access-hit guard second roles events =
      ground (arith, beq_refl e guard, ==_iff second second)

  await_challenge-hit :
      (guard : Peer) (first second now issued : ℕ) (nonce : List ℕ) (answer : NuxRequest)
      (events : List (ClientEvent Peer))
      → answer_challenge sign nonce now ≡ ok answer
      → await_challenge e sign guard first second now
          (response guard first (challenge nonce issued) ∷ events)
        ≡ sending answer (await_access e guard second events)
  unfolding await_challenge answer_to
  await_challenge-hit guard first second now issued nonce answer events made =
      ground (arith, made, beq_refl e guard, ==_iff first first)

  -- A connected client whose key signs, and that gets the challenge and then the grant, returns the
  -- roles of the grant and has sent the two requests, whatever other peers do meanwhile.
  pub authenticate_succeeds :
      (guard : Peer) (first second now issued : ℕ) (nonce : List ℕ) (answer : NuxRequest)
      (roles : List (List ℕ)) (before between rest : List (ClientEvent Peer))
      → any (concerns e guard) before ≡ false
      → any (concerns e guard) between ≡ false
      → answer_challenge sign nonce now ≡ ok answer
      → authenticate e sign true guard first second now (
          before
          ++ response guard first (challenge nonce issued)
            ∷ (between ++ response guard second (access_granted roles) ∷ rest))
        ≡ record { sent = handshake_init ∷ answer ∷ []; outcome = some (ok roles) }
  unfolding authenticate
  authenticate_succeeds guard first second now issued nonce answer roles before between rest b c
        made =
      ap (sending handshake_init) (
        await_challenge-skip guard first second now before _ b
        ∙ await_challenge-hit guard first second now issued nonce answer _ made
        ∙ ap (sending answer) (
            await_access-skip e guard second between _ c
            ∙ await_access-hit guard second roles rest))

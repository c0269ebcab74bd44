-- ===== src/Client/Handshake.antt =====
-- crates/nux-core/src/node.rs, `authenticate`: the client's side of the handshake.
use nux_auth.Prelude.{
  ℕ, Bool, ◌&&◌, List, [], ◌∷◌, Option, none, some, ◌==◌, if◌then◌else◌, Eq, ok, err,
}
use nux_auth.Auth.{answer_challenge}
use nux_auth.Error.{NuxError, NuxResult}
use nux_auth.Protocol.{NuxRequest, NuxResponse, handshake_init, challenge, access_granted, denied}
use nux_auth.Client.{ClientEvent, response, outbound_failure, connection_closed, wait_for_peer}

-- What an exchange has come to: the requests that were sent, and the result if there is one.
pub record Exchange : Type 0 where
  pub sent : List NuxRequest
  pub outcome : Option (NuxResult (List (List ℕ)))

abbrev pub over : NuxResult (List (List ℕ)) → Exchange
over r = record { sent = []; outcome = some r }

abbrev pub sending : NuxRequest → Exchange → Exchange
sending r x = record x { sent = r ∷ x.sent }

-- `match (challenge_answered, response)` where the challenge is answered.
unfoldable pub access_of : NuxResponse → NuxResult (List (List ℕ))
access_of (access_granted roles) = ok roles
access_of denied = err NuxError.access_denied
access_of (challenge nonce timestamp) = err NuxError.protocol

module _ {Peer : Type 0} (e : Eq Peer) where
  -- The loop once the challenge is answered; `awaiting` is the identity of the answer.
  unfoldable pub await_access : Peer → ℕ → List (ClientEvent Peer) → Exchange
  unfolding access_of
  await_access guard awaiting [] = record { sent = []; outcome = none }
  await_access guard awaiting (response p id r ∷ events) =
      let rest = await_access guard awaiting events in
      if e.beq p guard && (id == awaiting) then over (access_of r) else rest
  await_access guard awaiting (outbound_failure p id ∷ events) =
      let rest = await_access guard awaiting events in
      if e.beq p guard && (id == awaiting) then over (err NuxError.access_denied) else rest
  await_access guard awaiting (connection_closed p ∷ events) =
      let rest = await_access guard awaiting events in
      if e.beq p guard then over (err NuxError.access_denied) else rest
  await_access guard awaiting (_ ∷ events) = await_access guard awaiting events

module _ {Peer : Type 0} (e : Eq Peer) (sign : List ℕ → Option (List ℕ)) where
  -- The first response: a challenge is answered, and the loop goes on.
  unfoldable pub answer_to : Peer → ℕ → ℕ → NuxResponse → List (ClientEvent Peer) → Exchange
  answer_to guard second now (challenge nonce timestamp) events =
      elim (answer_challenge sign nonce now) [
        | ok answer ↦ sending answer (await_access e guard second events)
        | err x ↦ over (err x)
      ]
  answer_to guard second now denied events = over (err NuxError.access_denied)
  answer_to guard second now (access_granted roles) events = over (err NuxError.protocol)

  -- The same loop before the challenge has come. `send_request` gives the requests the identities
  -- `first` and `second`; `now` is the clock when the challenge comes.
  unfoldable pub await_challenge : Peer → ℕ → ℕ → ℕ → List (ClientEvent Peer) → Exchange
  unfolding answer_to
  await_challenge guard first second now [] = record { sent = []; outcome = none }
  await_challenge guard first second now (response p id r ∷ events) =
      let rest = await_challenge guard first second now events in
      if e.beq p guard && (id == first) then answer_to guard second now r events else rest
  await_challenge guard first second now (outbound_failure p id ∷ events) =
      let rest = await_challenge guard first second now events in
      if e.beq p guard && (id == first) then over (err NuxError.access_denied) else rest
  await_challenge guard first second now (connection_closed p ∷ events) =
      let rest = await_challenge guard first second now events in
      if e.beq p guard then over (err NuxError.access_denied) else rest
  await_challenge guard first second now (_ ∷ events) =
      await_challenge guard first second now events

  unfoldable pub authenticate : Bool → Peer → ℕ → ℕ → ℕ → List (ClientEvent Peer) → Exchange
  unfolding await_challenge
  authenticate connected guard first second now events =
      elim (if connected then some (ok events) else wait_for_peer e guard events) [
        | none ↦ record { sent = []; outcome = none }
        | some (err x) ↦ over (err x)
        | some (ok events') ↦
            sending handshake_init (await_challenge guard first second now events')
      ]

-- ===== src/Client/Tests.antt =====
-- A client on concrete events.
use nux_auth.Prelude.{false, bytes_eq, ℕ, ◌≡◌, refl, true, List, [], ◌∷◌, Option, some, ok, nat_eq}
use nux_auth.Auth.{answer_challenge}
use nux_auth.Protocol.{
  NuxRequest, handshake_init, challenge_answer, challenge, access_granted, challenge_payload,
}
use nux_auth.Client.{
  ClientEvent, response, connection_closed, connection_established, outgoing_connection_error,
  other, wait_for_peer,
}
use nux_auth.Client.Rendezvous.{
  RendezvousEvent, discovered, Attempt, candidates, with_peer, reached, dial_each,
  await_registrations, discover_and_dial,
}
use nux_auth.Client.Session.{
  cancelled, heeded, closed, attempted, serving, reconnecting, draining, run_client_session,
  run_client_session-deaf,
}
use nux_auth.Client.Backoff.{attempt_from, reauthenticate}
use nux_auth.Client.Handshake.{authenticate}
use nux_auth.Client.Grants.{Earned, authenticate-Earned, authenticate_succeeds}

abbrev sign : List ℕ → Option (List ℕ)
sign payload = some (7 ∷ payload)

abbrev roles : List (List ℕ)
roles = (97 ∷ []) ∷ []

abbrev nonce : List ℕ
nonce = 1 ∷ 2 ∷ []

abbrev answer : NuxRequest
answer = challenge_answer (7 ∷ challenge_payload nonce 101) 101

-- The Guard is peer 1; peer 9 comes and goes.
abbrev exchange : List (ClientEvent ℕ)
exchange =
    connection_closed 9
    ∷ response 1 4 (challenge nonce 100)
    ∷ other
    ∷ response 1 5 (access_granted roles)
    ∷ []

signs : answer_challenge sign nonce 101 ≡ ok answer
unfolding answer_challenge
signs = refl

exchange_succeeds :
    authenticate nat_eq sign true 1 4 5 101 exchange
    ≡ record { sent = handshake_init ∷ answer ∷ []; outcome = some (ok roles) }
exchange_succeeds =
    authenticate_succeeds nat_eq sign 1 4 5 101 100 nonce answer roles (connection_closed 9 ∷ [])
      (other ∷ []) [] refl refl signs

exchange-granted : (authenticate nat_eq sign true 1 4 5 101 exchange).outcome ≡ some (ok roles)
exchange-granted = rw exchange_succeeds refl

authenticate-Earned_example :
    (sent : List NuxRequest) × ((authenticate nat_eq sign true 1 4 5 101 exchange).sent
      ≡ handshake_init ∷ sent)
    × Earned nat_eq sign 1 4 5 101 exchange roles sent
authenticate-Earned_example =
    authenticate-Earned nat_eq sign 1 4 5 101 exchange roles exchange-granted

abbrev registrations : List (ℕ × List ℕ)
registrations = (3, 30 ∷ []) ∷ (4, 40 ∷ 41 ∷ []) ∷ []

-- The rendezvous point is peer 9, and no connection is made before the third address.
abbrev answers : List (RendezvousEvent ℕ (List ℕ) ℕ)
answers = discovered 8 [] ∷ discovered 9 registrations ∷ []

abbrev attempts : List (Attempt ℕ)
attempts =
    record { redialled = false; events = [] }
    ∷ record { redialled = true; events = outgoing_connection_error (some 4) ∷ [] }
    ∷ record { redialled = true; events = other ∷ connection_established 4 ∷ [] }
    ∷ []

found : discover_and_dial nat_eq bytes_eq 9 answers attempts ≡ some (ok (4, 41))
unfolding discover_and_dial await_registrations candidates with_peer dial_each reached wait_for_peer
found = refl

-- The connection to peer 1 is lost; the shutdown comes between two attempts.
run_client_session-deaf_example :
    (run_client_session nat_eq 1
        (serving false)
        (closed 1 0 ∷ attempted false ∷ cancelled ∷ heeded ∷ closed 2 0 ∷ attempted false ∷ [])
      ≡ reconnecting true)
    × (run_client_session nat_eq 1 (serving false) (
          closed 1 0
          ∷ attempted false
          ∷ cancelled
          ∷ heeded
          ∷ closed 2 0
          ∷ attempted false
          ∷ attempted true
          ∷ heeded
          ∷ [])
        ≡ draining)
unfolding reauthenticate attempt_from
run_client_session-deaf_example =
    run_client_session-deaf nat_eq 1 false
      (attempted false ∷ cancelled ∷ heeded ∷ closed 2 0 ∷ attempted false ∷ []) refl

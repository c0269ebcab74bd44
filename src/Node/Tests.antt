-- ===== src/Node/Tests.antt =====
-- The loop of a Guard on concrete turns.
use nux_auth.Prelude.{
  ℕ, suc, arith, ◌+◌, ◌≤◌, ◌<◌, ◌≡◌, ◌↔◌, refl, true, List, [], ◌∷◌, none, some, length, count,
  is_some, map, any, false, some, ok, beq_refl, bytes_eq,
}
use nux_auth.Prelude.Assoc.{lookup}
use nux_auth.Auth
use nux_auth.Auth.{public_key_of}
use nux_auth.Fixtures.{toy_net}
use nux_auth.Metrics.{served, default, record_auth_denied}
use nux_auth.Protocol.{
  handshake_init, challenge_answer, challenge, challenge_payload, access_granted,
}
use nux_auth.Whitelist.{Roles}
use nux_auth.Whitelist.Laws.{roles-lookup}
use nux_auth.Node.{
  NuxNode, SwarmEvent, connection_closed, disconnect, GuardControl, request, Chance,
  handle_auth_request,
}
use nux_auth.Node.Requests.{stranger_gets_nothing}
use nux_auth.Node.Loop.{
  Caps, Wake, turn, swarm, stream, command, tick, finished, start, accept_stream, semaphore_of,
}
use nux_auth.Node.Permits.{turns, turns_within_caps, holds, start-Conserved}
use nux_auth.Node.Streams.{accept_stream_iff}
use nux_auth.Node.Deadline.{orders_shutdown}
use nux_auth.Node.Stop.{shutdown_stops}
use nux_auth.Node.Homes.{is_of}
use nux_auth.Node.Peers.{peer_within_cap}
use nux_auth.Node.Accounts.{told, is_refusal, is_grant, is_cut, run_guard-balanced}
use nux_auth.Node.RunGuard.{run_guard, responses_to}
use nux_auth.Node.Meeting.{heard, client_meets_guard}
use nux_auth.Client.{other, response}
use nux_auth.Client.Handshake.{authenticate}
use nux_auth.Node.Shutdown.{shutdown_drains}

abbrev admin : Roles
admin = (97 ∷ []) ∷ []

-- Peer 7 is on the whitelist and has a session.
abbrev node : NuxNode ℕ
node = record {
  authenticator = record { whitelist = (7, admin) ∷ []; pending = []; sessions = (7, admin) ∷ [] };
  shutdown_deadline = none;
  metrics = default;
}

abbrev node_ending : NuxNode ℕ
node_ending = record node { shutdown_deadline = some 50 }

abbrev caps : Caps
caps = record { max_streams_total = 2; per_peer_cap = 1 }

abbrev chance : Chance
chance = record { nonce = 1 ∷ 2 ∷ []; unix_now = 100 }

abbrev wakes : List (Wake ℕ × Chance)
wakes =
    (stream 7, chance)
    ∷ (stream 7, chance)
    ∷ (swarm (request 8 handshake_init), chance)
    ∷ (command (some (GuardControl.shutdown 5)) 10, chance)
    ∷ (finished 0 (served 1 2), chance)
    ∷ (tick 16, chance)
    ∷ []

turns_within_caps_example :
    let g = turns toy_net caps (start caps node true) wakes in
    (length g.tasks ≤ 2)
    × (count (holds 0) g.tasks ≤ 1)
    × (g.global + length g.tasks ≡ 2)
    × (g.permits 0 + count (holds 0) g.tasks ≡ 1)
turns_within_caps_example = turns_within_caps toy_net caps node true wakes 0

stranger_gets_nothing_example :
    ((handle_auth_request toy_net node 8 handshake_init chance).1 ≡ disconnect 8 ∷ [])
    × ((handle_auth_request toy_net node 8 handshake_init chance).0.metrics
        ≡ record_auth_denied default)
unfolding lookup
stranger_gets_nothing_example =
    stranger_gets_nothing toy_net node 8 handshake_init chance
      (rw (roles-lookup toy_net ((7, admin) ∷ []) 8 (refl, tt)) refl)

accept_stream_iff_example :
    (length (accept_stream toy_net (start caps node true) 7).0.tasks
      ≡ suc (length (start caps node true).tasks))
    ↔ (((start caps node true).node.shutdown_deadline ≡ none)
        × (is_some (Auth.session_roles toy_net (start caps node true).node.authenticator 7) ≡ true)
        × (length (start caps node true).tasks < 2)
        × (count
              (holds (semaphore_of toy_net (start caps node true) 7).1)
              (start caps node true).tasks
            < 1))
accept_stream_iff_example =
    accept_stream_iff toy_net caps (start caps node true) 7 (start-Conserved toy_net caps node true)

shutdown_drains_example :
    (is_some (turns toy_net caps (start caps node_ending true) wakes).node.shutdown_deadline ≡ true)
    × (length (turns toy_net caps (start caps node_ending true) wakes).tasks
        ≤ length (start caps node_ending true).tasks)
unfolding start
shutdown_drains_example = shutdown_drains toy_net caps (start caps node_ending true) wakes refl

abbrev busy_wakes : List (Wake ℕ × Chance)
busy_wakes =
    (stream 7, chance) ∷ (swarm (request 8 handshake_init), chance) ∷ (tick 12, chance) ∷ []

shutdown_stops_example :
    let ending =
      (turn toy_net caps
        (start caps node true)
        (command (some (GuardControl.shutdown 5)) 10)
        chance).0 in
    (turn toy_net caps (turns toy_net caps ending busy_wakes) (tick 16) chance).0.stopped ≡ true
unfolding orders_shutdown start
shutdown_stops_example =
    shutdown_stops toy_net caps (start caps node true) 5 10 16 chance chance busy_wakes refl refl
      refl (omega arith)

-- The signature of peer 7.
abbrev signed : List ℕ → List ℕ
signed payload = 7 ∷ payload

abbrev stranger : List (SwarmEvent ℕ × Chance)
stranger = (request 8 handshake_init, chance) ∷ []

-- Peer 7 comes back to a Guard with the identity 1, while a stranger asks too.
client_meets_guard_example :
    let signature = signed (challenge_payload (1 ∷ 2 ∷ []) 101) in
    let served = run_guard toy_net node (
      heard toy_net node 7 chance
        (record chance { unix_now = 102 })
        101
        signature
        7
        admin
        stranger) in
    let joined =
      authenticate toy_net.peer
        (λ payload. some (signed payload))
        true
        1
        4
        5
        101
        (other
          ∷ response 1 4 (challenge (1 ∷ 2 ∷ []) 100)
          ∷ response 1 5 (access_granted admin)
          ∷ []) in
    (joined.sent ≡ handshake_init ∷ challenge_answer signature 101 ∷ [])
    × (responses_to toy_net 7 served.1 ≡ challenge (1 ∷ 2 ∷ []) 100 ∷ access_granted admin ∷ [])
    × (joined.outcome ≡ some (ok admin))
    × (Auth.session_roles toy_net served.0.authenticator 7 ≡ some admin)
unfolding lookup public_key_of
client_meets_guard_example =
    client_meets_guard toy_net node 7 chance (record chance { unix_now = 102 }) 101
      (signed (challenge_payload (1 ∷ 2 ∷ []) 101)) 7 admin stranger 1 4 5
      (λ payload. some (signed payload)) (other ∷ []) [] [] refl
      (rw (roles-lookup toy_net ((7, admin) ∷ []) 7 (refl, tt)) refl) refl refl
      (beq_refl bytes_eq (signed (challenge_payload (1 ∷ 2 ∷ []) 101))) (omega arith) (omega arith)
      (omega arith) refl refl refl

-- The streams of peer 7, and the end of a peer that is another.
abbrev staying : List (Wake ℕ × Chance)
staying =
    (stream 7, chance)
    ∷ (swarm (connection_closed 8 0), chance)
    ∷ (stream 7, chance)
    ∷ (finished 0 (served 1 2), chance)
    ∷ (stream 7, chance)
    ∷ []

peer_within_cap_example :
    count
      (is_of toy_net 7)
      (turns toy_net caps (turns toy_net caps (start caps node true) []) staying).tasks
    ≤ 1
unfolding turns start
peer_within_cap_example = peer_within_cap toy_net 7 caps node true [] staying refl refl

abbrev asked : List (SwarmEvent ℕ × Chance)
asked =
    (request 8 handshake_init, chance)
    ∷ (request 7 handshake_init, chance)
    ∷ (connection_closed 8 0, chance)
    ∷ []

run_guard-balanced_example :
    let r = run_guard toy_net node asked in
    (map told r.1 ≡ 8 ∷ 7 ∷ [])
    × (any is_refusal r.1 ≡ false)
    × (r.0.metrics.auth_granted ≡ 0 + count is_grant r.1)
    × (r.0.metrics.auth_denied ≡ 0 + count is_cut r.1)
run_guard-balanced_example = run_guard-balanced toy_net node asked (omega arith) (omega arith)

-- ===== src/Node.antt =====
-- crates/nux-core/src/node.rs: the events and commands that a node handles, and the Guard's
-- answer to the requests of the authentication protocol. The swarm is third-party code: what the
-- node asks of it is a list of effects.
pub mod Requests
pub mod Loop
pub mod Pool
pub mod Permits
pub mod Streams
pub mod Deadline
pub mod Shutdown
pub mod Stop
pub mod Reload
pub mod Homes
pub mod Peers
pub mod RunGuard
pub mod Accounts
pub mod Meeting
pub mod Journey
mod Tests
use nux_auth.Prelude.{
  ℕ, zero, suc, Bool, true, false, List, [], ◌∷◌, Option, none, some, is_some, if◌then◌else◌,
}
use nux_auth.Auth
use nux_auth.Auth.{GuardAuthenticator, AuthOutcome}
use nux_auth.Metrics.{Metrics, record_auth_granted, record_auth_denied}
use nux_auth.Net.{Net}
use nux_auth.Protocol.{NuxRequest, NuxResponse, handshake_init, challenge_answer, access_granted}
use nux_auth.Whitelist.{Whitelist, Roles}

pub data NodeMode : Type 0 where
  client guard : NodeMode

pub data GuardControl (Peer : Type 0) : Type 0 where
  revoke : Peer → GuardControl Peer
  allow : Peer → Roles → GuardControl Peer
  reload_whitelist : Whitelist Peer → GuardControl Peer
  shutdown : ℕ → GuardControl Peer

-- `send_response` and `disconnect_peer_id`, whose own failures are only logged.
pub data Effect (Peer : Type 0) : Type 0 where
  respond : Peer → NuxResponse → Effect Peer
  disconnect : Peer → Effect Peer

-- The events that a Guard acts on; `logged` stands for those of `log_relay_event` and all others,
-- which it only writes to its journal.
pub data SwarmEvent (Peer : Type 0) : Type 0 where
  request : Peer → NuxRequest → SwarmEvent Peer
  connection_closed : Peer → ℕ → SwarmEvent Peer
  logged : SwarmEvent Peer

-- The part of a node, and of the authority that it is run with, that the handlers read and write.
pub record NuxNode (Peer : Type 0) : Type 0 where
  pub authenticator : GuardAuthenticator Peer
  pub shutdown_deadline : Option ℕ
  pub metrics : Metrics

-- The clock in seconds, and the random bytes of a challenge.
pub record Chance : Type 0 where
  pub nonce : List ℕ
  pub unix_now : ℕ

-- `silence`: the channel is dropped and the connection cut.
unfoldable pub silence : {Peer : Type 0} → Peer → List (Effect Peer)
silence peer = disconnect peer ∷ []

module _ {Peer Key : Type 0} (net : Net Peer Key) where
  -- A refusal: counted, and silent.
  unfoldable pub refuse : NuxNode Peer → Peer → NuxNode Peer × List (Effect Peer)
  unfolding silence
  refuse n peer = (record n { metrics = record_auth_denied n.metrics }, silence peer)

  unfoldable pub handle_init : NuxNode Peer → Peer → Chance → NuxNode Peer × List (Effect Peer)
  unfolding refuse
  handle_init n peer c =
      let issued = Auth.issue_at net n.authenticator peer c.nonce c.unix_now in
      elim issued.1 [
        | some sent ↦ (record n { authenticator = issued.0 }, respond peer sent ∷ [])
        | none ↦ refuse (record n { authenticator = issued.0 }) peer
      ]

  unfoldable pub handle_answer :
      NuxNode Peer → Peer → List ℕ → ℕ → Chance → NuxNode Peer × List (Effect Peer)
  unfolding refuse
  handle_answer n peer signature timestamp c =
      let verified = Auth.verify_at net n.authenticator peer signature timestamp c.unix_now in
      elim verified.1 [
        | AuthOutcome.granted roles ↦ (
          record n { authenticator = verified.0; metrics = record_auth_granted n.metrics },
          respond peer (access_granted roles) ∷ [],
        )
        | AuthOutcome.reject ↦ refuse (record n { authenticator = verified.0 }) peer
      ]

  unfoldable pub handle_auth_request :
      NuxNode Peer → Peer → NuxRequest → Chance → NuxNode Peer × List (Effect Peer)
  unfolding handle_init handle_answer refuse
  handle_auth_request n peer handshake_init c =
      if is_some n.shutdown_deadline then refuse n peer else handle_init n peer c
  handle_auth_request n peer (challenge_answer signature timestamp) c =
      handle_answer n peer signature timestamp c

  unfoldable pub handle_guard_event :
      NuxNode Peer → SwarmEvent Peer → Chance → NuxNode Peer × List (Effect Peer)
  unfolding handle_auth_request
  handle_guard_event n (request peer r) c = handle_auth_request n peer r c
  handle_guard_event n (connection_closed peer zero) c =
      (record n { authenticator = Auth.end_session net n.authenticator peer }, [])
  handle_guard_event n (connection_closed peer (suc k)) c = (n, [])
  handle_guard_event n logged c = (n, [])

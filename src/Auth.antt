-- ===== src/Auth.antt =====
-- crates/nux-core/src/auth/mod.rs: the challenge and response by which a Guard authenticates a
-- peer. The clock's reading and the random nonce are arguments; times are in seconds.
pub mod Verify
pub mod Sessions
pub mod Histories
pub mod Spec
pub mod Handshake
mod Tests
use nux_auth.Prelude.{
  ℕ, ◌+◌, ◌-◌, Bool, not, List, [], ◌∷◌, Option, none, some, ltb, ◌==◌, is_some, is_none,
  if◌then◌else◌, Result, ok, err,
}
use nux_auth.Prelude.Assoc
use nux_auth.Prelude.Assoc.{lookup, insert, remove}
use nux_auth.Prelude.Optional.{◌>>=◌, ◌>>◌, guard}
use nux_auth.Error.{NuxError, NuxResult}
use nux_auth.Net.{Net}
use nux_auth.Protocol.{challenge_payload, NuxRequest, NuxResponse, challenge, challenge_answer}
use nux_auth.Whitelist
use nux_auth.Whitelist.{Whitelist, Roles}

abbrev pub max_clock_skew_secs : ℕ
max_clock_skew_secs = 5

pub data AuthOutcome : Type 0 where
  granted : Roles → AuthOutcome
  reject : AuthOutcome

pub record IssuedChallenge : Type 0 where
  pub nonce : List ℕ
  pub issued_at : ℕ

pub record GuardAuthenticator (Peer : Type 0) : Type 0 where
  pub whitelist : Whitelist Peer
  pub pending : List (Peer × IssuedChallenge)
  pub sessions : List (Peer × Roles)

unfoldable pub new : {Peer : Type 0} → Whitelist Peer → GuardAuthenticator Peer
new whitelist = record { whitelist = whitelist; pending = []; sessions = [] }

abbrev pub abs_diff : ℕ → ℕ → ℕ
abs_diff a b = (a - b) + (b - a)

-- `answer_challenge`, on the client: `sign` is the signature by the client's key, which may fail.
unfoldable pub answer_challenge : (List ℕ → Option (List ℕ)) → List ℕ → ℕ → NuxResult NuxRequest
answer_challenge sign nonce timestamp = elim (sign (challenge_payload nonce timestamp)) [
  | none ↦ err NuxError.identity
  | some signature ↦ ok (challenge_answer signature timestamp)
]

module _ {Peer Key : Type 0} (net : Net Peer Key) where
  open net use {peer as peer_eq}

  -- The key inside an identity, which is there where the multihash is the identity function's.
  unfoldable pub public_key_of : Peer → Option Key
  public_key_of peer =
      if net.multihash_code peer == 0
      then net.try_decode_protobuf (net.multihash_digest peer)
      else none

  pub issue_at :
      GuardAuthenticator Peer → Peer → List ℕ → ℕ → GuardAuthenticator Peer × Option NuxResponse
  issue_at a peer nonce now =
      if is_none (Whitelist.roles net a.whitelist peer) then (a, none) else (
        record a {
          pending = insert peer_eq peer (record { nonce = nonce; issued_at = now }) a.pending;
        },
        some (challenge nonce now),
      )

  -- The checks of `verify_at` on a challenge that was pending, in their order.
  pub checks : Whitelist Peer → IssuedChallenge → Peer → List ℕ → ℕ → ℕ → Option Roles
  checks whitelist c peer signature timestamp now = do
    guard (not (ltb max_clock_skew_secs (now - c.issued_at)))
    guard (not (ltb max_clock_skew_secs (abs_diff now timestamp)))
    roles ← Whitelist.roles net whitelist peer
    public ← public_key_of peer
    guard (net.verify public (challenge_payload c.nonce timestamp) signature)
    some roles

  pub decide : GuardAuthenticator Peer → Peer → Option Roles → GuardAuthenticator Peer × AuthOutcome
  decide a peer none = (a, reject)
  decide a peer (some roles) =
      (record a { sessions = insert peer_eq peer roles a.sessions }, granted roles)

  -- The pending challenge is consumed first, whatever the checks say.
  pub verify_at :
      GuardAuthenticator Peer → Peer → List ℕ → ℕ → ℕ → GuardAuthenticator Peer × AuthOutcome
  verify_at a peer signature timestamp now = elim (lookup peer_eq peer a.pending) [
    | none ↦ (a, reject)
    | some c ↦
        decide (record a { pending = remove peer_eq peer a.pending }) peer
          (checks a.whitelist c peer signature timestamp now)
  ]

  -- The roles of today's whitelist, for a peer with a session.
  unfoldable pub session_roles : GuardAuthenticator Peer → Peer → Option Roles
  session_roles a peer =
      if not (is_some (lookup peer_eq peer a.sessions))
      then none
      else Whitelist.roles net a.whitelist peer

  unfoldable pub revoke : GuardAuthenticator Peer → Peer → GuardAuthenticator Peer × Bool
  revoke a peer = (
    record a {
      whitelist = Whitelist.revoke net peer a.whitelist;
      pending = remove peer_eq peer a.pending;
      sessions = remove peer_eq peer a.sessions;
    },
    is_some (lookup peer_eq peer a.sessions),
  )

  pub end_session : GuardAuthenticator Peer → Peer → GuardAuthenticator Peer
  end_session a peer = record a {
    pending = remove peer_eq peer a.pending;
    sessions = remove peer_eq peer a.sessions;
  }

  pub authenticated_peers : GuardAuthenticator Peer → List Peer
  authenticated_peers a = Assoc.keys a.sessions

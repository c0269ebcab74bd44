-- ===== src/Node/Requests.antt =====
-- What a peer can observe of its requests.
use nux_auth.Prelude.{
  ℕ, ◌≡◌, Bool, true, false, ◌&&◌, not, List, [], ◌∷◌, none, arith, is_some, if◌then◌else◌,
}
use nux_auth.Auth
use nux_auth.Auth.{GuardAuthenticator, AuthOutcome, granted, reject}
use nux_auth.Auth.Verify.{issue_at_cases}
use nux_auth.Auth.Histories.{verify_at-unlisted}
use nux_auth.Metrics.{Metrics, record_auth_granted, record_auth_denied}
use nux_auth.Net.{Net}
use nux_auth.Protocol.{NuxRequest, handshake_init, challenge_answer, challenge, access_granted}
use nux_auth.Whitelist
use nux_auth.Node.{NuxNode, Effect, respond, disconnect, Chance, handle_auth_request}

module _ {Peer Key : Type 0} (net : Net Peer Key) where
  -- The one thing that a Guard says or does to a request.
  abbrev pub reply_to : NuxNode Peer → Peer → NuxRequest → Chance → Effect Peer
  reply_to n peer handshake_init c =
      if not (is_some n.shutdown_deadline)
        && is_some (Whitelist.roles net n.authenticator.whitelist peer)
      then respond peer (challenge c.nonce c.unix_now)
      else disconnect peer
  reply_to n peer (challenge_answer signature timestamp) c =
      elim (Auth.verify_at net n.authenticator peer signature timestamp c.unix_now).1 [
        | granted roles ↦ respond peer (access_granted roles)
        | reject ↦ disconnect peer
      ]

  abbrev pub is_respond : Effect Peer → Bool
  is_respond (respond p r) = true
  is_respond (disconnect p) = false

  -- What the authority becomes.
  abbrev pub authority_after : NuxNode Peer → Peer → NuxRequest → Chance → GuardAuthenticator Peer
  authority_after n peer handshake_init c =
      if is_some n.shutdown_deadline
      then n.authenticator
      else (Auth.issue_at net n.authenticator peer c.nonce c.unix_now).0
  authority_after n peer (challenge_answer signature timestamp) c =
      (Auth.verify_at net n.authenticator peer signature timestamp c.unix_now).0

  -- What is counted: every cut as a refusal, every grant as one.
  abbrev pub counted_after : NuxNode Peer → Effect Peer → Metrics
  counted_after n (disconnect p) = record_auth_denied n.metrics
  counted_after n (respond p (access_granted roles)) = record_auth_granted n.metrics
  counted_after n (respond p r) = n.metrics

  abbrev pub Outcome :
      NuxNode Peer → Peer → NuxRequest → Chance → NuxNode Peer × List (Effect Peer) → Type 0
  Outcome n p r c result =
      (result.1 ≡ reply_to n p r c ∷ [])
      × (result.0 ≡ record n {
        authenticator = authority_after n p r c;
        metrics = counted_after n (reply_to n p r c);
      })

  handle_init-Outcome :
      (n : NuxNode Peer) (p : Peer) (c : Chance)
      → Outcome n p handshake_init c (handle_auth_request net n p handshake_init c)
  unfolding handle_auth_request
  handle_init-Outcome n p c =
      let (sent, _, _, _) = issue_at_cases net n.authenticator p p c.nonce c.unix_now in
      ground (arith, sent)

  handle_answer-Outcome :
      (n : NuxNode Peer) (p : Peer) (signature : List ℕ) (timestamp : ℕ) (c : Chance)
      → Outcome n p
          (challenge_answer signature timestamp)
          c
          (handle_auth_request net n p (challenge_answer signature timestamp) c)
  unfolding handle_auth_request
  handle_answer-Outcome n p signature timestamp c = ground arith

  -- To every request the Guard does exactly one thing. It sends a challenge if the peer is on the
  -- whitelist and no shutdown is under way, it grants the roles if the answer is good, and in every
  -- other case it cuts the connection with no response; the counters follow, and the authority
  -- changes as the operation says.
  pub handle_auth_request-Outcome :
      (n : NuxNode Peer) (p : Peer) (r : NuxRequest) (c : Chance)
      → Outcome n p r c (handle_auth_request net n p r c)
  handle_auth_request-Outcome n p handshake_init c = handle_init-Outcome n p c
  handle_auth_request-Outcome n p (challenge_answer signature timestamp) c =
      handle_answer-Outcome n p signature timestamp c

  -- Radio silence: whatever a peer outside the whitelist asks, at whatever moment and with whatever
  -- signature, the Guard cuts its connection, answers nothing and counts one refusal.
  pub stranger_gets_nothing :
      (n : NuxNode Peer) (p : Peer) (r : NuxRequest) (c : Chance)
      → Whitelist.roles net n.authenticator.whitelist p ≡ none
      → ((handle_auth_request net n p r c).1 ≡ disconnect p ∷ [])
        × ((handle_auth_request net n p r c).0.metrics ≡ record_auth_denied n.metrics)
  stranger_gets_nothing n p handshake_init c h =
      let (said, became) = handle_init-Outcome n p c in ground (arith, said, became)
  stranger_gets_nothing n p (challenge_answer signature timestamp) c h =
      let (said, became) = handle_answer-Outcome n p signature timestamp c in
      let out = verify_at-unlisted net n.authenticator p signature timestamp c.unix_now h in
      ground (arith, said, became, out)

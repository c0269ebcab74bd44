-- ===== src/Node/Meeting.antt =====
-- crates/nux-core/src/node.rs, `run_guard` and `authenticate`: the two ends of a handshake, each with
-- the other's messages among all that else happens to it.
use nux_auth.Prelude.{
  ℕ, ◌+◌, ◌≤◌, ◌≡◌, ◌∙◌, ap, arith, true, false, List, [], ◌∷◌, ◌++◌, Option, none, some, any,
  beq_refl, ok,
}
use nux_auth.Net.{Net}
use nux_auth.Protocol.{
  handshake_init, challenge, challenge_answer, access_granted, challenge_payload,
}
use nux_auth.Whitelist
use nux_auth.Whitelist.{Roles}
use nux_auth.Auth.{IssuedChallenge, public_key_of, answer_challenge, session_roles}
use nux_auth.Node.{NuxNode, Chance, SwarmEvent, request, handle_guard_event}
use nux_auth.Node.RunGuard.{
  run_guard, run_guard-first, responses_to, is_about, run_guard-Challenged, handle_init-challenges,
  handle_answer-grants,
}
use nux_auth.Client.{ClientEvent, response}
use nux_auth.Client.Access.{concerns}
use nux_auth.Client.Handshake.{authenticate}
use nux_auth.Client.Grants.{authenticate_succeeds}

module _ {Peer Key : Type 0} (net : Net Peer Key) (n : NuxNode Peer) (p : Peer)
    (asked answered : Chance) (stamped : ℕ) (signature : List ℕ) (key : Key) (roles : Roles)
    (between : List (SwarmEvent Peer × Chance)) where
  -- What the Guard sees: the two requests of the peer, and between them what others do.
  abbrev pub heard : List (SwarmEvent Peer × Chance)
  heard =
      (request p handshake_init, asked)
      ∷ (between ++ (request p (challenge_answer signature stamped), answered) ∷ [])

  run_guard-grants :
      Whitelist.roles net n.authenticator.whitelist p ≡ some roles
      → n.shutdown_deadline ≡ none
      → public_key_of net p ≡ some key
      → net.verify key (challenge_payload asked.nonce stamped) signature ≡ true
      → answered.unix_now ≤ asked.unix_now + 5
      → answered.unix_now ≤ stamped + 5
      → stamped ≤ answered.unix_now + 5
      → any (is_about net p) between ≡ false
      → let r = run_guard net n heard in
        (responses_to net p r.1 ≡ challenge asked.nonce asked.unix_now ∷ access_granted roles ∷ [])
        × (session_roles net r.0.authenticator p ≡ some roles)
  unfolding run_guard
  run_guard-grants allowed up holds signed in_time not_stale not_early away =
      let (challenged, sent) = handle_init-challenges net n p asked roles allowed up in
      let n' = (handle_guard_event net n (request p handshake_init) asked).0 in
      let answer : List (SwarmEvent Peer × Chance) =
        (request p (challenge_answer signature stamped), answered) ∷ [] in
      let issued : IssuedChallenge = record { nonce = asked.nonce; issued_at = asked.unix_now } in
      let (m, (pending, listed), same, end) =
        run_guard-Challenged net n' p issued roles between answer away challenged in
      let (granted, session) =
        handle_answer-grants net m p answered signature stamped roles (record {
          asked = issued;
          key = key;
          pending = pending;
          in_time = in_time;
          not_stale = not_stale;
          not_early = not_early;
          allowed = listed;
          holds = holds;
          signed = signed;
        }) in
      (
        run_guard-first net n p (request p handshake_init) asked (between ++ answer)
            ∙ ground (
              arith,
              sent,
              same,
              granted,
              beq_refl net.peer p,
              run_guard-first net m p (request p (challenge_answer signature stamped)) answered [],
            ),
        ap (λ r. session_roles net r.authenticator p) end ∙ session,
      )

  -- A client and a Guard meet. Where the client's peer is on the whitelist with a key whose signature
  -- the Guard verifies, no shutdown is under way, and the answer comes within five seconds of the
  -- challenge, with the clocks within five seconds of one another: the client sends the two requests
  -- that the Guard is shown, the Guard sends the two responses that the client is shown, the client
  -- comes away with the roles of the whitelist, and the Guard holds a session with those roles,
  -- whatever other peers do on either side meanwhile.
  pub client_meets_guard :
      (guard : Peer) (first second : ℕ) (sign : List ℕ → Option (List ℕ))
      (before meanwhile rest : List (ClientEvent Peer))
      → sign (challenge_payload asked.nonce stamped) ≡ some signature
      → Whitelist.roles net n.authenticator.whitelist p ≡ some roles
      → n.shutdown_deadline ≡ none
      → public_key_of net p ≡ some key
      → net.verify key (challenge_payload asked.nonce stamped) signature ≡ true
      → answered.unix_now ≤ asked.unix_now + 5
      → answered.unix_now ≤ stamped + 5
      → stamped ≤ answered.unix_now + 5
      → any (is_about net p) between ≡ false
      → any (concerns net.peer guard) before ≡ false
      → any (concerns net.peer guard) meanwhile ≡ false
      → let served = run_guard net n heard in
        let joined = authenticate net.peer sign true guard first second stamped (
          before
          ++ response guard first (challenge asked.nonce asked.unix_now)
            ∷ (meanwhile ++ response guard second (access_granted roles) ∷ rest)) in
        (joined.sent ≡ handshake_init ∷ challenge_answer signature stamped ∷ [])
        × (responses_to net p served.1
            ≡ challenge asked.nonce asked.unix_now ∷ access_granted roles ∷ [])
        × (joined.outcome ≡ some (ok roles))
        × (session_roles net served.0.authenticator p ≡ some roles)
  unfolding answer_challenge
  client_meets_guard guard first second sign before meanwhile rest signs allowed up holds signed
        in_time not_stale not_early away quiet quiet' =
      let (responses, session) =
        run_guard-grants allowed up holds signed in_time not_stale not_early away in
      let made : answer_challenge sign asked.nonce stamped
          ≡ ok (challenge_answer signature stamped) =
        ground (arith, signs) in
      let joined =
        authenticate_succeeds net.peer sign guard first second stamped asked.unix_now asked.nonce
          (challenge_answer signature stamped) roles before meanwhile rest quiet quiet' made in
      (ap (λ x. x.sent) joined, responses, ap (λ x. x.outcome) joined, session)

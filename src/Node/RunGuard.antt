-- ===== src/Node/RunGuard.antt =====
-- crates/nux-core/src/node.rs, `run_guard`: what becomes of a peer that has asked to be let in, while
-- others come and go.
use nux_auth.Prelude.{
  ℕ, ◌≡◌, refl, ◌∙◌, ap, arith, zero, suc, Bool, false, List, [], ◌∷◌, ◌++◌, none, some, any,
  if◌then◌else◌, beq_refl,
}
use nux_auth.Net.{Net}
use nux_auth.Prelude.Assoc.{lookup}
use nux_auth.Protocol.{
  NuxRequest, NuxResponse, handshake_init, challenge, challenge_answer, access_granted,
}
use nux_auth.Whitelist
use nux_auth.Whitelist.{Roles}
use nux_auth.Auth.{IssuedChallenge, issue_at, session_roles}
use nux_auth.Auth.Verify.{
  Answers, verify_at-granted_iff, verify_at-tables, issue_at_cases, end_session-tables,
}
use nux_auth.Node.{
  NuxNode, Effect, respond, disconnect, Chance, SwarmEvent, request, connection_closed, logged,
  handle_guard_event,
}
use nux_auth.Node.Requests.{reply_to, authority_after, handle_auth_request-Outcome}

module _ {Peer Key : Type 0} (net : Net Peer Key) where
  -- The loop of a Guard without tunnels, on the events that come.
  unfoldable pub run_guard :
      NuxNode Peer → List (SwarmEvent Peer × Chance) → NuxNode Peer × List (Effect Peer)
  run_guard n [] = (n, [])
  run_guard n ((event, c) ∷ events) =
      let (n', effects) = handle_guard_event net n event c in
      let (n'', more) = run_guard n' events in (n'', effects ++ more)

  -- The responses that a peer is sent.
  abbrev pub responses_to : Peer → List (Effect Peer) → List NuxResponse
  responses_to p [] = []
  responses_to p (respond q r ∷ effects) =
      let rest = responses_to p effects in if net.peer.beq q p then r ∷ rest else rest
  responses_to p (disconnect q ∷ effects) = responses_to p effects

  abbrev pub is_about : Peer → SwarmEvent Peer × Chance → Bool
  is_about p (request q r, c) = net.peer.beq q p
  is_about p (connection_closed q k, c) = net.peer.beq q p
  is_about p (logged, c) = false

  responses_to-append :
      (p : Peer) (xs ys : List (Effect Peer))
      → responses_to p (xs ++ ys) ≡ responses_to p xs ++ responses_to p ys
  responses_to-append p [] ys = refl
  responses_to-append p (respond q r ∷ xs) ys = ground (arith, responses_to-append p xs ys)
  responses_to-append p (disconnect q ∷ xs) ys = responses_to-append p xs ys

  -- A peer of the whitelist that has been challenged.
  abbrev pub Challenged : NuxNode Peer → Peer → IssuedChallenge → Roles → Type 0
  Challenged n p asked roles =
      (lookup net.peer p n.authenticator.pending ≡ some asked)
      × (Whitelist.roles net n.authenticator.whitelist p ≡ some roles)

  responses_to-other :
      (n : NuxNode Peer) (p q : Peer) (r : NuxRequest) (c : Chance)
      → net.peer.beq q p ≡ false
      → responses_to p (reply_to net n q r c ∷ []) ≡ []
  responses_to-other n p q handshake_init c away = ground arith
  responses_to-other n p q (challenge_answer signature timestamp) c away = ground arith

  authority_after-Challenged :
      (n : NuxNode Peer) (p q : Peer) (asked : IssuedChallenge) (roles : Roles) (r : NuxRequest)
      (c : Chance)
      → net.peer.beq q p ≡ false
      → Challenged n p asked roles
      → let a = authority_after net n q r c in
        (lookup net.peer p a.pending ≡ some asked)
        × (Whitelist.roles net a.whitelist p ≡ some roles)
  authority_after-Challenged n p q asked roles handshake_init c away (pending, allowed) =
      let (_, kept, _, same) = issue_at_cases net n.authenticator q p c.nonce c.unix_now in
      (ground (arith, kept), ground (arith, same))
  authority_after-Challenged n p q asked roles (challenge_answer signature timestamp) c away
        (pending, allowed) =
      let (kept, _, same) =
        verify_at-tables net n.authenticator q p signature timestamp c.unix_now in
      (ground (arith, kept), ground (arith, same))

  handle_guard_event-Challenged :
      (n : NuxNode Peer) (p : Peer) (asked : IssuedChallenge) (roles : Roles)
      (event : SwarmEvent Peer) (c : Chance)
      → is_about p (event, c) ≡ false
      → Challenged n p asked roles
      → let r = handle_guard_event net n event c in
        Challenged r.0 p asked roles × (responses_to p r.1 ≡ [])
  unfolding handle_guard_event
  handle_guard_event-Challenged n p asked roles (request q r) c away w =
      let (said, became) = handle_auth_request-Outcome net n q r c in
      let (pending, allowed) = authority_after-Challenged n p q asked roles r c away w in
      let silent = responses_to-other n p q r c away in
      (
        (
          ap (λ m. lookup net.peer p m.authenticator.pending) became ∙ pending,
          ap (λ m. Whitelist.roles net m.authenticator.whitelist p) became ∙ allowed,
        ),
        ap (responses_to p) said ∙ silent,
      )
  handle_guard_event-Challenged n p asked roles (connection_closed q zero) c away
        (pending, allowed) =
      let (kept, same) = end_session-tables net n.authenticator q p in
      ((ground (arith, kept), ground (arith, same)), refl)
  handle_guard_event-Challenged n p asked roles (connection_closed q (suc k)) c away w = (w, refl)
  handle_guard_event-Challenged n p asked roles logged c away w = (w, refl)

  pub run_guard-first :
      (n : NuxNode Peer) (p : Peer) (event : SwarmEvent Peer) (c : Chance)
      (events : List (SwarmEvent Peer × Chance))
      → let r = handle_guard_event net n event c in
        responses_to p (run_guard n ((event, c) ∷ events)).1
        ≡ responses_to p r.1 ++ responses_to p (run_guard r.0 events).1
  unfolding run_guard
  run_guard-first n p event c events =
      let r = handle_guard_event net n event c in responses_to-append p r.1 (run_guard r.0 events).1

  pub run_guard-Challenged :
      (n : NuxNode Peer) (p : Peer) (asked : IssuedChallenge) (roles : Roles)
      (events rest : List (SwarmEvent Peer × Chance))
      → any (is_about p) events ≡ false
      → Challenged n p asked roles
      → (m : NuxNode Peer) × Challenged m p asked roles
        × (responses_to p (run_guard n (events ++ rest)).1 ≡ responses_to p (run_guard m rest).1)
        × ((run_guard n (events ++ rest)).0 ≡ (run_guard m rest).0)
  unfolding run_guard
  run_guard-Challenged n p asked roles [] rest away w = (n, w, refl, refl)
  run_guard-Challenged n p asked roles ((event, c) ∷ events) rest away w =
      let (w', silent) =
        handle_guard_event-Challenged n p asked roles event c (ground (arith, away)) w in
      let (m, w'', same, end) =
        run_guard-Challenged (handle_guard_event net n event c).0 p asked roles events rest
          (ground (arith, away)) w' in
      let first = run_guard-first n p event c (events ++ rest) in
      (m, w'', ground (arith, first, silent, same), end)

  pub handle_init-challenges :
      (n : NuxNode Peer) (p : Peer) (c : Chance) (roles : Roles)
      → Whitelist.roles net n.authenticator.whitelist p ≡ some roles
      → n.shutdown_deadline ≡ none
      → let r = handle_guard_event net n (request p handshake_init) c in
        Challenged r.0 p (record { nonce = c.nonce; issued_at = c.unix_now }) roles
        × (r.1 ≡ respond p (challenge c.nonce c.unix_now) ∷ [])
  unfolding handle_guard_event
  handle_init-challenges n p c roles allowed up =
      let (said, became) = handle_auth_request-Outcome net n p handshake_init c in
      let (sent, pending, _, same) = issue_at_cases net n.authenticator p p c.nonce c.unix_now in
      let after : authority_after net n p handshake_init c
          ≡ (issue_at net n.authenticator p c.nonce c.unix_now).0 =
        ground (arith, up) in
      (
        (
          ap (λ m. lookup net.peer p m.authenticator.pending) became
              ∙ ap (λ a. lookup net.peer p a.pending) after
              ∙ ground (arith, pending, sent, allowed, beq_refl net.peer p),
          ap (λ m. Whitelist.roles net m.authenticator.whitelist p) became
              ∙ ap (λ a. Whitelist.roles net a.whitelist p) after
              ∙ ground (arith, same, allowed),
        ),
        said ∙ ground (arith, up, allowed),
      )

  pub handle_answer-grants :
      (n : NuxNode Peer) (p : Peer) (c : Chance) (signature : List ℕ) (stamped : ℕ) (roles : Roles)
      → Answers net n.authenticator p signature stamped c.unix_now roles
      → let r = handle_guard_event net n (request p (challenge_answer signature stamped)) c in
        (r.1 ≡ respond p (access_granted roles) ∷ [])
        × (session_roles net r.0.authenticator p ≡ some roles)
  unfolding handle_guard_event session_roles
  handle_answer-grants n p c signature stamped roles answers =
      let (said, became) =
        handle_auth_request-Outcome net n p (challenge_answer signature stamped) c in
      let out =
        (verify_at-granted_iff net n.authenticator p signature stamped c.unix_now roles).1
          answers in
      let (_, session, same) =
        verify_at-tables net n.authenticator p p signature stamped c.unix_now in
      (
        said ∙ ground (arith, out),
        ap (λ m. session_roles net m.authenticator p) became
            ∙ ground (arith, session, same, out, beq_refl net.peer p, answers.allowed),
      )

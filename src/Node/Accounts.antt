-- ===== src/Node/Accounts.antt =====
-- crates/nux-core/src/node.rs and metrics.rs: what the counters of a Guard say about what it has done.
use nux_auth.Prelude.{
  zero, suc, ◌+◌, ◌^◌, ◌<◌, ◌≤◌, ◌≡◌, refl, ap, ◌∙◌, sym, arith, Bool, true, false, List, [], ◌∷◌,
  ◌++◌, map, any, length, count, count-append, count-le,
}
use nux_auth.Net.{Net}
use nux_auth.Protocol.{
  NuxRequest, handshake_init, challenge, challenge_answer, access_granted, denied,
}
use nux_auth.Node.{
  NuxNode, Effect, respond, disconnect, Chance, SwarmEvent, request, connection_closed, logged,
  handle_auth_request, handle_guard_event,
}
use nux_auth.Metrics.{record_auth_granted, record_auth_denied}
use nux_auth.Node.Requests.{reply_to, counted_after, handle_auth_request-Outcome}
use nux_auth.Node.RunGuard.{run_guard}

module _ {Peer : Type 0} where
  -- The peers that make requests, in order.
  abbrev pub askers : List (SwarmEvent Peer × Chance) → List Peer
  askers [] = []
  askers ((request p r, c) ∷ events) = p ∷ askers events
  askers ((connection_closed p k, c) ∷ events) = askers events
  askers ((logged, c) ∷ events) = askers events

  -- The peer that an effect is about.
  abbrev pub told : Effect Peer → Peer
  told (respond p r) = p
  told (disconnect p) = p

  abbrev pub is_grant : Effect Peer → Bool
  is_grant (respond p (access_granted roles)) = true
  is_grant _ = false

  abbrev pub is_cut : Effect Peer → Bool
  is_cut (respond p r) = false
  is_cut (disconnect p) = true

  -- The one response that names a refusal.
  abbrev pub is_refusal : Effect Peer → Bool
  is_refusal (respond p denied) = true
  is_refusal _ = false

module _ {Peer Key : Type 0} (net : Net Peer Key) where
  -- The books of a run that leads from `n` to `r` agree with what it asked of the swarm.
  abbrev Balanced :
      NuxNode Peer → List (SwarmEvent Peer × Chance) → NuxNode Peer × List (Effect Peer) → Type 0
  Balanced n events r =
      (map told r.1 ≡ askers events)
      × (any is_refusal r.1 ≡ false)
      × (r.0.metrics.auth_granted ≡ n.metrics.auth_granted + count is_grant r.1)
      × (r.0.metrics.auth_denied ≡ n.metrics.auth_denied + count is_cut r.1)

  counted_after-Counted :
      (n : NuxNode Peer) (e : Effect Peer)
      → suc n.metrics.auth_granted < 2 ^ 64
      → suc n.metrics.auth_denied < 2 ^ 64
      → let m = counted_after net n e in
        (m.auth_granted ≡ n.metrics.auth_granted + count is_grant (e ∷ []))
        × (m.auth_denied ≡ n.metrics.auth_denied + count is_cut (e ∷ []))
  unfolding record_auth_granted record_auth_denied
  counted_after-Counted n (respond p (access_granted roles)) g d = (omega (arith, g), omega arith)
  counted_after-Counted n (respond p (challenge nonce issued)) g d = (omega arith, omega arith)
  counted_after-Counted n (respond p denied) g d = (omega arith, omega arith)
  counted_after-Counted n (disconnect p) g d = (omega arith, omega (arith, d))

  request-Balanced :
      (n : NuxNode Peer) (p : Peer) (r : NuxRequest) (c : Chance)
      → suc n.metrics.auth_granted < 2 ^ 64
      → suc n.metrics.auth_denied < 2 ^ 64
      → (told (reply_to net n p r c) ≡ p) × (is_refusal (reply_to net n p r c) ≡ false)
      → Balanced n ((request p r, c) ∷ []) (handle_auth_request net n p r c)
  request-Balanced n p r c g d (to_p, mild) =
      let (said, became) = handle_auth_request-Outcome net n p r c in
      let (granted, cut) = counted_after-Counted n (reply_to net n p r c) g d in
      (
        ap (map told) said ∙ ap (λ q. q ∷ []) to_p,
        ap (any is_refusal) said ∙ ground (arith, mild),
        ap (λ m. m.metrics.auth_granted) became
            ∙ granted
            ∙ ap (λ l. n.metrics.auth_granted + count is_grant l) (sym said),
        ap (λ m. m.metrics.auth_denied) became
            ∙ cut
            ∙ ap (λ l. n.metrics.auth_denied + count is_cut l) (sym said),
      )

  reply_to-addressed :
      (n : NuxNode Peer) (p : Peer) (r : NuxRequest) (c : Chance)
      → (told (reply_to net n p r c) ≡ p) × (is_refusal (reply_to net n p r c) ≡ false)
  reply_to-addressed n p handshake_init c = (ground arith, ground arith)
  reply_to-addressed n p (challenge_answer signature timestamp) c = (ground arith, ground arith)

  handle_guard_event-Balanced :
      (n : NuxNode Peer) (event : SwarmEvent Peer) (c : Chance)
      → suc n.metrics.auth_granted < 2 ^ 64
      → suc n.metrics.auth_denied < 2 ^ 64
      → Balanced n ((event, c) ∷ []) (handle_guard_event net n event c)
  unfolding handle_guard_event
  handle_guard_event-Balanced n (request p r) c g d =
      request-Balanced n p r c g d (reply_to-addressed n p r c)
  handle_guard_event-Balanced n (connection_closed p zero) c g d =
      (refl, refl, omega arith, omega arith)
  handle_guard_event-Balanced n (connection_closed p (suc k)) c g d =
      (refl, refl, omega arith, omega arith)
  handle_guard_event-Balanced n logged c g d = (refl, refl, omega arith, omega arith)

  told-append : (xs ys : List (Effect Peer)) → map told (xs ++ ys) ≡ map told xs ++ map told ys
  told-append [] ys = refl
  told-append (x ∷ xs) ys = ap (λ l. told x ∷ l) (told-append xs ys)

  refusals-append :
      (xs ys : List (Effect Peer))
      → any is_refusal xs ≡ false
      → any is_refusal ys ≡ false
      → any is_refusal (xs ++ ys) ≡ false
  refusals-append [] ys h k = k
  refusals-append (x ∷ xs) ys h k = ground (arith, h, refusals-append xs ys)

  askers-first :
      (event : SwarmEvent Peer) (c : Chance) (events : List (SwarmEvent Peer × Chance))
      → askers ((event, c) ∷ events) ≡ askers ((event, c) ∷ []) ++ askers events
  askers-first (request p r) c events = refl
  askers-first (connection_closed p k) c events = refl
  askers-first logged c events = refl

  length-told : (xs : List (Effect Peer)) → length (map told xs) ≡ length xs
  length-told [] = refl
  length-told (x ∷ xs) = ap suc (length-told xs)

  at_most_one : (event : SwarmEvent Peer) (c : Chance) → length (askers ((event, c) ∷ [])) ≤ 1
  at_most_one (request p r) c = omega arith
  at_most_one (connection_closed p k) c = omega arith
  at_most_one logged c = omega arith

  -- One event has at most one effect, so it is counted at most once.
  counted_once :
      (event : SwarmEvent Peer) (c : Chance) (xs : List (Effect Peer)) (f : Effect Peer → Bool)
      → map told xs ≡ askers ((event, c) ∷ [])
      → count f xs ≤ 1
  counted_once event c xs f h =
      let few = at_most_one event c in
      let same = ap length h in
      let sized = length-told xs in
      let counted = count-le f xs in omega (arith, few, same, sized, counted)

  -- The books of a run agree with what the Guard has done, where the counters do not wrap: to each
  -- request there is one effect, in the order of the requests and towards the peer that asked; none of
  -- them is the response that names a refusal; and since the start as many authentications are counted
  -- as granted as grants were sent, and as many as denied as connections were cut.
  pub run_guard-balanced :
      (n : NuxNode Peer) (events : List (SwarmEvent Peer × Chance))
      → n.metrics.auth_granted + length events < 2 ^ 64
      → n.metrics.auth_denied + length events < 2 ^ 64
      → let r = run_guard net n events in
        (map told r.1 ≡ askers events)
        × (any is_refusal r.1 ≡ false)
        × (r.0.metrics.auth_granted ≡ n.metrics.auth_granted + count is_grant r.1)
        × (r.0.metrics.auth_denied ≡ n.metrics.auth_denied + count is_cut r.1)
  unfolding run_guard
  run_guard-balanced n [] g d = (refl, refl, omega arith, omega arith)
  run_guard-balanced n ((event, c) ∷ events) g d =
      let r = handle_guard_event net n event c in
      let (told_one, mild, granted, cut) =
        handle_guard_event-Balanced n event c (omega (arith, g)) (omega (arith, d)) in
      let grants = counted_once event c r.1 is_grant told_one in
      let cuts = counted_once event c r.1 is_cut told_one in
      let (told_rest, mild_rest, granted_rest, cut_rest) =
        run_guard-balanced r.0 events (omega (arith, g, granted, grants))
          (omega (arith, d, cut, cuts)) in
      let more = (run_guard net r.0 events).1 in
      let all_grants = count-append is_grant r.1 more in
      let all_cuts = count-append is_cut r.1 more in
      (
        told-append r.1 more
            ∙ ap (λ l. l ++ map told more) told_one
            ∙ ap (λ l. askers ((event, c) ∷ []) ++ l) told_rest
            ∙ sym (askers-first event c events),
        refusals-append r.1 more mild mild_rest,
        omega (arith, granted, granted_rest, all_grants),
        omega (arith, cut, cut_rest, all_cuts),
      )

-- ===== src/Auth/Spec.antt =====
-- The authority as a ledger: what stands for each peer, without the order of the tables, the walk
-- in constant time or the way a challenge is stored. The authority is shown to implement it.
use nux_auth.Prelude.{
  ℕ, ◌+◌, ◌≡◌, refl, Bool, ◌&&◌, List, [], ◌∷◌, Option, none, some, arith, leb, is_some, is_none,
  if◌then◌else◌, Option-cases, inl, inr, All,
}
use nux_auth.Prelude.Assoc.{lookup, lookup-insert, lookup-remove}
use nux_auth.Net.{Net}
use nux_auth.Protocol.{challenge_payload, NuxResponse, challenge}
use nux_auth.Whitelist
use nux_auth.Whitelist.{Whitelist, Roles}
use nux_auth.Whitelist.Laws.{roles-lookup}
use nux_auth.Auth.{
  AuthOutcome, granted, reject, IssuedChallenge, GuardAuthenticator, public_key_of, issue_at,
  checks, decide, verify_at, revoke, end_session,
}
use nux_auth.Auth.Verify.{verify_at-tables, verify_at-unasked}
use nux_auth.Auth.Sessions.{
  AuthOp, issues, verifies, ends, revokes, allows, reloads, apply, IsValid, IsProper, apply-IsValid,
}
use nux_auth.Auth.Histories.{run}

-- What stands for one peer.
pub record Standing : Type 0 where
  pub listed : Option Roles
  pub asked : Option IssuedChallenge
  pub session : Option Roles

-- What an operation answers its caller.
pub data Reply : Type 0 where
  sent : Option NuxResponse → Reply
  judged : AuthOutcome → Reply
  dropped : Bool → Reply
  nothing : Reply

module _ {Peer Key : Type 0} (net : Net Peer Key) where
  abbrev pub Ledger : Type 0
  Ledger = Peer → Standing

  unfoldable pub set : Ledger → Peer → Standing → Ledger
  set s p x q = if net.peer.beq p q then x else s q

  -- The answer of a peer that `roles` stand for, to the challenge `c`.
  unfoldable pub judge : Option Roles → IssuedChallenge → Peer → List ℕ → ℕ → ℕ → AuthOutcome
  judge none c p signature timestamp now = reject
  judge (some roles) c p signature timestamp now = elim (public_key_of net p) [
    | none ↦ reject
    | some key ↦
        if leb now (c.issued_at + 5)
          && leb now (timestamp + 5)
          && leb timestamp (now + 5)
          && net.verify key (challenge_payload c.nonce timestamp) signature
        then granted roles
        else reject
  ]

  -- The session that an outcome leaves, where `old` was there.
  abbrev pub opened : AuthOutcome → Option Roles → Option Roles
  opened (granted roles) old = some roles
  opened reject old = old

  unfoldable pub step : Ledger → AuthOp Peer → Ledger × Reply
  unfolding set judge
  step s (issues p nonce now) = if is_none (s p).listed then (s, sent none) else (
    set s p (record (s p) { asked = some (record { nonce = nonce; issued_at = now }) }),
    sent (some (challenge nonce now)),
  )
  step s (verifies p signature timestamp now) = elim (s p).asked [
    | none ↦ (s, judged reject)
    | some c ↦
        let outcome = judge (s p).listed c p signature timestamp now in
        (
          set s p (record {
            listed = (s p).listed;
            asked = none;
            session = opened outcome (s p).session;
          }),
          judged outcome,
        )
  ]
  step s (ends p) = (set s p (record (s p) { asked = none; session = none }), nothing)
  step s (revokes p) = (
    set s p (record { listed = none; asked = none; session = none }),
    dropped (is_some (s p).session),
  )
  step s (allows p roles) = (set s p (record (s p) { listed = some roles }), nothing)
  step s (reloads entries) = (λ q. record (s q) { listed = lookup net.peer q entries }, nothing)

  -- The ledger that the tables of an authority spell out.
  unfoldable pub view : GuardAuthenticator Peer → Ledger
  view a p = record {
    listed = lookup net.peer p a.whitelist;
    asked = lookup net.peer p a.pending;
    session = lookup net.peer p a.sessions;
  }

  -- What the authority answers to an operation.
  unfoldable pub reply : GuardAuthenticator Peer → AuthOp Peer → Reply
  reply a (issues p nonce now) = sent (issue_at net a p nonce now).1
  reply a (verifies p signature timestamp now) =
      judged (verify_at net a p signature timestamp now).1
  reply a (revokes p) = dropped (revoke net a p).1
  reply a _ = nothing

  unfoldable pub replies : GuardAuthenticator Peer → List (AuthOp Peer) → List Reply
  replies a [] = []
  replies a (op ∷ ops) = reply a op ∷ replies (apply net a op) ops

  -- The same operations on the ledger.
  unfoldable pub replay : Ledger → List (AuthOp Peer) → Ledger × List Reply
  replay s [] = (s, [])
  replay s (op ∷ ops) =
      let once = step s op in let rest = replay once.0 ops in (rest.0, once.1 ∷ rest.1)

  checks-judge :
      (w : Whitelist Peer) (c : IssuedChallenge) (p : Peer) (signature : List ℕ) (timestamp now : ℕ)
      → judge (Whitelist.roles net w p) c p signature timestamp now
        ≡ elim (checks net w c p signature timestamp now) [ none ↦ reject | some r ↦ granted r ]
  unfolding judge checks
  checks-judge w c p signature timestamp now = elim (Option-cases (Whitelist.roles net w p)) [
    | inl stranger ↦ ground arith
    | inr (roles, known) ↦ elim (Option-cases (public_key_of net p)) [
      | inl missing ↦ ground arith
      | inr (key, held) ↦ ground arith
    ]
  ]

  judged-reply :
      (a : GuardAuthenticator Peer) (p : Peer) (c : IssuedChallenge) (signature : List ℕ)
      (timestamp now : ℕ)
      → IsValid net a
      → lookup net.peer p a.pending ≡ some c
      → (verify_at net a p signature timestamp now).1
        ≡ judge (lookup net.peer p a.whitelist) c p signature timestamp now
  unfolding verify_at decide
  judged-reply a p c signature timestamp now v h =
      let same = checks-judge a.whitelist c p signature timestamp now in
      let known = roles-lookup net a.whitelist p v.listed in ground (arith, same, known)

  abbrev Refines : GuardAuthenticator Peer → AuthOp Peer → Type 0
  Refines a op =
      ((q : Peer) → view (apply net a op) q ≡ (step (view a) op).0 q)
      × (reply a op ≡ (step (view a) op).1)

  issues-Refines :
      (a : GuardAuthenticator Peer) (p : Peer) (nonce : List ℕ) (now : ℕ)
      → IsValid net a
      → Refines a (issues p nonce now)
  unfolding view apply step reply set issue_at
  issues-Refines a p nonce now v =
      let known = roles-lookup net a.whitelist p v.listed in
      (
        λ q. ground (
          arith,
          known,
          net.peer.beq_iff p q,
          lookup-insert net.peer p q (record { nonce = nonce; issued_at = now }) a.pending,
        ),
        ground (arith, known),
      )

  verifies-Refines :
      (a : GuardAuthenticator Peer) (p : Peer) (signature : List ℕ) (timestamp now : ℕ)
      → IsValid net a
      → Refines a (verifies p signature timestamp now)
  unfolding view apply step reply set
  verifies-Refines a p signature timestamp now v =
      elim (Option-cases (lookup net.peer p a.pending)) [
        | inl unasked ↦
            let same : verify_at net a p signature timestamp now ≡ (a, reject) =
              verify_at-unasked net a p signature timestamp now unasked in
            (λ q. ground (arith, same), ground (arith, same))
        | inr (c, asked) ↦
            let fair = judged-reply a p c signature timestamp now v asked in
            (
              λ q.
                  let (gone, written, kept) = verify_at-tables net a p q signature timestamp now in
                  ground (arith, fair, gone, written, kept, net.peer.beq_iff p q),
              ground (arith, fair),
            )
      ]

  apply-Refines : (a : GuardAuthenticator Peer) (op : AuthOp Peer) → IsValid net a → Refines a op
  unfolding view apply step reply set revoke end_session Whitelist.allow Whitelist.revoke
  apply-Refines a (issues p nonce now) v = issues-Refines a p nonce now v
  apply-Refines a (verifies p signature timestamp now) v =
      verifies-Refines a p signature timestamp now v
  apply-Refines a (ends p) v = (
    λ q. ground (
      arith,
      net.peer.beq_iff p q,
      lookup-remove net.peer p q a.pending,
      lookup-remove net.peer p q a.sessions,
    ),
    refl,
  )
  apply-Refines a (revokes p) v = (
    λ q. ground (
      arith,
      lookup-remove net.peer p q a.whitelist,
      lookup-remove net.peer p q a.pending,
      lookup-remove net.peer p q a.sessions,
    ),
    refl,
  )
  apply-Refines a (allows p roles) v = (
    λ q. ground (arith, net.peer.beq_iff p q, lookup-insert net.peer p q roles a.whitelist),
    refl,
  )
  apply-Refines a (reloads entries) v = (λ q. refl, refl)

  -- Any sequence of operations on an authority whose tables name each peer once, the whitelists put
  -- in place included, gives the answers that the ledger gives and ends with the tables that the
  -- ledger ends with, for every peer.
  pub run_refines :
      (a : GuardAuthenticator Peer) (ops : List (AuthOp Peer))
      → IsValid net a
      → All (IsProper net) ops
      → (view (run net a ops) ≡ (replay (view a) ops).0) × (replies a ops ≡ (replay (view a) ops).1)
  unfolding run replay replies
  run_refines a [] v proper = (refl, refl)
  run_refines a (op ∷ ops) v proper =
      let (moved, said) = apply-Refines a op v in
      let became : view (apply net a op) ≡ (step (view a) op).0 = λ i q. moved q i in
      let (tables, answers) =
        run_refines (apply net a op) ops (apply-IsValid net a op proper.0 v) proper.1 in
      (rw (← became) tables, rw (← became, ← said, answers) refl)

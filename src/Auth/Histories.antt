-- ===== src/Auth/Histories.antt =====
-- What holds after any sequence of operations of the authority.
use nux_auth.Prelude.{
  ◌⊎◌, ℕ, ◌+◌, ◌≤◌, ◌≡◌, refl, ap, ◌∙◌, Bool, true, false, List, [], ◌∷◌, none, arith, is_some,
  if◌then◌else◌, inl, inr, ◌&&◌, any, All,
}
use nux_auth.Prelude.Assoc.{lookup, lookup-insert, lookup-remove, lookup-remove_self}
use nux_auth.Net.{Net}
use nux_auth.Whitelist
use nux_auth.Whitelist.{Whitelist, Roles}
use nux_auth.Whitelist.Laws.{roles-lookup}
use nux_auth.Auth.{
  AuthOutcome, granted, reject, GuardAuthenticator, issue_at, verify_at, revoke, end_session,
  session_roles, new,
}
use nux_auth.Auth.Verify.{
  verify_at-tables, issue_at_cases, verify_at-unasked, verify_at-granted_iff,
}
use nux_auth.Auth.Sessions.{
  AuthOp, issues, verifies, ends, revokes, allows, reloads, is_granted, apply, IsValid, IsProper,
  apply-IsValid, session_after, sessions-apply,
}

module _ {Peer Key : Type 0} (net : Net Peer Key) where
  unfoldable pub run : GuardAuthenticator Peer → List (AuthOp Peer) → GuardAuthenticator Peer
  run a [] = a
  run a (op ∷ ops) = run (apply net a op) ops

  pub lives : Peer → GuardAuthenticator Peer → List (AuthOp Peer) → Bool → Bool
  lives p a [] b = b
  lives p a (op ∷ ops) b = lives p (apply net a op) ops (session_after net p a op b)

  sessions-run :
      (p : Peer) (a : GuardAuthenticator Peer) (ops : List (AuthOp Peer))
      → is_some (lookup net.peer p (run a ops).sessions)
        ≡ lives p a ops (is_some (lookup net.peer p a.sessions))
  unfolding run lives
  sessions-run p a [] = refl
  sessions-run p a (op ∷ ops) =
      sessions-run p (apply net a op) ops
      ∙ ap (lives p (apply net a op) ops) (sessions-apply net a op p)

  -- After any history a peer has roles exactly if the last event about its session was a granted
  -- answer, not an end or a revocation, and then they are the roles that the whitelist holds at
  -- the moment of the call.
  pub session_roles-run :
      (w : Whitelist Peer) (ops : List (AuthOp Peer)) (p : Peer)
      → session_roles net (run (new w) ops) p ≡ (
          if lives p (new w) ops false
          then Whitelist.roles net (run (new w) ops).whitelist p
          else none)
  unfolding session_roles new lookup
  session_roles-run w ops p = ground (arith, sessions-run p (new w) ops)

  pub granted_by : Peer → GuardAuthenticator Peer → AuthOp Peer → Bool
  granted_by p a (verifies q signature timestamp now) =
      net.peer.beq q p && is_granted (verify_at net a q signature timestamp now).1
  granted_by p a _ = false

  pub challenged_by : Peer → GuardAuthenticator Peer → AuthOp Peer → Bool
  challenged_by p a (issues q nonce now) =
      net.peer.beq q p && is_some (issue_at net a q nonce now).1
  challenged_by p a _ = false

  abbrev tally : Bool → ℕ
  tally true = 1
  tally false = 0

  -- How often a peer was granted access, and how often it was sent a challenge.
  pub grants : Peer → GuardAuthenticator Peer → List (AuthOp Peer) → ℕ
  grants p a [] = 0
  grants p a (op ∷ ops) = tally (granted_by p a op) + grants p (apply net a op) ops

  pub challenges : Peer → GuardAuthenticator Peer → List (AuthOp Peer) → ℕ
  challenges p a [] = 0
  challenges p a (op ∷ ops) = tally (challenged_by p a op) + challenges p (apply net a op) ops

  abbrev waiting : Peer → GuardAuthenticator Peer → ℕ
  waiting p a = tally (is_some (lookup net.peer p a.pending))

  spends :
      (p : Peer) (a : GuardAuthenticator Peer) (op : AuthOp Peer)
      → tally (granted_by p a op) + waiting p (apply net a op)
        ≤ tally (challenged_by p a op) + waiting p a
  unfolding apply granted_by challenged_by revoke end_session
  spends p a (issues q nonce now) =
      let (_, asked, _, _) = issue_at_cases net a q p nonce now in ground (arith, asked)
  spends p a (verifies q signature timestamp now) =
      let (gone, _, _) = verify_at-tables net a q p signature timestamp now in
      ground (
        arith,
        gone,
        net.peer.beq_iff q p,
        λ (h : lookup net.peer q a.pending ≡ none).
            verify_at-unasked net a q signature timestamp now h,
      )
  spends p a (ends q) = ground (arith, lookup-remove net.peer q p a.pending)
  spends p a (revokes q) = ground (arith, lookup-remove net.peer q p a.pending)
  spends p a (allows q roles) = omega arith
  spends p a (reloads entries) = omega arith

  grants-waiting :
      (p : Peer) (a : GuardAuthenticator Peer) (ops : List (AuthOp Peer))
      → grants p a ops ≤ challenges p a ops + waiting p a
  unfolding grants challenges
  grants-waiting p a [] = omega arith
  grants-waiting p a (op ∷ ops) =
      omega (arith, spends p a op, grants-waiting p (apply net a op) ops)

  -- No replay: in any history a peer is granted access at most as often as it was sent a
  -- challenge.
  pub grants-le-challenges :
      (p : Peer) (w : Whitelist Peer) (ops : List (AuthOp Peer))
      → grants p (new w) ops ≤ challenges p (new w) ops
  unfolding new lookup
  grants-le-challenges p w ops = omega (arith, grants-waiting p (new w) ops)

  -- An operation that may put the peer on the whitelist.
  unfoldable pub readmits : Peer → AuthOp Peer → Bool
  readmits p (allows q roles) = net.peer.beq q p
  readmits p (reloads entries) = is_some (lookup net.peer p entries)
  readmits p _ = false

  apply_unlisted :
      (p : Peer) (a : GuardAuthenticator Peer) (op : AuthOp Peer)
      → readmits p op ≡ false
      → lookup net.peer p a.whitelist ≡ none
      → lookup net.peer p (apply net a op).whitelist ≡ none
  unfolding apply readmits revoke end_session Whitelist.allow Whitelist.revoke
  apply_unlisted p a (issues q nonce now) h n =
      let (_, _, _, same) = issue_at_cases net a q p nonce now in rw same n
  apply_unlisted p a (verifies q signature timestamp now) h n =
      let (_, _, same) = verify_at-tables net a q p signature timestamp now in rw same n
  apply_unlisted p a (ends q) h n = n
  apply_unlisted p a (revokes q) h n = ground (arith, lookup-remove net.peer q p a.whitelist)
  apply_unlisted p a (allows q roles) h n =
      ground (arith, lookup-insert net.peer q p roles a.whitelist)
  apply_unlisted p a (reloads entries) h n = ground arith

  run_unlisted :
      (p : Peer) (a : GuardAuthenticator Peer) (ops : List (AuthOp Peer))
      → any (readmits p) ops ≡ false
      → lookup net.peer p a.whitelist ≡ none
      → lookup net.peer p (run a ops).whitelist ≡ none
  unfolding run
  run_unlisted p a [] h n = n
  run_unlisted p a (op ∷ ops) h n =
      run_unlisted p (apply net a op) ops (ground arith) (apply_unlisted p a op (ground arith) n)

  run-IsValid :
      (a : GuardAuthenticator Peer) (ops : List (AuthOp Peer))
      → All (IsProper net) ops
      → IsValid net a
      → IsValid net (run a ops)
  unfolding run
  run-IsValid a [] h v = v
  run-IsValid a (op ∷ ops) h v = run-IsValid (apply net a op) ops h.1 (apply-IsValid net a op h.0 v)

  outcome-cases : (o : AuthOutcome) → (o ≡ reject) ⊎ ((roles : Roles) × (o ≡ granted roles))
  outcome-cases reject = inl refl
  outcome-cases (granted roles) = inr (roles, refl)

  pub verify_at-unlisted :
      (a : GuardAuthenticator Peer) (p : Peer) (signature : List ℕ) (timestamp now : ℕ)
      → Whitelist.roles net a.whitelist p ≡ none
      → (verify_at net a p signature timestamp now).1 ≡ reject
  verify_at-unlisted a p signature timestamp now n =
      elim (outcome-cases (verify_at net a p signature timestamp now).1) [
        | inl e ↦ e
        | inr (roles, e) ↦
            let answers = (verify_at-granted_iff net a p signature timestamp now roles).0 e in
            absurd (cc (answers.allowed))
      ]

  revoke-unlisted :
      (p : Peer) (a : GuardAuthenticator Peer)
      → lookup net.peer p (revoke net a p).0.whitelist ≡ none
  unfolding revoke Whitelist.revoke
  revoke-unlisted p a = lookup-remove_self net.peer p a.whitelist

  -- A revoked peer stays out: from the revocation on, through any operations that do not put it
  -- back on the whitelist, it has no roles, gets no challenge, and no answer of it is accepted,
  -- one to a challenge from before the revocation included.
  pub revoked_stays_out :
      (p : Peer) (a : GuardAuthenticator Peer) (ops : List (AuthOp Peer)) (nonce signature : List ℕ)
      (timestamp now : ℕ)
      → IsValid net a
      → All (IsProper net) ops
      → any (readmits p) ops ≡ false
      → let later = run (revoke net a p).0 ops in
        (session_roles net later p ≡ none)
        × ((issue_at net later p nonce now).1 ≡ none)
        × ((verify_at net later p signature timestamp now).1 ≡ reject)
  unfolding session_roles apply
  revoked_stays_out p a ops nonce signature timestamp now v proper h =
      let later = run (revoke net a p).0 ops in
      let valid =
        run-IsValid (revoke net a p).0 ops proper (apply-IsValid net a (revokes p) tt v) in
      let out : Whitelist.roles net later.whitelist p ≡ none =
        roles-lookup net later.whitelist p valid.listed
        ∙ run_unlisted p (revoke net a p).0 ops h (revoke-unlisted p a) in
      (
        ground (arith, out),
        (issue_at_cases net later p p nonce now).0 ∙ rw out,
        verify_at-unlisted later p signature timestamp now out,
      )

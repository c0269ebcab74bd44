-- ===== src/Auth/Sessions.antt =====
-- What one operation of the authority does to one peer's challenge and session.
use nux_auth.Prelude.{
  ℕ, ◌≡◌, refl, Bool, true, false, List, arith, is_some, is_none, if◌then◌else◌, Option-cases,
  Bool-cases, inl, inr, ◌&&◌,
}
use nux_auth.Prelude.Assoc.{lookup, Distinct, lookup-remove, insert-Distinct, remove-Distinct}
use nux_auth.Net.{Net}
use nux_auth.Whitelist
use nux_auth.Whitelist.{Whitelist, Roles}
use nux_auth.Whitelist.Laws.{allow-Distinct, revoke-Distinct}
use nux_auth.Auth.{
  AuthOutcome, granted, reject, GuardAuthenticator, issue_at, verify_at, revoke, end_session,
  decide, checks,
}
use nux_auth.Auth.Verify.{verify_at-tables, issue_at_cases}

-- What the node asks of the authority; `allows` and `reloads` go through `whitelist_mut`.
pub data AuthOp (Peer : Type 0) : Type 0 where
  issues : Peer → List ℕ → ℕ → AuthOp Peer
  verifies : Peer → List ℕ → ℕ → ℕ → AuthOp Peer
  ends : Peer → AuthOp Peer
  revokes : Peer → AuthOp Peer
  allows : Peer → Roles → AuthOp Peer
  reloads : Whitelist Peer → AuthOp Peer

abbrev pub is_granted : AuthOutcome → Bool
is_granted (granted roles) = true
is_granted reject = false

module _ {Peer Key : Type 0} (net : Net Peer Key) where
  unfoldable pub apply : GuardAuthenticator Peer → AuthOp Peer → GuardAuthenticator Peer
  apply a (issues p nonce now) = (issue_at net a p nonce now).0
  apply a (verifies p signature timestamp now) = (verify_at net a p signature timestamp now).0
  apply a (ends p) = end_session net a p
  apply a (revokes p) = (revoke net a p).0
  apply a (allows p roles) = record a { whitelist = Whitelist.allow net p roles a.whitelist }
  apply a (reloads entries) = record a { whitelist = entries }

  -- Each peer once in each table.
  pub record IsValid (a : GuardAuthenticator Peer) : Type 0 where
    pub listed : Distinct net.peer a.whitelist
    pub asked : Distinct net.peer a.pending
    pub open_sessions : Distinct net.peer a.sessions

  -- A whitelist that is put in place names each peer once.
  abbrev pub IsProper : AuthOp Peer → Type 0
  IsProper (reloads entries) = Distinct net.peer entries
  IsProper _ = Unit {0}

  verify_at-IsValid :
      (a : GuardAuthenticator Peer) (p : Peer) (signature : List ℕ) (timestamp now : ℕ)
      → IsValid a
      → IsValid (verify_at net a p signature timestamp now).0
  unfolding verify_at decide
  verify_at-IsValid a p signature timestamp now v =
      elim (Option-cases (lookup net.peer p a.pending)) [
        | inl missing ↦ rw (missing, verify_at) v
        | inr (c, asked) ↦
            let kept = remove-Distinct net.peer p a.pending v.asked in
            let made = checks net a.whitelist c p signature timestamp now in
            elim (Option-cases made) [
              | inl bad ↦ record {
                listed = ground (arith, v.listed);
                asked = ground (arith, kept);
                open_sessions = ground (arith, v.open_sessions);
              }
              | inr (roles, good) ↦ record {
                listed = ground (arith, v.listed);
                asked = ground (arith, kept);
                open_sessions =
                    ground (arith, insert-Distinct net.peer p roles a.sessions v.open_sessions);
              }
            ]
      ]

  issue_at-IsValid :
      (a : GuardAuthenticator Peer) (p : Peer) (nonce : List ℕ) (now : ℕ)
      → IsValid a
      → IsValid (issue_at net a p nonce now).0
  unfolding issue_at
  issue_at-IsValid a p nonce now v =
      elim (Bool-cases (is_none (Whitelist.roles net a.whitelist p))) [
        | inl stranger ↦ rw stranger v
        | inr known ↦ rw known (record {
          listed = v.listed;
          asked = insert-Distinct net.peer p _ a.pending v.asked;
          open_sessions = v.open_sessions;
        })
      ]

  -- Every operation keeps one entry for a peer in the whitelist, the challenges and the sessions.
  pub apply-IsValid :
      (a : GuardAuthenticator Peer) (op : AuthOp Peer)
      → IsProper op
      → IsValid a
      → IsValid (apply a op)
  unfolding apply revoke end_session
  apply-IsValid a (issues p nonce now) h v = issue_at-IsValid a p nonce now v
  apply-IsValid a (verifies p signature timestamp now) h v =
      verify_at-IsValid a p signature timestamp now v
  apply-IsValid a (ends p) h v = record {
    listed = v.listed;
    asked = remove-Distinct net.peer p a.pending v.asked;
    open_sessions = remove-Distinct net.peer p a.sessions v.open_sessions;
  }
  apply-IsValid a (revokes p) h v = record {
    listed = revoke-Distinct net a.whitelist p v.listed;
    asked = remove-Distinct net.peer p a.pending v.asked;
    open_sessions = remove-Distinct net.peer p a.sessions v.open_sessions;
  }
  apply-IsValid a (allows p roles) h v = record {
    listed = allow-Distinct net a.whitelist p roles v.listed;
    asked = v.asked;
    open_sessions = v.open_sessions;
  }
  apply-IsValid a (reloads entries) h v = record {
    listed = h;
    asked = v.asked;
    open_sessions = v.open_sessions;
  }

  -- Whether an operation opens, closes or leaves the session of a peer.
  pub session_after : Peer → GuardAuthenticator Peer → AuthOp Peer → Bool → Bool
  session_after p a (verifies q signature timestamp now) b =
      if net.peer.beq q p && is_granted (verify_at net a q signature timestamp now).1
      then true
      else b
  session_after p a (ends q) b = if net.peer.beq q p then false else b
  session_after p a (revokes q) b = if net.peer.beq q p then false else b
  session_after p a _ b = b

  pub sessions-apply :
      (a : GuardAuthenticator Peer) (op : AuthOp Peer) (p : Peer)
      → is_some (lookup net.peer p (apply a op).sessions)
        ≡ session_after p a op (is_some (lookup net.peer p a.sessions))
  unfolding apply session_after revoke end_session
  sessions-apply a (issues q nonce now) p =
      let (_, _, same, _) = issue_at_cases net a q p nonce now in rw same
  sessions-apply a (verifies q signature timestamp now) p =
      ground (arith, (verify_at-tables net a q p signature timestamp now).1)
  sessions-apply a (ends q) p = ground (arith, lookup-remove net.peer q p a.sessions)
  sessions-apply a (revokes q) p = ground (arith, lookup-remove net.peer q p a.sessions)
  sessions-apply a (allows q roles) p = refl
  sessions-apply a (reloads entries) p = refl

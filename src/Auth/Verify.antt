-- ===== src/Auth/Verify.antt =====
-- Exactly when an answer is accepted, and what an answer changes.
use nux_auth.Prelude.{
  beq_refl, ℕ, ◌+◌, ◌≤◌, ◌≡◌, ◌↔◌, ap, ◌∙◌, ◌&&◌, true, List, none, some, arith, is_some,
  if◌then◌else◌, Option-cases, inl, inr,
}
use nux_auth.Prelude.Assoc.{lookup, lookup-insert, lookup-remove}
use nux_auth.Net.{Net}
use nux_auth.Protocol.{challenge_payload, challenge}
use nux_auth.Whitelist
use nux_auth.Whitelist.{Whitelist, Roles}
use nux_auth.Auth.{
  granted, reject, IssuedChallenge, GuardAuthenticator, public_key_of, issue_at, checks, decide,
  verify_at, end_session,
}

module _ {Peer Key : Type 0} (net : Net Peer Key) where
  -- What a good answer to a challenge is: in time by the Guard's clock, stamped within the window
  -- on either side, from a peer of the whitelist, and signed over the challenge's nonce and that
  -- stamp by the key that the identity holds.
  pub record Answers (a : GuardAuthenticator Peer) (p : Peer) (signature : List ℕ)
      (timestamp now : ℕ) (roles : Roles) : Type 0 where
    pub asked : IssuedChallenge
    pub key : Key
    pub pending : lookup net.peer p a.pending ≡ some asked
    pub in_time : now ≤ asked.issued_at + 5
    pub not_stale : now ≤ timestamp + 5
    pub not_early : timestamp ≤ now + 5
    pub allowed : Whitelist.roles net a.whitelist p ≡ some roles
    pub holds : public_key_of net p ≡ some key
    pub signed : net.verify key (challenge_payload asked.nonce timestamp) signature ≡ true

  checks-granted :
      (w : Whitelist Peer) (c : IssuedChallenge) (p : Peer) (signature : List ℕ) (timestamp now : ℕ)
      (roles : Roles)
      → checks net w c p signature timestamp now ≡ some roles
      → (key : Key) × (now ≤ c.issued_at + 5)
        × (now ≤ timestamp + 5)
        × (timestamp ≤ now + 5)
        × (Whitelist.roles net w p ≡ some roles)
        × (public_key_of net p ≡ some key)
        × (net.verify key (challenge_payload c.nonce timestamp) signature ≡ true)
  unfolding checks
  checks-granted w c p signature timestamp now roles h = elim (Option-cases (public_key_of net p)) [
    | inl missing ↦ absurd (ground arith)
    | inr (key, held) ↦
        (key, ground arith, ground arith, ground arith, ground arith, held, ground arith)
  ]

  checks_of :
      (w : Whitelist Peer) (c : IssuedChallenge) (p : Peer) (signature : List ℕ) (timestamp now : ℕ)
      (roles : Roles) (key : Key)
      → now ≤ c.issued_at + 5
      → now ≤ timestamp + 5
      → timestamp ≤ now + 5
      → Whitelist.roles net w p ≡ some roles
      → public_key_of net p ≡ some key
      → net.verify key (challenge_payload c.nonce timestamp) signature ≡ true
      → checks net w c p signature timestamp now ≡ some roles
  unfolding checks
  checks_of w c p signature timestamp now roles key t s e r k v = ground arith

  granted-Answers :
      (a : GuardAuthenticator Peer) (p : Peer) (signature : List ℕ) (timestamp now : ℕ)
      (roles : Roles)
      → (verify_at net a p signature timestamp now).1 ≡ granted roles
      → Answers a p signature timestamp now roles
  unfolding verify_at decide
  granted-Answers a p signature timestamp now roles h =
      elim (Option-cases (lookup net.peer p a.pending)) [
        | inl missing ↦ absurd (ground arith)
        | inr (c, asked) ↦
            let (key, t, s, e, r, k, v) =
              checks-granted a.whitelist c p signature timestamp now roles (ground arith) in
            record {
              asked = c;
              key = key;
              pending = asked;
              in_time = t;
              not_stale = s;
              not_early = e;
              allowed = r;
              holds = k;
              signed = v;
            }
      ]

  Answers-granted :
      (a : GuardAuthenticator Peer) (p : Peer) (signature : List ℕ) (timestamp now : ℕ)
      (roles : Roles)
      → Answers a p signature timestamp now roles
      → (verify_at net a p signature timestamp now).1 ≡ granted roles
  unfolding verify_at decide
  Answers-granted a p signature timestamp now roles h = ground (
    arith,
    h.pending,
    checks_of a.whitelist h.asked p signature timestamp now roles h.key h.in_time h.not_stale
        h.not_early h.allowed h.holds h.signed,
  )

  -- An answer is accepted, with the given roles, exactly if a challenge is pending that is at most
  -- five seconds old, the stamp is at most five seconds from the Guard's clock on either side, the
  -- whitelist gives the peer those roles now, and the key inside the identity signed the nonce of
  -- that challenge with that stamp.
  pub verify_at-granted_iff :
      (a : GuardAuthenticator Peer) (p : Peer) (signature : List ℕ) (timestamp now : ℕ)
      (roles : Roles)
      → ((verify_at net a p signature timestamp now).1 ≡ granted roles)
        ↔ Answers a p signature timestamp now roles
  verify_at-granted_iff a p signature timestamp now roles = (
    granted-Answers a p signature timestamp now roles,
    Answers-granted a p signature timestamp now roles,
  )

  -- What an answer does to the tables, for every peer: the challenge of the one that answers is
  -- gone whatever the outcome, a session is written for it exactly if it is granted, and nothing
  -- else changes.
  pub verify_at-tables :
      (a : GuardAuthenticator Peer) (p q : Peer) (signature : List ℕ) (timestamp now : ℕ)
      → let r = verify_at net a p signature timestamp now in
        (lookup net.peer q r.0.pending
          ≡ (if net.peer.beq p q then none else lookup net.peer q a.pending))
        × (lookup net.peer q r.0.sessions ≡ (
            if net.peer.beq p q
            then elim r.1 [ granted roles ↦ some roles | reject ↦ lookup net.peer q a.sessions ]
            else lookup net.peer q a.sessions))
        × (r.0.whitelist ≡ a.whitelist)
  unfolding verify_at decide
  verify_at-tables a p q signature timestamp now =
      elim (Option-cases (lookup net.peer p a.pending)) [
        | inl missing ↦ (ground (arith, net.peer.beq_iff p q), ground arith, ground arith)
        | inr (c, asked) ↦
            let made = checks net a.whitelist c p signature timestamp now in
            elim (Option-cases made) [
              | inl bad ↦
                  (ground (arith, lookup-remove net.peer p q a.pending), ground arith, ground arith)
              | inr (roles, good) ↦ (
                ground (arith, lookup-remove net.peer p q a.pending),
                ground (arith, lookup-insert net.peer p q roles a.sessions),
                ground arith,
              )
            ]
      ]

  pub verify_at-unasked :
      (a : GuardAuthenticator Peer) (p : Peer) (signature : List ℕ) (timestamp now : ℕ)
      → lookup net.peer p a.pending ≡ none
      → verify_at net a p signature timestamp now ≡ (a, reject)
  unfolding verify_at
  verify_at-unasked a p signature timestamp now h = ground arith

  -- An answer is good for one use: whatever the first one led to, the same or any other answer of
  -- the peer is rejected until a new challenge is issued.
  pub verify_at_twice :
      (a : GuardAuthenticator Peer) (p : Peer) (signature signature' : List ℕ)
      (timestamp timestamp' now later : ℕ)
      → (verify_at net
          (verify_at net a p signature timestamp now).0
          p
          signature'
          timestamp'
          later).1
        ≡ reject
  verify_at_twice a p signature signature' timestamp timestamp' now later =
      let gone = (verify_at-tables a p p signature timestamp now).0 in
      ap (λ r. r.1)
        (verify_at-unasked _ p signature' timestamp' later (gone ∙ rw (beq_refl net.peer p)))

  -- A peer outside the whitelist gets no challenge and leaves no trace; any other gets the nonce,
  -- which becomes its one pending challenge.
  pub issue_at_cases :
      (a : GuardAuthenticator Peer) (p q : Peer) (nonce : List ℕ) (now : ℕ)
      → let r = issue_at net a p nonce now in
        (r.1 ≡ (
          if is_some (Whitelist.roles net a.whitelist p) then some (challenge nonce now) else none))
        × (lookup net.peer q r.0.pending ≡ (
            if is_some r.1 && net.peer.beq p q
            then some (record { nonce = nonce; issued_at = now })
            else lookup net.peer q a.pending))
        × (r.0.sessions ≡ a.sessions)
        × (r.0.whitelist ≡ a.whitelist)
  unfolding issue_at
  issue_at_cases a p q nonce now =
      let issued : IssuedChallenge = record { nonce = nonce; issued_at = now } in
      (
        ground arith,
        ground (arith, lookup-insert net.peer p q issued a.pending),
        ground arith,
        ground arith,
      )

  -- The end of a session forgets the peer and nobody else.
  pub end_session-tables :
      (a : GuardAuthenticator Peer) (p q : Peer)
      → let b = end_session net a p in
        (lookup net.peer q b.pending
          ≡ (if net.peer.beq p q then none else lookup net.peer q a.pending))
        × (b.whitelist ≡ a.whitelist)
  unfolding end_session
  end_session-tables a p q = (lookup-remove net.peer p q a.pending, ground arith)

-- ===== src/Auth/Handshake.antt =====
-- The whole exchange between a client that holds its key and the Guard.
use nux_auth.Prelude.{ℕ, ◌+◌, ◌≤◌, ◌≡◌, true, List, Option, some, arith, ok, beq_refl}
use nux_auth.Net.{Net}
use nux_auth.Protocol.{challenge_payload, challenge, challenge_answer}
use nux_auth.Whitelist
use nux_auth.Whitelist.{Roles}
use nux_auth.Auth.{
  granted, GuardAuthenticator, public_key_of, issue_at, verify_at, answer_challenge,
}
use nux_auth.Auth.Verify.{Answers, verify_at-granted_iff, issue_at_cases}

module _ {Peer Key : Type 0} (net : Net Peer Key) where
  -- A peer of the whitelist whose key signs is let in: it is sent the challenge, its answer is
  -- made, and the Guard grants it the roles of the whitelist, where the answer comes within five
  -- seconds of the challenge and the two clocks are within five seconds of one another.
  pub handshake_granted :
      (a : GuardAuthenticator Peer) (p : Peer) (nonce : List ℕ) (asked stamped now : ℕ)
      (sign : List ℕ → Option (List ℕ)) (signature : List ℕ) (key : Key) (roles : Roles)
      → Whitelist.roles net a.whitelist p ≡ some roles
      → public_key_of net p ≡ some key
      → sign (challenge_payload nonce stamped) ≡ some signature
      → net.verify key (challenge_payload nonce stamped) signature ≡ true
      → now ≤ asked + 5
      → now ≤ stamped + 5
      → stamped ≤ now + 5
      → ((issue_at net a p nonce asked).1 ≡ some (challenge nonce asked))
        × (answer_challenge sign nonce stamped ≡ ok (challenge_answer signature stamped))
        × ((verify_at net (issue_at net a p nonce asked).0 p signature stamped now).1
            ≡ granted roles)
  unfolding answer_challenge
  handshake_granted a p nonce asked stamped now sign signature key roles r k s v t u w =
      let (sent, pends, _, same) = issue_at_cases net a p p nonce asked in
      let answers : Answers net (issue_at net a p nonce asked).0 p signature stamped now roles =
        record {
          asked = record { nonce = nonce; issued_at = asked };
          key = key;
          pending = ground (arith, sent, pends, beq_refl net.peer p);
          in_time = t;
          not_stale = u;
          not_early = w;
          allowed = rw same r;
          holds = k;
          signed = v;
        } in
      (
        ground (arith, sent),
        ground arith,
        (verify_at-granted_iff net _ p signature stamped now roles).1 answers,
      )

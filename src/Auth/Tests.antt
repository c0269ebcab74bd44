-- ===== src/Auth/Tests.antt =====
-- The authority on concrete exchanges.
use nux_auth.Prelude.{ℕ, ◌≤◌, ◌≡◌, ◌↔◌, refl, false, List, [], ◌∷◌, none, some, if◌then◌else◌}
use nux_auth.Prelude.Assoc.{lookup}
use nux_auth.Fixtures.{toy_net}
use nux_auth.Protocol.{challenge_payload}
use nux_auth.Whitelist
use nux_auth.Whitelist.{Whitelist, Roles}
use nux_auth.Whitelist.Laws.{roles-lookup}
use nux_auth.Auth.{
  GuardAuthenticator, granted, reject, new, issue_at, verify_at, revoke, session_roles,
}
use nux_auth.Auth.Verify.{Answers, verify_at-granted_iff}
use nux_auth.Auth.Sessions.{AuthOp, issues, verifies, ends, allows, IsValid}
use nux_auth.Auth.Histories.{
  run, lives, readmits, grants, challenges, session_roles-run, grants-le-challenges,
  revoked_stays_out,
}
use nux_auth.Auth.Spec.{view, replay, replies, run_refines}

abbrev admin : Roles
admin = (97 ∷ []) ∷ []

abbrev listed : Whitelist ℕ
listed = (7, admin) ∷ []

abbrev signed : ℕ → List ℕ → List ℕ
signed key payload = key ∷ payload

-- A Guard that waits for the answer of peer 7 to a challenge of the second 100.
abbrev waiting : GuardAuthenticator ℕ
waiting = record {
  whitelist = listed;
  pending = (7, record { nonce = 1 ∷ 2 ∷ []; issued_at = 100 }) ∷ [];
  sessions = [];
}

abbrev answer : List ℕ
answer = signed 7 (challenge_payload (1 ∷ 2 ∷ []) 101)

listed_roles : Whitelist.roles toy_net listed 7 ≡ some admin
unfolding lookup
listed_roles = rw (roles-lookup toy_net listed 7 (refl, tt)) refl

verify_at-granted_iff_example :
    ((verify_at toy_net waiting 7 answer 101 102).1 ≡ granted admin)
    ↔ Answers toy_net waiting 7 answer 101 102 admin
verify_at-granted_iff_example = verify_at-granted_iff toy_net waiting 7 answer 101 102 admin

waiting-IsValid : IsValid toy_net waiting
unfolding lookup
waiting-IsValid = record { listed = (refl, tt); asked = (refl, tt); open_sessions = tt }

abbrev history : List (AuthOp ℕ)
history = issues 7 (1 ∷ 2 ∷ []) 100 ∷ verifies 7 answer 101 102 ∷ verifies 7 answer 101 102 ∷ []

session_roles-run_example : session_roles toy_net (run toy_net (new listed) history) 7 ≡ (
    if lives toy_net 7 (new listed) history false
    then Whitelist.roles toy_net (run toy_net (new listed) history).whitelist 7
    else none)
session_roles-run_example = session_roles-run toy_net listed history 7

grants-le-challenges_example :
    grants toy_net 7 (new listed) history ≤ challenges toy_net 7 (new listed) history
grants-le-challenges_example = grants-le-challenges toy_net 7 listed history

revoked_stays_out_example :
    let later = run toy_net (revoke toy_net waiting 7).0 (allows 8 admin ∷ ends 7 ∷ []) in
    (session_roles toy_net later 7 ≡ none)
    × ((issue_at toy_net later 7 (3 ∷ []) 103).1 ≡ none)
    × ((verify_at toy_net later 7 answer 101 103).1 ≡ reject)
unfolding readmits
revoked_stays_out_example =
    revoked_stays_out toy_net 7 waiting (allows 8 admin ∷ ends 7 ∷ []) (3 ∷ []) answer 101 103
      waiting-IsValid (tt, (tt, tt)) refl

run_refines_example :
    (view toy_net (run toy_net waiting history) ≡ (replay toy_net (view toy_net waiting) history).0)
    × (replies toy_net waiting history ≡ (replay toy_net (view toy_net waiting) history).1)
run_refines_example = run_refines toy_net waiting history waiting-IsValid (tt, (tt, (tt, tt)))

-- ===== src/RateLimit/Tests.antt =====
-- The limiter on concrete runs.
use nux_auth.Prelude.{
  ℕ, ◌≤◌, ◌≡◌, ◌↔◌, ◌<◌, refl, true, List, [], ◌∷◌, arith, count, nat_eq, Bool, false, ◌==◌, ==_iff,
  Eq,
}
use nux_auth.RateLimit.{
  RateLimiter, new, allow_at, contains, admit, make_room, record_hit, sweep_if_due, sweep,
  retain_recent, prune,
}
use nux_auth.Prelude.Assoc.{lookup, insert}
use nux_auth.RateLimit.Behaviour.{IpAddr, v4, v6, Part, ip4, other}
use nux_auth.RateLimit.Hits.{hits_of}
use nux_auth.RateLimit.Queue.{recent}
use nux_auth.RateLimit.Table.{IsValid}
use nux_auth.RateLimit.Trace.{served, in_window, served_within_limit}
use nux_auth.RateLimit.Admission.{allow_at_iff}

-- Two connections in ten instants.
abbrev limiter : RateLimiter ℕ
unfolding new
limiter = new 2 10 0

abbrev calls : List (ℕ × ℕ)
calls = (7, 1) ∷ (7, 2) ∷ (8, 2) ∷ (7, 5) ∷ (7, 12) ∷ (7, 13) ∷ []

calls-served : served nat_eq 7 limiter calls ≡ 1 ∷ 2 ∷ 12 ∷ 13 ∷ []
unfolding served allow_at admit make_room record_hit sweep_if_due sweep retain_recent prune contains
    limiter new lookup insert
calls-served = refl

served_within_limit_example : count (in_window 2 10) (served nat_eq 7 limiter calls) ≤ 2
unfolding contains limiter
served_within_limit_example =
    served_within_limit nat_eq 7 limiter 0 calls 2 refl refl
      (omega arith, (omega arith, (omega arith, (omega arith, (omega arith, (omega arith, tt))))))

limiter-IsValid : IsValid nat_eq 0 limiter
unfolding limiter
limiter-IsValid = record { distinct = tt; queues = tt; bounded = omega arith }

allow_at_iff_example :
    ((allow_at nat_eq limiter 7 3).1 ≡ true) ↔ (recent 3 10 (hits_of nat_eq 7 limiter) < 2)
unfolding contains limiter
allow_at_iff_example = allow_at_iff nat_eq 0 limiter 7 3 limiter-IsValid refl (omega arith)

abbrev same_ip : IpAddr ℕ ℕ → IpAddr ℕ ℕ → Bool
same_ip (v4 a) (v4 b) = a == b
same_ip (v6 a) (v6 b) = a == b
same_ip _ _ = false

same_ip_iff : (a b : IpAddr ℕ ℕ) → (same_ip a b ≡ true) ↔ (a ≡ b)
same_ip_iff (v4 a) (v4 b) = ground (arith, ==_iff a b)
same_ip_iff (v6 a) (v6 b) = ground (arith, ==_iff a b)
same_ip_iff (v4 a) (v6 b) = ground arith
same_ip_iff (v6 a) (v4 b) = ground arith

abbrev ip_eq : Eq (IpAddr ℕ ℕ)
ip_eq = record { beq = same_ip; beq_iff = same_ip_iff }

abbrev home : List (Part ℕ ℕ)
home = other ∷ ip4 7 ∷ []

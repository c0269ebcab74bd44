-- ===== src/RateLimit/Behaviour.antt =====
-- crates/nux-core/src/rate_limit.rs, `Behaviour`: the limiter in front of the other behaviours of
-- the swarm. Its other callbacks accept everything and keep no state.
use nux_auth.Prelude.{
  ℕ, ◌≡◌, ◌∙◌, refl, true, ◌||◌, List, [], ◌∷◌, Option, none, some, arith, if◌then◌else◌, Eq,
  Bool-cases, inl, inr, Result, ok, err,
}
use nux_auth.RateLimit.{RateLimiter, new, exempt, contains, allow_at}
use nux_auth.RateLimit.Trace.{allow_at-exempt}
use nux_auth.RateLimit.Window.{allow_at-Answers}

pub data IpAddr (V4 V6 : Type 0) : Type 0 where
  v4 : V4 → IpAddr V4 V6
  v6 : V6 → IpAddr V4 V6

-- The parts of a `Multiaddr`; `other` stands for every part that is no address.
pub data Part (V4 V6 : Type 0) : Type 0 where
  ip4 : V4 → Part V4 V6
  ip6 : V6 → Part V4 V6
  other : Part V4 V6

pub record RateExceeded (Ip : Type 0) : Type 0 where
  pub ip : Ip

module _ {V4 V6 : Type 0} where
  unfoldable pub ip_of : List (Part V4 V6) → Option (IpAddr V4 V6)
  ip_of [] = none
  ip_of (ip4 a ∷ parts) = some (v4 a)
  ip_of (ip6 a ∷ parts) = some (v6 a)
  ip_of (other ∷ parts) = ip_of parts

module _ {Ip : Type 0} (e : Eq Ip) where
  unfoldable pub exempt_all : RateLimiter Ip → List Ip → RateLimiter Ip
  exempt_all l [] = l
  exempt_all l (ip ∷ ips) = exempt_all (exempt e l ip) ips

  unfoldable pub with_exemptions : ℕ → ℕ → List Ip → ℕ → RateLimiter Ip
  unfolding exempt_all
  with_exemptions max_per_window window ips started =
      exempt_all (new max_per_window window started) ips

  contains-exempt :
      (l : RateLimiter Ip) (ip a : Ip)
      → contains e (exempt e l ip).exempt a ≡ (contains e l.exempt a || e.beq ip a)
  unfolding exempt contains
  contains-exempt l ip a = elim (Bool-cases (contains e l.exempt ip)) [
    | inl known ↦ elim (Bool-cases (e.beq ip a)) [
      | inl same ↦
          let is : ip ≡ a = (e.beq_iff ip a).0 same in
          let has : contains e l.exempt a ≡ true = rw (← is) known in ground (arith, known, has)
      | inr apart ↦ ground (arith, known, apart)
    ]
    | inr fresh ↦ ground (arith, fresh)
  ]

  contains-exempt_all :
      (l : RateLimiter Ip) (ips : List Ip) (a : Ip)
      → contains e (exempt_all l ips).exempt a ≡ (contains e l.exempt a || contains e ips a)
  unfolding exempt_all contains
  contains-exempt_all l [] a = ground arith
  contains-exempt_all l (ip ∷ ips) a =
      ground (arith, contains-exempt l ip a, contains-exempt_all (exempt e l ip) ips a)

  allow_at-exempt_same :
      (l : RateLimiter Ip) (ip : Ip) (now : ℕ) → (allow_at e l ip now).0.exempt ≡ l.exempt
  allow_at-exempt_same l ip now = elim (Bool-cases (contains e l.exempt ip)) [
    | inl free ↦ rw (allow_at-exempt e l ip now free) refl
    | inr limited ↦ (allow_at-Answers e l ip now limited).limits.exempt_same
  ]

module _ {V4 V6 : Type 0} (e : Eq (IpAddr V4 V6)) where
  abbrev pub Verdict : Type 0
  Verdict = Result (RateExceeded (IpAddr V4 V6)) (Unit {0})

  unfoldable pub handle_pending_inbound_connection :
      RateLimiter (IpAddr V4 V6) → List (Part V4 V6) → ℕ → RateLimiter (IpAddr V4 V6) × Verdict
  unfolding ip_of
  handle_pending_inbound_connection l remote now = elim (ip_of remote) [
    | none ↦ (l, ok tt)
    | some ip ↦
        let r = allow_at e l ip now in (r.0, if r.1 then ok tt else err (record { ip = ip }))
  ]

  -- The limiter after a sequence of connections.
  unfoldable pub after :
      RateLimiter (IpAddr V4 V6) → List (List (Part V4 V6) × ℕ) → RateLimiter (IpAddr V4 V6)
  unfolding handle_pending_inbound_connection
  after l [] = l
  after l ((remote, now) ∷ calls) = after (handle_pending_inbound_connection l remote now).0 calls

  handled-exempt_same :
      (l : RateLimiter (IpAddr V4 V6)) (remote : List (Part V4 V6)) (now : ℕ)
      → (handle_pending_inbound_connection l remote now).0.exempt ≡ l.exempt
  unfolding handle_pending_inbound_connection
  handled-exempt_same l remote now =
      elim (ip_of remote)
        as (λ o.
          (elim o as (λ _. RateLimiter (IpAddr V4 V6) × Verdict) [
            | none ↦ (l, ok tt)
            | some ip ↦ (
              (allow_at e l ip now).0,
              if (allow_at e l ip now).1 then ok tt else err (record { ip = ip }),
            )
          ]).0.exempt
          ≡ l.exempt) [ none ↦ refl | some ip ↦ allow_at-exempt_same e l ip now ]

  after-exempt_same :
      (l : RateLimiter (IpAddr V4 V6)) (calls : List (List (Part V4 V6) × ℕ))
      → (after l calls).exempt ≡ l.exempt
  unfolding after
  after-exempt_same l [] = refl
  after-exempt_same l ((remote, now) ∷ calls) =
      after-exempt_same (handle_pending_inbound_connection l remote now).0 calls
      ∙ handled-exempt_same l remote now

  accepted :
      (l : RateLimiter (IpAddr V4 V6)) (remote : List (Part V4 V6)) (now : ℕ) (ip : IpAddr V4 V6)
      → contains e l.exempt ip ≡ true
      → ip_of remote ≡ some ip
      → handle_pending_inbound_connection l remote now ≡ (l, ok tt)
  unfolding handle_pending_inbound_connection
  accepted l remote now ip free from = ground (arith, from, allow_at-exempt e l ip now free)

  -- A connection from an exempted address is accepted, and leaves the limiter as it is, whatever
  -- the limits and whatever connections came before, of that address or of any other.
  pub exempt_always_accepted :
      (max_per_window window started now : ℕ) (ips : List (IpAddr V4 V6))
      (calls : List (List (Part V4 V6) × ℕ)) (remote : List (Part V4 V6)) (ip : IpAddr V4 V6)
      → contains e ips ip ≡ true
      → ip_of remote ≡ some ip
      → let l = after (with_exemptions e max_per_window window ips started) calls in
        handle_pending_inbound_connection l remote now ≡ (l, ok tt)
  unfolding with_exemptions new contains
  exempt_always_accepted max_per_window window started now ips calls remote ip known from =
      let fresh = new {Ip = IpAddr V4 V6} max_per_window window started in
      let l = after (with_exemptions e max_per_window window ips started) calls in
      let free : contains e l.exempt ip ≡ true =
        rw (after-exempt_same (exempt_all e fresh ips) calls, contains-exempt_all e fresh ips ip)
          known in
      accepted l remote now ip free from

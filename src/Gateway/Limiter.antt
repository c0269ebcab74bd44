-- ===== src/Gateway/Limiter.antt =====
-- nux_gateway/src/rate_limit.rs: the fixed-window limiter of the sensitive routes. The counter is an
-- `AtomicU32`, whose `fetch_add` wraps; times are in seconds.
use nux_auth.Prelude.{
  ℕ, suc, ◌+◌, ◌-◌, ◌%◌, ◌^◌, ◌≤◌, ◌<◌, ◌≡◌, ◌∙◌, ap, Bool, List, [], ◌∷◌, arith, length, leb, ltb,
  min, if◌then◌else◌, All, err,
}
use nux_auth.Gateway.{rate_limited, AppResult}

pub record WindowLimiter : Type 0 where
  pub max_per_window : ℕ
  pub window_secs : ℕ
  pub window_start : ℕ
  pub count : ℕ

unfoldable pub new : ℕ → ℕ → ℕ → WindowLimiter
new max_per_window window_secs now = record {
  max_per_window = max_per_window;
  window_secs = window_secs;
  window_start = now;
  count = 0;
}

-- The window that a call falls into.
unfoldable pub roll : WindowLimiter → ℕ → WindowLimiter
roll l now =
    if leb l.window_secs (now - l.window_start)
    then record l { window_start = now; count = 0 }
    else l

abbrev pub counted : WindowLimiter → WindowLimiter × Bool
counted l = (record l { count = (l.count + 1) % 2 ^ 32 }, ltb l.count l.max_per_window)

unfoldable pub allow : WindowLimiter → ℕ → WindowLimiter × Bool
unfolding roll
allow l now = counted (roll l now)

-- The middleware in front of a route: the next handler runs only where the limiter admits.
unfoldable pub enforce :
    {Response : Type 0}
    → WindowLimiter
    → ℕ
    → AppResult Response
    → WindowLimiter × AppResult Response
unfolding allow
enforce l now next =
    let (l', admits) = allow l now in (l', if admits then next else err rate_limited)

-- How many of a sequence of calls are admitted.
unfoldable pub admitted : WindowLimiter → List ℕ → ℕ
unfolding allow
admitted l [] = 0
admitted l (now ∷ calls) =
    let rest = admitted (allow l now).0 calls in if (allow l now).1 then suc rest else rest

roll-inside : (l : WindowLimiter) (now : ℕ) → now - l.window_start < l.window_secs → roll l now ≡ l
unfolding roll
roll-inside l now h = ground arith

roll-due :
    (l : WindowLimiter) (now : ℕ)
    → l.window_secs ≤ now - l.window_start
    → roll l now ≡ record l { window_start = now; count = 0 }
unfolding roll
roll-due l now h = ground arith

minus_zero : (n : ℕ) → n - 0 ≡ n
minus_zero n = omega arith

step :
    (count max len rest : ℕ)
    → count + suc len ≤ 2 ^ 32
    → rest ≡ min len (max - (count + 1) % 2 ^ 32)
    → (if ltb count max then suc rest else rest) ≡ min (suc len) (max - count)
step count max len rest few h = ground (arith, few, h)

pub admitted-inside :
    (l : WindowLimiter) (calls : List ℕ)
    → All (λ now. now - l.window_start < l.window_secs) calls
    → l.count + length calls ≤ 2 ^ 32
    → admitted l calls ≡ min (length calls) (l.max_per_window - l.count)
unfolding admitted allow
admitted-inside l [] inside few = omega arith
admitted-inside l (now ∷ calls) inside few =
    let m = (counted l).0 in
    let next = admitted-inside m calls inside.1 (omega (arith, few)) in
    rw (roll-inside l now inside.0) (step l.count l.max_per_window (length calls) _ few next)

-- A call that opens a window, and the calls behind it that fall into that window: exactly the first
-- `max_per_window` of them are admitted, where there are at most 2^32 of them.
pub window_admits :
    (l : WindowLimiter) (now : ℕ) (calls : List ℕ)
    → l.window_secs ≤ now - l.window_start
    → All (λ t. t - now < l.window_secs) calls
    → suc (length calls) ≤ 2 ^ 32
    → admitted l (now ∷ calls) ≡ min (suc (length calls)) l.max_per_window
unfolding admitted allow roll
window_admits l now calls due inside few =
    let fresh : WindowLimiter = record l { window_start = now; count = 0 } in
    let next = admitted-inside (counted fresh).0 calls inside (omega (arith, few)) in
    rw (roll-due l now due) (
      step 0 l.max_per_window (length calls) _ (omega (arith, few)) next
      ∙ ap (min (suc (length calls))) (minus_zero l.max_per_window))

-- ===== src/RateLimit.antt =====
-- crates/nux-core/src/rate_limit.rs: the sliding-window limiter of inbound connections.
-- An `Instant` is a count of nanoseconds, and `duration_since` stops at 0 as `-` does.
pub mod Hits
pub mod Window
pub mod Queue
pub mod Table
pub mod Admission
pub mod Trace
pub mod Behaviour
mod Tests
use nux_auth.Prelude.{
  ℕ, ◌*◌, ◌^◌, ◌-◌, Bool, true, false, ◌&&◌, not, ◌||◌, List, [], ◌∷◌, ◌++◌, Option, none, some,
  length, ltb, leb, if◌then◌else◌, is_some, Eq,
}
use nux_auth.Prelude.Assoc.{lookup, insert}

abbrev pub default_max_per_window : ℕ
default_max_per_window = 30

abbrev pub default_window : ℕ
default_window = 60 * 10 ^ 9

abbrev pub max_tracked_ips : ℕ
max_tracked_ips = 100000

pub record RateLimiter (Ip : Type 0) : Type 0 where
  pub max_per_window : ℕ
  pub window : ℕ
  pub max_tracked : ℕ
  pub hits : List (Ip × List ℕ)
  pub exempt : List Ip
  pub last_sweep : ℕ

-- `started` is the clock's reading when the limiter is made.
pub new : {Ip : Type 0} → ℕ → ℕ → ℕ → RateLimiter Ip
new max_per_window window started = record {
  max_per_window = max_per_window;
  window = window;
  max_tracked = max_tracked_ips;
  hits = [];
  exempt = [];
  last_sweep = started;
}

-- The `while` loop that drops from the front of the queue.
pub prune : List ℕ → ℕ → ℕ → List ℕ
prune [] now window = []
prune (t ∷ ts) now window = if ltb window (now - t) then prune ts now window else t ∷ ts

abbrev pub is_empty {ℓ} : {A : Type ℓ} → List A → Bool
is_empty [] = true
is_empty (x ∷ xs) = false

-- The closure given to `retain`, over the whole table.
pub retain_recent : {Ip : Type 0} → List (Ip × List ℕ) → ℕ → ℕ → List (Ip × List ℕ)
retain_recent [] now window = []
retain_recent ((ip, h) ∷ m) now window =
    if is_empty (prune h now window)
    then retain_recent m now window
    else (ip, prune h now window) ∷ retain_recent m now window

pub sweep : {Ip : Type 0} → RateLimiter Ip → ℕ → RateLimiter Ip
sweep l now = record l { hits = retain_recent l.hits now l.window; last_sweep = now }

-- The periodic sweep, when a whole window has passed since the last one.
pub sweep_if_due : {Ip : Type 0} → RateLimiter Ip → ℕ → RateLimiter Ip
sweep_if_due l now = if leb l.window (now - l.last_sweep) then sweep l now else l

abbrev pub or_default {ℓ} : {A : Type ℓ} → Option (List A) → List A
or_default none = []
or_default (some h) = h

module _ {Ip : Type 0} (e : Eq Ip) where
  pub contains : List Ip → Ip → Bool
  contains [] ip = false
  contains (x ∷ xs) ip = e.beq x ip || contains xs ip

  pub exempt : RateLimiter Ip → Ip → RateLimiter Ip
  unfolding contains
  exempt l ip = record l { exempt = if contains l.exempt ip then l.exempt else ip ∷ l.exempt }

  -- The check of an unknown address against a full table; the test is true if there is room.
  pub make_room : RateLimiter Ip → Ip → ℕ → RateLimiter Ip × Bool
  make_room l ip now =
      if not (is_some (lookup e ip l.hits)) && leb l.max_tracked (length l.hits)
      then (sweep l now, not (leb l.max_tracked (length (sweep l now).hits)))
      else (l, true)

  -- The part of `allow_at` below the checks of the table.
  pub record_hit : RateLimiter Ip → Ip → ℕ → RateLimiter Ip × Bool
  record_hit l ip now =
      let hits = prune (or_default (lookup e ip l.hits)) now l.window in
      if leb l.max_per_window (length hits)
      then (record l { hits = insert e ip hits l.hits }, false)
      else (record l { hits = insert e ip (hits ++ now ∷ []) l.hits }, true)

  pub admit : RateLimiter Ip → Ip → ℕ → RateLimiter Ip × Bool
  admit l ip now =
      let (l', room) = make_room l ip now in if room then record_hit l' ip now else (l', false)

  pub allow_at : RateLimiter Ip → Ip → ℕ → RateLimiter Ip × Bool
  allow_at l ip now = if contains l.exempt ip then (l, true) else admit (sweep_if_due l now) ip now

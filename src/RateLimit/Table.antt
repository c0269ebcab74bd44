-- ===== src/RateLimit/Table.antt =====
-- The table of the limiter: what every call keeps true of it, its bound, and exactly when an
-- address is served.
use nux_auth.Prelude.{
  ℕ, ◌-◌, ◌≤◌, ◌<◌, ◌≡◌, ◌⊎◌, true, ◌&&◌, not, List, [], ◌∷◌, ◌++◌, arith, length, All, leb, Eq,
  Bool-cases, inl, inr, is_some,
}
use nux_auth.Prelude.Assoc.{lookup, insert, Distinct, insert-Distinct, length-insert}
use nux_auth.RateLimit.{
  RateLimiter, prune, retain_recent, sweep, or_default, sweep_if_due, make_room, record_hit,
  is_empty,
}
use nux_auth.RateLimit.Hits.{retain-Distinct}
use nux_auth.RateLimit.Queue.{QueueOk, prune-QueueOk, snoc-QueueOk, later-QueueOk}

abbrev pub Queues : {Ip : Type 0} → ℕ → ℕ → List (Ip × List ℕ) → Type 0
Queues max t = All (λ x. QueueOk max t x.1)

pub Queues-later :
    {Ip : Type 0} (max t now : ℕ) (m : List (Ip × List ℕ))
    → t ≤ now
    → Queues max t m
    → Queues max now m
Queues-later max t now [] le q = tt
Queues-later max t now ((i, h) ∷ m) le q =
    (later-QueueOk max t now h le q.0, Queues-later max t now m le q.1)

retain-Queues :
    {Ip : Type 0} (max t : ℕ) (m : List (Ip × List ℕ)) (now w : ℕ)
    → Queues max t m
    → Queues max t (retain_recent m now w)
unfolding retain_recent
retain-Queues max t [] now w q = tt
retain-Queues max t ((i, h) ∷ m) now w q =
    let rest = retain-Queues max t m now w q.1 in
    elim (Bool-cases (is_empty (prune h now w))) [
      | inl old ↦ rw old rest
      | inr kept ↦ rw kept (prune-QueueOk max t h now w q.0, rest)
    ]

pub length-retain-le :
    {Ip : Type 0} (m : List (Ip × List ℕ)) (now w : ℕ) → length (retain_recent m now w) ≤ length m
unfolding retain_recent
length-retain-le [] now w = omega arith
length-retain-le ((i, h) ∷ m) now w = ground (arith, length-retain-le m now w)

module _ {Ip : Type 0} (e : Eq Ip) where
  -- What holds of the limiter at the instant `t`.
  pub record IsValid (t : ℕ) (l : RateLimiter Ip) : Type 0 where
    pub distinct : Distinct e l.hits
    pub queues : Queues l.max_per_window t l.hits
    pub bounded : length l.hits ≤ l.max_tracked

  pub Queues-lookup :
      (max t : ℕ) (a : Ip) (m : List (Ip × List ℕ))
      → Queues max t m
      → QueueOk max t (or_default (lookup e a m))
  unfolding lookup
  Queues-lookup max t a [] q = (tt, tt, omega arith)
  Queues-lookup max t a ((i, h) ∷ m) q = elim (Bool-cases (e.beq i a)) [
    | inl here ↦ rw here q.0
    | inr there ↦ rw there (Queues-lookup max t a m q.1)
  ]

  insert-Queues :
      (max t : ℕ) (a : Ip) (h : List ℕ) (m : List (Ip × List ℕ))
      → QueueOk max t h
      → Queues max t m
      → Queues max t (insert e a h m)
  unfolding insert
  insert-Queues max t a h [] ok q = (ok, tt)
  insert-Queues max t a h ((i, g) ∷ m) ok q = elim (Bool-cases (e.beq i a)) [
    | inl here ↦ rw here (ok, q.1)
    | inr there ↦ rw there (q.0, insert-Queues max t a h m ok q.1)
  ]

  sweep-IsValid : (t : ℕ) (l : RateLimiter Ip) (now : ℕ) → IsValid t l → IsValid t (sweep l now)
  unfolding sweep
  sweep-IsValid t l now v = record {
    distinct = retain-Distinct e l.hits now l.window v.distinct;
    queues = retain-Queues l.max_per_window t l.hits now l.window v.queues;
    bounded = omega (arith, length-retain-le l.hits now l.window, v.bounded);
  }

  pub sweep_if_due-IsValid :
      (t : ℕ) (l : RateLimiter Ip) (now : ℕ) → IsValid t l → IsValid t (sweep_if_due l now)
  unfolding sweep_if_due
  sweep_if_due-IsValid t l now v = elim (Bool-cases (leb l.window (now - l.last_sweep))) [
    | inl due ↦ rw due (sweep-IsValid t l now v)
    | inr early ↦ rw early v
  ]

  -- An address may be entered: it has an entry, or there is room for one more.
  abbrev pub HasRoom : RateLimiter Ip → Ip → Type 0
  HasRoom l ip = (is_some (lookup e ip l.hits) ≡ true) ⊎ (length l.hits < l.max_tracked)

  pub make_room-IsValid :
      (t : ℕ) (l : RateLimiter Ip) (ip : Ip) (now : ℕ)
      → IsValid t l
      → IsValid t (make_room e l ip now).0
  unfolding make_room
  make_room-IsValid t l ip now v =
      elim (Bool-cases (not (is_some (lookup e ip l.hits)) && leb l.max_tracked (length l.hits))) [
        | inl full ↦ rw full (sweep-IsValid t l now v)
        | inr free ↦ rw free v
      ]

  pub make_room-HasRoom :
      (l : RateLimiter Ip) (ip : Ip) (now : ℕ)
      → (make_room e l ip now).1 ≡ true
      → HasRoom (make_room e l ip now).0 ip
  unfolding make_room sweep
  make_room-HasRoom l ip now h = ground arith

  pub record_hit-IsValid :
      (t : ℕ) (l : RateLimiter Ip) (ip : Ip) (now : ℕ)
      → t ≤ now
      → HasRoom l ip
      → IsValid t l
      → IsValid now (record_hit e l ip now).0
  unfolding record_hit
  record_hit-IsValid t l ip now le room v =
      let h : List ℕ = prune (or_default (lookup e ip l.hits)) now l.window in
      let ok : QueueOk l.max_per_window t h =
        prune-QueueOk l.max_per_window t _ now l.window
          (Queues-lookup l.max_per_window t ip l.hits v.queues) in
      let old : Queues l.max_per_window now l.hits =
        Queues-later l.max_per_window t now l.hits le v.queues in
      elim (Bool-cases (leb l.max_per_window (length h))) [
        | inl full ↦ rw full (record {
          distinct = insert-Distinct e ip h l.hits v.distinct;
          queues =
              insert-Queues l.max_per_window now ip h l.hits (later-QueueOk _ t now h le ok) old;
          bounded = ground (arith, length-insert e ip h l.hits, v.bounded);
        })
        | inr free ↦ rw free (record {
          distinct = insert-Distinct e ip (h ++ now ∷ []) l.hits v.distinct;
          queues =
              insert-Queues l.max_per_window now ip (h ++ now ∷ []) l.hits
                (snoc-QueueOk _ t now h le ok (ground arith)) old;
          bounded = ground (arith, length-insert e ip (h ++ now ∷ []) l.hits, v.bounded);
        })
      ]

-- ===== src/RateLimit/Admission.antt =====
-- A whole call of `allow_at`: the invariant of the table, and exactly when it serves.
use nux_auth.Prelude.{
  ℕ, ◌≤◌, ◌<◌, ◌≡◌, ◌↔◌, refl, true, false, List, [], ◌∷◌, arith, length, ltb, Eq, Bool-cases, inl,
  inr,
}
use nux_auth.RateLimit.{
  RateLimiter, prune, sweep, sweep_if_due, make_room, record_hit, admit, allow_at, contains,
}
use nux_auth.RateLimit.Hits.{hits_of, lookup-retain}
use nux_auth.RateLimit.Queue.{recent, length-prune}
use nux_auth.RateLimit.Table.{
  IsValid, Queues-lookup, Queues-later, sweep_if_due-IsValid, make_room-IsValid, make_room-HasRoom,
  record_hit-IsValid, length-retain-le,
}

recent-prune : (h : List ℕ) (now w : ℕ) → recent now w (prune h now w) ≡ recent now w h
unfolding prune
recent-prune [] now w = refl
recent-prune (t ∷ ts) now w = ground (arith, recent-prune ts now w)

module _ {Ip : Type 0} (e : Eq Ip) where
  IsValid-later : (t now : ℕ) (l : RateLimiter Ip) → t ≤ now → IsValid e t l → IsValid e now l
  IsValid-later t now l le v = record {
    distinct = v.distinct;
    queues = Queues-later l.max_per_window t now l.hits le v.queues;
    bounded = v.bounded;
  }

  admit-IsValid :
      (t : ℕ) (l : RateLimiter Ip) (ip : Ip) (now : ℕ)
      → t ≤ now
      → IsValid e t l
      → IsValid e now (admit e l ip now).0
  unfolding admit
  admit-IsValid t l ip now le v =
      let v' = make_room-IsValid e t l ip now v in
      elim (Bool-cases (make_room e l ip now).1) [
        | inl room ↦
            rw room (record_hit-IsValid e t _ ip now le (make_room-HasRoom e l ip now room) v')
        | inr full ↦ rw full (IsValid-later t now _ le v')
      ]

  -- Every call, served or refused, keeps the table well formed: one entry for an address, each
  -- queue in order, none of its instants after the call, none longer than `max_per_window`, and
  -- no more than `max_tracked` entries.
  pub allow_at-IsValid :
      (t : ℕ) (l : RateLimiter Ip) (ip : Ip) (now : ℕ)
      → t ≤ now
      → IsValid e t l
      → IsValid e now (allow_at e l ip now).0
  unfolding allow_at
  allow_at-IsValid t l ip now le v = elim (Bool-cases (contains e l.exempt ip)) [
    | inl free ↦ rw free (IsValid-later t now l le v)
    | inr limited ↦ rw limited (admit-IsValid t _ ip now le (sweep_if_due-IsValid e t l now v))
  ]

  sweep_if_due-recent :
      (t : ℕ) (l : RateLimiter Ip) (ip : Ip) (now : ℕ)
      → IsValid e t l
      → recent now l.window (hits_of e ip (sweep_if_due l now))
        ≡ recent now l.window (hits_of e ip l)
  unfolding sweep_if_due sweep
  sweep_if_due-recent t l ip now v = ground (
    arith,
    lookup-retain e ip l.hits now l.window v.distinct,
    recent-prune (hits_of e ip l) now l.window,
  )

  sweep_if_due-limits :
      (l : RateLimiter Ip) (now : ℕ)
      → ((sweep_if_due l now).window ≡ l.window)
        × ((sweep_if_due l now).max_per_window ≡ l.max_per_window)
        × ((sweep_if_due l now).max_tracked ≡ l.max_tracked)
        × (length (sweep_if_due l now).hits ≤ length l.hits)
  unfolding sweep_if_due sweep
  sweep_if_due-limits l now = ground (arith, length-retain-le l.hits now l.window)

  record_hit-serves :
      (t : ℕ) (l : RateLimiter Ip) (ip : Ip) (now : ℕ)
      → IsValid e t l
      → (record_hit e l ip now).1 ≡ ltb (recent now l.window (hits_of e ip l)) l.max_per_window
  unfolding record_hit
  record_hit-serves t l ip now v =
      let q = Queues-lookup e l.max_per_window t ip l.hits v.queues in
      ground (arith, length-prune (hits_of e ip l) now l.window q.0)

  admit-serves :
      (t : ℕ) (l : RateLimiter Ip) (ip : Ip) (now : ℕ)
      → IsValid e t l
      → length l.hits < l.max_tracked
      → (admit e l ip now).1 ≡ ltb (recent now l.window (hits_of e ip l)) l.max_per_window
  unfolding admit make_room
  admit-serves t l ip now v room = ground (arith, record_hit-serves t l ip now v)

  -- Where the table is not full, an address that is not exempt is served exactly if fewer than
  -- `max_per_window` of its recorded instants lie in the window that ends at the call.
  pub allow_at_iff :
      (t : ℕ) (l : RateLimiter Ip) (ip : Ip) (now : ℕ)
      → IsValid e t l
      → contains e l.exempt ip ≡ false
      → length l.hits < l.max_tracked
      → ((allow_at e l ip now).1 ≡ true) ↔ (recent now l.window (hits_of e ip l) < l.max_per_window)
  unfolding allow_at
  allow_at_iff t l ip now v limited room =
      let same = sweep_if_due-limits l now in
      ground (
        arith,
        same,
        sweep_if_due-recent t l ip now v,
        admit-serves t (sweep_if_due l now) ip now (sweep_if_due-IsValid e t l now v),
      )

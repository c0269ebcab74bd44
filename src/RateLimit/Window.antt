-- ===== src/RateLimit/Window.antt =====
-- The promise of the limiter: over any sliding window an address is served at most
-- `max_per_window` times, whatever the other addresses do.
use nux_auth.Prelude.{
  ℕ, ◌+◌, ◌-◌, ◌≤◌, ◌≡◌, refl, ap, suc, ◌∙◌, Bool, true, false, ◌&&◌, not, is_some, List, [], ◌∷◌,
  ◌++◌, arith, length, count-append, count-le, leb, if◌then◌else◌, Eq, Bool-cases, inl, inr,
}
use nux_auth.Prelude.Assoc.{lookup, insert, Distinct, lookup-insert, insert-Distinct}
use nux_auth.RateLimit.{
  RateLimiter, prune, sweep, or_default, sweep_if_due, make_room, record_hit, admit, allow_at,
  contains,
}
use nux_auth.RateLimit.Hits.{since, since-prune, hits_of, retain-Distinct, lookup-retain}

-- The limits that no call changes.
pub record SameLimits {Ip : Type 0} (l l' : RateLimiter Ip) : Type 0 where
  pub max_same : l'.max_per_window ≡ l.max_per_window
  pub window_same : l'.window ≡ l.window
  pub tracked_same : l'.max_tracked ≡ l.max_tracked
  pub exempt_same : l'.exempt ≡ l.exempt

module _ {Ip : Type 0} (e : Eq Ip) where
  -- A part of a call at the instant `now` that serves nobody: what is still inside a window that
  -- holds `now` stays recorded.
  pub record Forgets (now : ℕ) (l l' : RateLimiter Ip) : Type 0 where
    pub limits : SameLimits l l'
    pub distinct : Distinct e l.hits → Distinct e l'.hits
    pub recent :
        Distinct e l.hits
        → (a : Ip) (s : ℕ) → now ≤ s + l.window
        → since s (hits_of e a l') ≡ since s (hits_of e a l)

  Forgets-refl : (now : ℕ) (l : RateLimiter Ip) → Forgets now l l
  Forgets-refl now l = record {
    limits = record {
      max_same = refl;
      window_same = refl;
      tracked_same = refl;
      exempt_same = refl;
    };
    distinct = λ d. d;
    recent = λ d a s h. refl;
  }

  Forgets-trans :
      (now : ℕ) {l m n : RateLimiter Ip} → Forgets now l m → Forgets now m n → Forgets now l n
  Forgets-trans now {l} {m} {n} p q = record {
    limits = ground (arith, p.limits, q.limits);
    distinct = λ d. q.distinct (p.distinct d);
    recent = λ d a s h. q.recent (p.distinct d) a s (rw p.limits.window_same h) ∙ p.recent d a s h;
  }

  sweep-Forgets : (l : RateLimiter Ip) (now : ℕ) → Forgets now l (sweep l now)
  unfolding sweep
  sweep-Forgets l now = record {
    limits = record {
      max_same = refl;
      window_same = refl;
      tracked_same = refl;
      exempt_same = refl;
    };
    distinct = retain-Distinct e l.hits now l.window;
    recent = λ d a s h.
        ap (since s) (lookup-retain e a l.hits now l.window d)
        ∙ since-prune s (hits_of e a l) now l.window h;
  }

  sweep_if_due-Forgets : (l : RateLimiter Ip) (now : ℕ) → Forgets now l (sweep_if_due l now)
  unfolding sweep_if_due
  sweep_if_due-Forgets l now = elim (Bool-cases (leb l.window (now - l.last_sweep))) [
    | inl due ↦ rw due (sweep-Forgets l now)
    | inr early ↦ rw early (Forgets-refl now l)
  ]

  make_room-Forgets :
      (l : RateLimiter Ip) (ip : Ip) (now : ℕ) → Forgets now l (make_room e l ip now).0
  unfolding make_room
  make_room-Forgets l ip now =
      elim (Bool-cases (not (is_some (lookup e ip l.hits)) && leb l.max_tracked (length l.hits))) [
        | inl full ↦ rw full (sweep-Forgets l now)
        | inr free ↦ rw free (Forgets-refl now l)
      ]

  -- A whole call: one more instant for the address exactly if it is served, and then no more of
  -- them in the window than the limit.
  pub record Answers (ip : Ip) (now : ℕ) (l : RateLimiter Ip) (r : RateLimiter Ip × Bool)
      : Type 0 where
    pub limits : SameLimits l r.0
    pub distinct : Distinct e l.hits → Distinct e r.0.hits
    pub recent :
        Distinct e l.hits
        → (a : Ip) (s : ℕ) → now ≤ s + l.window
        → since s (hits_of e a r.0) ≡ (
            if r.1 && e.beq ip a && leb s now
            then suc (since s (hits_of e a l))
            else since s (hits_of e a l))
    pub bounded :
        Distinct e l.hits
        → r.1 ≡ true
        → (s : ℕ) → now ≤ s + l.window
        → since s (hits_of e ip r.0) ≤ l.max_per_window

  Forgets-Answers :
      (ip : Ip) (now : ℕ) {l m : RateLimiter Ip} {r : RateLimiter Ip × Bool}
      → Forgets now l m
      → Answers ip now m r
      → Answers ip now l r
  Forgets-Answers ip now {l} {m} {r} f a = record {
    limits = ground (arith, f.limits, a.limits);
    distinct = λ d. a.distinct (f.distinct d);
    recent = λ d b s h.
        rw (← f.recent d b s h) (a.recent (f.distinct d) b s (rw f.limits.window_same h));
    bounded = λ d t s h.
        rw (← f.limits.max_same) (a.bounded (f.distinct d) t s (rw f.limits.window_same h));
  }

  refused-Answers :
      (ip : Ip) (now : ℕ) {l m : RateLimiter Ip} → Forgets now l m → Answers ip now l (m, false)
  refused-Answers ip now f = record {
    limits = f.limits;
    distinct = f.distinct;
    recent = f.recent;
    bounded = λ d t s h. cc;
  }

  -- The recorded instants after the entry of one address is written.
  hits_of-insert :
      (ip a : Ip) (h : List ℕ) (m : List (Ip × List ℕ))
      → or_default (lookup e a (insert e ip h m))
        ≡ (if e.beq ip a then h else or_default (lookup e a m))
  hits_of-insert ip a h m = rw (lookup-insert e ip a h m) (ground arith)

  record_hit-recent :
      (l : RateLimiter Ip) (ip a : Ip) (now s : ℕ)
      → now ≤ s + l.window
      → since s (hits_of e a (record_hit e l ip now).0) ≡ (
          if (record_hit e l ip now).1 && e.beq ip a && leb s now
          then suc (since s (hits_of e a l))
          else since s (hits_of e a l))
  unfolding record_hit
  record_hit-recent l ip a now s h =
      let old = or_default (lookup e ip l.hits) in
      let hits = prune old now l.window in
      ground (
        arith,
        e.beq_iff ip a,
        hits_of-insert ip a hits l.hits,
        hits_of-insert ip a (hits ++ now ∷ []) l.hits,
        since-prune s old now l.window h,
        count-append (λ t. leb s t) hits (now ∷ []),
      )

  record_hit-bounded :
      (l : RateLimiter Ip) (ip : Ip) (now s : ℕ)
      → (record_hit e l ip now).1 ≡ true
      → since s (hits_of e ip (record_hit e l ip now).0) ≤ l.max_per_window
  unfolding record_hit
  record_hit-bounded l ip now s t =
      let hits = prune (or_default (lookup e ip l.hits)) now l.window in
      ground (
        arith,
        e.beq_iff ip ip,
        hits_of-insert ip ip (hits ++ now ∷ []) l.hits,
        count-append (λ t. leb s t) hits (now ∷ []),
        count-le (λ t. leb s t) hits,
      )

  record_hit-Answers :
      (l : RateLimiter Ip) (ip : Ip) (now : ℕ) → Answers ip now l (record_hit e l ip now)
  unfolding record_hit
  record_hit-Answers l ip now = record {
    limits = ground arith;
    distinct = λ d.
        let hits = prune (or_default (lookup e ip l.hits)) now l.window in
        ground (
          arith,
          insert-Distinct e ip hits l.hits d,
          insert-Distinct e ip (hits ++ now ∷ []) l.hits d,
        );
    recent = λ d a s h. record_hit-recent l ip a now s h;
    bounded = λ d t s h. record_hit-bounded l ip now s t;
  }

  admit-Answers : (l : RateLimiter Ip) (ip : Ip) (now : ℕ) → Answers ip now l (admit e l ip now)
  unfolding admit
  admit-Answers l ip now = elim (Bool-cases (make_room e l ip now).1) [
    | inl room ↦
        rw room (Forgets-Answers ip now (make_room-Forgets l ip now) (record_hit-Answers _ ip now))
    | inr full ↦ rw full (refused-Answers ip now (make_room-Forgets l ip now))
  ]

  -- What one call of `allow_at` does, for an address that is not exempt.
  pub allow_at-Answers :
      (l : RateLimiter Ip) (ip : Ip) (now : ℕ)
      → contains e l.exempt ip ≡ false
      → Answers ip now l (allow_at e l ip now)
  unfolding allow_at
  allow_at-Answers l ip now h =
      rw h (Forgets-Answers ip now (sweep_if_due-Forgets l now) (admit-Answers _ ip now))

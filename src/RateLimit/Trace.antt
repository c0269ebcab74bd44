-- ===== src/RateLimit/Trace.antt =====
-- A run of the limiter over a sequence of inbound connections, and what it promises of any
-- sliding window.
use nux_auth.Prelude.{
  ◌⊎◌, ℕ, ◌+◌, ◌≤◌, ◌≡◌, refl, suc, ◌∙◌, Bool, true, false, ◌&&◌, List, [], ◌∷◌, arith, count, leb,
  if◌then◌else◌, Eq, Bool-cases, inl, inr,
}
use nux_auth.Prelude.Assoc.{lookup, Distinct}
use nux_auth.RateLimit.{RateLimiter, allow_at, contains}
use nux_auth.RateLimit.Hits.{since, hits_of}
use nux_auth.RateLimit.Window.{Answers, allow_at-Answers}

abbrev pub in_window : ℕ → ℕ → ℕ → Bool
in_window s w t = leb s t && leb t (s + w)

-- The clock does not go back.
abbrev pub Ordered : {Ip : Type 0} → ℕ → List (Ip × ℕ) → Type 0
Ordered t [] = Unit {0}
Ordered t ((ip, now) ∷ calls) = (t ≤ now) × Ordered now calls

count-window-le-since : (s w : ℕ) (ts : List ℕ) → count (in_window s w) ts ≤ since s ts
count-window-le-since s w [] = omega arith
count-window-le-since s w (t ∷ ts) = ground (arith, count-window-le-since s w ts)

module _ {Ip : Type 0} (e : Eq Ip) where
  -- The instants at which a sequence of connections is served for one address, and the limiter
  -- that is left.
  unfoldable pub served : Ip → RateLimiter Ip → List (Ip × ℕ) → List ℕ
  served a l [] = []
  served a l ((ip, now) ∷ calls) =
      let rest = served a (allow_at e l ip now).0 calls in
      if (allow_at e l ip now).1 && e.beq ip a then now ∷ rest else rest

  -- The bookkeeping between the limiter and the instants served so far.
  pub record Tracks (a : Ip) (max w t : ℕ) (done : List ℕ) (l : RateLimiter Ip) : Type 0 where
    pub max_is : l.max_per_window ≡ max
    pub window_is : l.window ≡ w
    pub counted : contains e l.exempt a ≡ false
    pub distinct : Distinct e l.hits
    pub bounded : (s : ℕ) → count (in_window s w) done ≤ max
    pub covered : (s : ℕ) → t ≤ s + w → since s done ≤ since s (hits_of e a l)

  pub allow_at-exempt :
      (l : RateLimiter Ip) (ip : Ip) (now : ℕ)
      → contains e l.exempt ip ≡ true
      → allow_at e l ip now ≡ (l, true)
  unfolding allow_at
  allow_at-exempt l ip now h = rw h

  exempt_ne :
      (l : RateLimiter Ip) (ip a : Ip)
      → contains e l.exempt ip ≡ true
      → contains e l.exempt a ≡ false
      → e.beq ip a ≡ false
  exempt_ne l ip a h k = ground (arith, e.beq_iff ip a)

  module _ (a : Ip) (max w : ℕ) where
    Tracks-later :
        {t now : ℕ} {done : List ℕ} {l : RateLimiter Ip}
        → t ≤ now
        → Tracks a max w t done l
        → Tracks a max w now done l
    Tracks-later {t} {now} le k = record {
      max_is = k.max_is;
      window_is = k.window_is;
      counted = k.counted;
      distinct = k.distinct;
      bounded = k.bounded;
      covered = λ s h. k.covered s (omega arith);
    }

    -- A call that does not serve the address.
    Tracks-other :
        {t : ℕ} {done : List ℕ} {l : RateLimiter Ip} {r : RateLimiter Ip × Bool} (ip : Ip) (now : ℕ)
        → t ≤ now
        → Answers e ip now l r
        → (r.1 && e.beq ip a) ≡ false
        → Tracks a max w t done l
        → Tracks a max w now done r.0
    Tracks-other {t} {done} {l} {r} ip now le ans off k = record {
      max_is = ans.limits.max_same ∙ k.max_is;
      window_is = ans.limits.window_same ∙ k.window_is;
      counted = rw ans.limits.exempt_same k.counted;
      distinct = ans.distinct k.distinct;
      bounded = k.bounded;
      covered = λ s h.
          ground (arith, ans.recent k.distinct a s (rw k.window_is h), k.covered s (omega arith));
    }

    -- A call that serves it.
    served-bounded :
        {t : ℕ} {done : List ℕ} {l : RateLimiter Ip} {r : RateLimiter Ip × Bool} (ip : Ip)
        (now s : ℕ)
        → t ≤ now
        → now ≤ s + w
        → Answers e ip now l r
        → (r.1 && e.beq ip a) ≡ true
        → Tracks a max w t done l
        → suc (count (in_window s w) done) ≤ max ⊎ (s ≤ now → ⊥)
    served-bounded {t} {done} {l} {r} ip now s le inside ans hit k =
        let near : now ≤ s + l.window = rw k.window_is inside in
        let ok : r.1 ≡ true = ground arith in
        grind (
          arith,
          e.beq_iff ip a,
          ans.recent k.distinct a s near,
          ans.bounded k.distinct ok s near,
          k.covered s (omega arith),
          k.max_is,
          count-window-le-since s w done,
        )

    Tracks-served :
        {t : ℕ} {done : List ℕ} {l : RateLimiter Ip} {r : RateLimiter Ip × Bool} (ip : Ip) (now : ℕ)
        → t ≤ now
        → Answers e ip now l r
        → (r.1 && e.beq ip a) ≡ true
        → Tracks a max w t done l
        → Tracks a max w now (now ∷ done) r.0
    Tracks-served {t} {done} {l} {r} ip now le ans hit k = record {
      max_is = ans.limits.max_same ∙ k.max_is;
      window_is = ans.limits.window_same ∙ k.window_is;
      counted = rw ans.limits.exempt_same k.counted;
      distinct = ans.distinct k.distinct;
      bounded = λ s. grind (
        arith,
        k.bounded s,
        λ (inside : now ≤ s + w). served-bounded ip now s le inside ans hit k,
      );
      covered = λ s h.
          ground (arith, ans.recent k.distinct a s (rw k.window_is h), k.covered s (omega arith));
    }

    Tracks-step :
        {t : ℕ} {done : List ℕ} {l : RateLimiter Ip} (ip : Ip) (now : ℕ)
        → t ≤ now
        → Tracks a max w t done l
        → Tracks a max w now
            (if (allow_at e l ip now).1 && e.beq ip a then now ∷ done else done)
            (allow_at e l ip now).0
    Tracks-step {t} {done} {l} ip now le k = elim (Bool-cases (contains e l.exempt ip)) [
      | inl free ↦
          rw (allow_at-exempt l ip now free, exempt_ne l ip a free k.counted) (Tracks-later le k)
      | inr limited ↦
          let ans = allow_at-Answers e l ip now limited in
          elim (Bool-cases ((allow_at e l ip now).1 && e.beq ip a)) [
            | inl hit ↦ rw hit (Tracks-served ip now le ans hit k)
            | inr off ↦ rw off (Tracks-other ip now le ans off k)
          ]
    ]

    served-Tracks :
        (calls : List (Ip × ℕ)) (s : ℕ) {t : ℕ} {done : List ℕ} {l : RateLimiter Ip}
        → Ordered t calls
        → Tracks a max w t done l
        → count (in_window s w) done + count (in_window s w) (served a l calls) ≤ max
    unfolding served
    served-Tracks [] s o k = grind (arith, k.bounded s)
    served-Tracks ((ip, now) ∷ calls) s o k =
        let next = served-Tracks calls s o.1 (Tracks-step ip now o.0 k) in ground (arith, next)

  -- From a limiter that has served nobody, whatever sequence of connections comes at the instants
  -- of a clock that does not go back, an address that is not exempt is served at most
  -- `max_per_window` times in every window `[s, s + window]`.
  pub served_within_limit :
      (a : Ip) (l : RateLimiter Ip) (t : ℕ) (calls : List (Ip × ℕ)) (s : ℕ)
      → l.hits ≡ []
      → contains e l.exempt a ≡ false
      → Ordered t calls
      → count (in_window s l.window) (served a l calls) ≤ l.max_per_window
  unfolding lookup
  served_within_limit a l t calls s empty limited o = omega (
    arith,
    served-Tracks a l.max_per_window l.window calls s {done = []} {l = l} o (record {
      max_is = refl;
      window_is = refl;
      counted = limited;
      distinct = rw empty tt;
      bounded = λ s'. omega arith;
      covered = λ s' h. omega arith;
    }),
  )

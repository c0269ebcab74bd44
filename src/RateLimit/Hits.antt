-- ===== src/RateLimit/Hits.antt =====
-- What each part of `allow_at` does to the recorded instants of one address.
use nux_auth.Prelude.{ℕ, ◌+◌, ◌≤◌, ◌≡◌, refl, List, [], ◌∷◌, none, arith, count, leb, Eq}
use nux_auth.Prelude.Assoc.{lookup, Distinct}
use nux_auth.RateLimit.{RateLimiter, prune, retain_recent, or_default}

-- How many instants are not older than `s`.
abbrev pub since : ℕ → List ℕ → ℕ
since s = count (λ t. leb s t)

pub since-prune :
    (s : ℕ) (h : List ℕ) (now w : ℕ) → now ≤ s + w → since s (prune h now w) ≡ since s h
unfolding prune
since-prune s [] now w le = refl
since-prune s (t ∷ ts) now w le = ground (arith, since-prune s ts now w le)

module _ {Ip : Type 0} (e : Eq Ip) where
  -- The instants recorded for an address, none where it has no entry.
  abbrev pub hits_of : Ip → RateLimiter Ip → List ℕ
  hits_of a l = or_default (lookup e a l.hits)

  pub lookup-retain_none :
      (a : Ip) (m : List (Ip × List ℕ)) (now w : ℕ)
      → lookup e a m ≡ none
      → lookup e a (retain_recent m now w) ≡ none
  unfolding lookup retain_recent
  lookup-retain_none a [] now w h = refl
  lookup-retain_none a ((i, t) ∷ m) now w h = ground (arith, lookup-retain_none a m now w)

  pub retain-Distinct :
      (m : List (Ip × List ℕ)) (now w : ℕ) → Distinct e m → Distinct e (retain_recent m now w)
  unfolding retain_recent
  retain-Distinct [] now w d = tt
  retain-Distinct ((i, t) ∷ m) now w d =
      ground (arith, retain-Distinct m now w d.1, lookup-retain_none i m now w)

  pub lookup-retain :
      (a : Ip) (m : List (Ip × List ℕ)) (now w : ℕ)
      → Distinct e m
      → or_default (lookup e a (retain_recent m now w)) ≡ prune (or_default (lookup e a m)) now w
  unfolding lookup retain_recent prune
  lookup-retain a [] now w d = refl
  lookup-retain a ((i, t) ∷ m) now w d =
      ground (arith, e.beq_iff i a, lookup-retain a m now w d.1, lookup-retain_none i m now w d.0)

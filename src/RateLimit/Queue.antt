-- ===== src/RateLimit/Queue.antt =====
-- The queue of instants of one address: kept in order, and pruned from the front.
use nux_auth.Prelude.{
  ℕ, ◌+◌, ◌-◌, ◌≤◌, ◌<◌, ◌≡◌, refl, List, [], ◌∷◌, ◌++◌, arith, length, length-append, count, All,
  leb, ltb, Bool-cases, inl, inr,
}
use nux_auth.RateLimit.{prune}

-- Oldest first.
abbrev pub Ascending : List ℕ → Type 0
Ascending [] = Unit {0}
Ascending (t ∷ ts) = All (λ u. t ≤ u) ts × Ascending ts

-- The instants that a window ending at `now` still holds.
abbrev pub recent : ℕ → ℕ → List ℕ → ℕ
recent now w = count (λ t. leb now (t + w))

-- The queue of one address at the instant `t`: in order, none in the future, within the limit.
abbrev pub QueueOk : ℕ → ℕ → List ℕ → Type 0
QueueOk max t h = Ascending h × All (λ u. u ≤ t) h × (length h ≤ max)

All-le_trans : (t u : ℕ) (h : List ℕ) → t ≤ u → All (λ v. v ≤ t) h → All (λ v. v ≤ u) h
All-le_trans t u [] le a = tt
All-le_trans t u (v ∷ h) le a = (omega arith, All-le_trans t u h le a.1)

recent-All :
    (t now w : ℕ) (h : List ℕ) → now ≤ t + w → All (λ u. t ≤ u) h → recent now w h ≡ length h
recent-All t now w [] le a = refl
recent-All t now w (u ∷ h) le a = ground (arith, recent-All t now w h le a.1)

-- Pruning from the front removes everything old, since the queue is in order.
pub length-prune : (h : List ℕ) (now w : ℕ) → Ascending h → length (prune h now w) ≡ recent now w h
unfolding prune
length-prune [] now w a = refl
length-prune (t ∷ ts) now w a =
    ground (arith, length-prune ts now w a.1, λ (le : now ≤ t + w). recent-All t now w ts le a.0)

pub prune-QueueOk :
    (max t : ℕ) (h : List ℕ) (now w : ℕ) → QueueOk max t h → QueueOk max t (prune h now w)
unfolding prune
prune-QueueOk max t [] now w q = q
prune-QueueOk max t (u ∷ h) now w q =
    let rest : QueueOk max t (prune h now w) =
      prune-QueueOk max t h now w (q.0.1, q.1.1, omega arith) in
    elim (Bool-cases (ltb w (now - u))) [ inl old ↦ rw old rest | inr fresh ↦ rw fresh q ]

All-snoc {ℓ κ} :
    {A : Type ℓ} (P : A → Type κ) (xs : List A) (x : A) → All P xs → P x → All P (xs ++ x ∷ [])
All-snoc P [] x a p = (p, tt)
All-snoc P (y ∷ xs) x a p = (a.0, All-snoc P xs x a.1 p)

Ascending-snoc :
    (h : List ℕ) (now : ℕ) → Ascending h → All (λ u. u ≤ now) h → Ascending (h ++ now ∷ [])
Ascending-snoc [] now a le = (tt, tt)
Ascending-snoc (t ∷ h) now a le =
    (All-snoc (λ u. t ≤ u) h now a.0 le.0, Ascending-snoc h now a.1 le.1)

pub snoc-QueueOk :
    (max t now : ℕ) (h : List ℕ)
    → t ≤ now
    → QueueOk max t h
    → length h < max
    → QueueOk max now (h ++ now ∷ [])
snoc-QueueOk max t now h le q room =
    let below = All-le_trans t now h le q.1 in
    (
      Ascending-snoc h now q.0 below,
      All-snoc (λ u. u ≤ now) h now below (omega arith),
      omega (arith, length-append h (now ∷ [])),
    )

pub later-QueueOk : (max t now : ℕ) (h : List ℕ) → t ≤ now → QueueOk max t h → QueueOk max now h
later-QueueOk max t now h le q = (q.0, All-le_trans t now h le q.1, q.2)

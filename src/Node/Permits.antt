-- ===== src/Node/Permits.antt =====
-- The permits of the loop are conserved by every turn, so the streams in flight stay within the
-- caps of the registry.
use nux_auth.Prelude.{
  ℕ, zero, suc, ◌+◌, ◌≤◌, ◌≡◌, refl, ap, Bool, true, false, List, [], ◌∷◌, none, some, arith, ◌==◌,
  ==_iff, length, count, get_elem?, if◌then◌else◌, Option-cases, Bool-cases, inl, inr, is_some,
  ◌||◌, not,
}
use nux_auth.Auth
use nux_auth.Metrics.{TunnelOutcome}
use nux_auth.Net.{Net}
use nux_auth.Node.{NuxNode, Chance, Effect}
use nux_auth.Node.Loop.{
  Task, GuardLoop, Caps, Wake, swarm, stream, command, tick, finished, start, remove_at, spawn,
  finish, accept_stream, turn,
}
use nux_auth.Node.Pool.{
  SamePool, deny_tunnel-SamePool, drain_check-SamePool, semaphore_of-SamePool, obey-SamePool,
  on_swarm-SamePool,
}

pub get_elem?-count {ℓ} :
    {A : Type ℓ} (p : A → Bool) (xs : List A) (i : ℕ) (t : A)
    → get_elem? xs i ≡ some t
    → count p xs ≡ (if p t then suc (count p (remove_at i xs)) else count p (remove_at i xs))
unfolding remove_at
get_elem?-count p [] i t h = cc
get_elem?-count p (x ∷ xs) zero t h = ground arith
get_elem?-count p (x ∷ xs) (suc i) t h = ground (arith, get_elem?-count p xs i t h)

pub length-remove_at {ℓ} :
    {A : Type ℓ} (xs : List A) (i : ℕ) (t : A)
    → get_elem? xs i ≡ some t
    → length xs ≡ suc (length (remove_at i xs))
unfolding remove_at
length-remove_at [] i t h = cc
length-remove_at (x ∷ xs) zero t h = refl
length-remove_at (x ∷ xs) (suc i) t h = ap suc (length-remove_at xs i t h)

module _ {Peer : Type 0} where
  abbrev pub holds : ℕ → Task Peer → Bool
  holds s t = t.semaphore == s

  -- Every permit is free or held by one running task.
  pub record Conserved (caps : Caps) (g : GuardLoop Peer) : Type 0 where
    pub total : g.global + length g.tasks ≡ caps.max_streams_total
    pub each : (s : ℕ) → g.permits s + count (holds s) g.tasks ≡ caps.per_peer_cap

  pub SamePool-Conserved :
      (caps : Caps) {g g' : GuardLoop Peer} → SamePool g g' → Conserved caps g → Conserved caps g'
  SamePool-Conserved caps {g} {g'} p k = record {
    total = rw (p.same_global, p.same_tasks) k.total;
    each = λ s. rw (p.same_permits, p.same_tasks) (k.each s);
  }

  spawn-Conserved :
      (caps : Caps) (g : GuardLoop Peer) (p : Peer) (sem : ℕ)
      → Conserved caps g
      → Conserved caps (spawn g p sem)
  unfolding spawn
  spawn-Conserved caps g p sem k = record {
    total = ground (arith, k.total, k.each sem);
    each = λ s. ground (arith, k.each s, k.each sem, ==_iff sem s);
  }

  finish-Conserved :
      (caps : Caps) (g : GuardLoop Peer) (i : ℕ) (o : TunnelOutcome)
      → Conserved caps g
      → Conserved caps (finish g i o)
  unfolding finish
  finish-Conserved caps g i o k = elim (Option-cases (get_elem? g.tasks i)) [
    | inl gone ↦ rw (gone, finish) k
    | inr (task, at) ↦ record {
      total = ground (arith, k.total, length-remove_at g.tasks i task at);
      each = λ s.
          ground
            (arith, k.each s, get_elem?-count (holds s) g.tasks i task at, ==_iff task.semaphore s);
    }
  ]

module _ {Peer Key : Type 0} (net : Net Peer Key) where
  accept_stream-Conserved :
      (caps : Caps) (g : GuardLoop Peer) (p : Peer)
      → Conserved caps g
      → Conserved caps (accept_stream net g p).0
  unfolding accept_stream
  accept_stream-Conserved caps g p k = elim (Bool-cases (is_some g.node.shutdown_deadline)) [
    | inl ending ↦ rw ending (SamePool-Conserved caps (deny_tunnel-SamePool g) k)
    | inr running ↦ elim (Option-cases (Auth.session_roles net g.node.authenticator p)) [
      | inl stranger ↦ rw (running, stranger) (SamePool-Conserved caps (deny_tunnel-SamePool g) k)
      | inr (roles, known) ↦
          rw (running, known)
            (spawn-Conserved caps _ p _ (SamePool-Conserved caps (semaphore_of-SamePool net g p) k))
    ]
  ]

  either-Conserved :
      (caps : Caps) (b : Bool) (x y : GuardLoop Peer × List (Effect Peer))
      → Conserved caps x.0
      → Conserved caps y.0
      → Conserved caps (if b then x else y).0
  either-Conserved caps true x y k l = k
  either-Conserved caps false x y k l = l

  -- No turn of the loop loses or makes up a permit: the free permits of the global semaphore and
  -- the running tasks add up to the total cap, and those of each peer semaphore and the tasks on
  -- it to the cap for a peer.
  pub turn-Conserved :
      (caps : Caps) (g : GuardLoop Peer) (w : Wake Peer) (c : Chance)
      → Conserved caps g
      → Conserved caps (turn net caps g w c).0
  unfolding turn
  turn-Conserved caps g (swarm event) c k =
      either-Conserved caps g.stopped (g, []) _ k
        (SamePool-Conserved caps (on_swarm-SamePool net g event c) k)
  turn-Conserved caps g (stream p) c k =
      either-Conserved caps g.stopped (g, []) _ k (accept_stream-Conserved caps g p k)
  turn-Conserved caps g (command (some cmd) now) c k =
      either-Conserved caps (g.stopped || not g.control_open) (g, []) _ k
        (SamePool-Conserved caps (obey-SamePool net g cmd now) k)
  turn-Conserved caps g (command none now) c k =
      either-Conserved caps g.stopped (g, []) _ k (record { total = k.total; each = k.each })
  turn-Conserved caps g (tick now) c k =
      either-Conserved caps g.stopped (g, []) _ k
        (SamePool-Conserved caps (drain_check-SamePool caps g now) k)
  turn-Conserved caps g (finished i o) c k = finish-Conserved caps g i o k

  unfoldable pub turns : Caps → GuardLoop Peer → List (Wake Peer × Chance) → GuardLoop Peer
  turns caps g [] = g
  turns caps g ((w, c) ∷ ws) = turns caps (turn net caps g w c).0 ws

  pub turns-Conserved :
      (caps : Caps) (g : GuardLoop Peer) (ws : List (Wake Peer × Chance))
      → Conserved caps g
      → Conserved caps (turns caps g ws)
  unfolding turns
  turns-Conserved caps g [] k = k
  turns-Conserved caps g ((w, c) ∷ ws) k =
      turns-Conserved caps (turn net caps g w c).0 ws (turn-Conserved caps g w c k)

  pub start-Conserved :
      (caps : Caps) (n : NuxNode Peer) (control : Bool) → Conserved caps (start caps n control)
  unfolding start
  start-Conserved caps n control = record { total = omega arith; each = λ s. omega arith }

  -- At every moment of every run, no more tunnels are in flight than the total cap allows, no more
  -- on one peer's semaphore than the cap for a peer, and the permits that are free or held make up
  -- the caps.
  pub turns_within_caps :
      (caps : Caps) (n : NuxNode Peer) (control : Bool) (ws : List (Wake Peer × Chance)) (s : ℕ)
      → let g = turns caps (start caps n control) ws in
        (length g.tasks ≤ caps.max_streams_total)
        × (count (holds s) g.tasks ≤ caps.per_peer_cap)
        × (g.global + length g.tasks ≡ caps.max_streams_total)
        × (g.permits s + count (holds s) g.tasks ≡ caps.per_peer_cap)
  turns_within_caps caps n control ws s =
      let k = turns-Conserved caps (start caps n control) ws (start-Conserved caps n control) in
      let one = k.each s in (omega (arith, k.total), omega (arith, one), k.total, one)

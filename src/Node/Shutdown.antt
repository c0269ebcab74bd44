-- ===== src/Node/Shutdown.antt =====
-- crates/nux-core/src/node.rs, `run_guard_loop` once a shutdown is under way.
use nux_auth.Prelude.{
  ℕ, ◌≤◌, ◌≡◌, ◌↔◌, ◌⊎◌, refl, Bool, true, false, List, [], ◌∷◌, none, some, arith, ==_iff, length,
  if◌then◌else◌, Option-cases, inl, inr, is_some, ap, ◌∙◌, ◌||◌, not, get_elem?,
}
use nux_auth.Net.{Net}
use nux_auth.Node.{Effect, SwarmEvent, Chance, GuardControl}
use nux_auth.Metrics.{TunnelOutcome}
use nux_auth.Node.Loop.{
  GuardLoop, Caps, Wake, swarm, stream, command, tick, finished, accept_stream, drain_check, turn,
  obey, on_swarm, finish,
}
use nux_auth.Node.Deadline.{cut_off_all-SameDeadline, reload-SameDeadline, on_swarm-SameDeadline}
use nux_auth.Node.Pool.{obey-SamePool}
use nux_auth.Node.Permits.{Conserved, turns, length-remove_at}

module _ {Peer : Type 0} where
  -- In a loop whose permits are conserved and that has not stopped, the periodic check of a shutdown
  -- stops it exactly if no tunnel is in flight any more or the deadline has come.
  pub drain_check_iff :
      (caps : Caps) (g : GuardLoop Peer) (now deadline : ℕ)
      → Conserved caps g
      → g.stopped ≡ false
      → g.node.shutdown_deadline ≡ some deadline
      → ((drain_check caps g now).stopped ≡ true) ↔ ((length g.tasks ≡ 0) ⊎ (deadline ≤ now))
  unfolding drain_check
  drain_check_iff caps g now deadline k on ending =
      ground (arith, k.total, ==_iff g.global caps.max_streams_total)

  abbrev pub ending : GuardLoop Peer → Bool
  ending g = is_some g.node.shutdown_deadline

  -- From `g` to `g'` a shutdown stays under way and no tunnel is added.
  pub record Drains (g g' : GuardLoop Peer) : Type 0 where
    pub still : ending g' ≡ true
    pub fewer : length g'.tasks ≤ length g.tasks

  finish-Drains :
      (g : GuardLoop Peer) (i : ℕ) (o : TunnelOutcome) → ending g ≡ true → Drains g (finish g i o)
  unfolding finish
  finish-Drains g i o h = elim (Option-cases (get_elem? g.tasks i)) [
    | inl gone ↦ record { still = ground arith; fewer = ground arith }
    | inr (task, at) ↦ record {
      still = ground arith;
      fewer = ground (arith, length-remove_at g.tasks i task at);
    }
  ]

  unmoved : (g : GuardLoop Peer) → ending g ≡ true → Drains g g
  unmoved g h = record { still = h; fewer = omega arith }

  drain_check-Drains :
      (caps : Caps) (g : GuardLoop Peer) (now : ℕ)
      → ending g ≡ true
      → Drains g (drain_check caps g now)
  unfolding drain_check
  drain_check-Drains caps g now h = record { still = ground arith; fewer = ground arith }

  either-Drains :
      (g : GuardLoop Peer) (b : Bool) (x y : GuardLoop Peer × List (Effect Peer))
      → Drains g x.0
      → Drains g y.0
      → Drains g (if b then x else y).0
  either-Drains g true x y k l = k
  either-Drains g false x y k l = l

module _ {Peer Key : Type 0} (net : Net Peer Key) where
  obey-Drains :
      (g : GuardLoop Peer) (cmd : GuardControl Peer) (now : ℕ)
      → ending g ≡ true
      → Drains g (obey net g cmd now).0
  unfolding obey
  obey-Drains g cmd now h = record {
    still = elim cmd as (λ k. ending (obey net g k now).0 ≡ true) [
      | GuardControl.shutdown grace ↦ refl
      | GuardControl.revoke p ↦ ap is_some (cut_off_all-SameDeadline net g (p ∷ [])) ∙ h
      | GuardControl.allow p roles ↦ h
      | GuardControl.reload_whitelist entries ↦ ap is_some (reload-SameDeadline net g entries) ∙ h
    ];
    fewer = let same = obey-SamePool net g cmd now in ground (arith, same.same_tasks);
  }

  on_swarm-Drains :
      (g : GuardLoop Peer) (event : SwarmEvent Peer) (c : Chance)
      → ending g ≡ true
      → Drains g (on_swarm net g event c).0
  unfolding on_swarm
  on_swarm-Drains g event c h = record {
    still = ap is_some (on_swarm-SameDeadline net g event c) ∙ h;
    fewer = omega arith;
  }

  accept_stream-Drains :
      (g : GuardLoop Peer) (p : Peer) → ending g ≡ true → Drains g (accept_stream net g p).0
  unfolding accept_stream
  accept_stream-Drains g p h = rw h (record { still = h; fewer = omega arith })

  turn-Drains :
      (caps : Caps) (g : GuardLoop Peer) (w : Wake Peer) (c : Chance)
      → ending g ≡ true
      → Drains g (turn net caps g w c).0
  unfolding turn
  turn-Drains caps g (swarm event) c h =
      either-Drains g g.stopped (g, []) _ (unmoved g h) (on_swarm-Drains g event c h)
  turn-Drains caps g (stream p) c h =
      either-Drains g g.stopped (g, []) _ (unmoved g h) (accept_stream-Drains g p h)
  turn-Drains caps g (command (some cmd) now) c h =
      either-Drains g (g.stopped || not g.control_open) (g, []) _ (unmoved g h)
        (obey-Drains g cmd now h)
  turn-Drains caps g (command none now) c h =
      either-Drains g g.stopped (g, []) _ (unmoved g h) (record { still = h; fewer = omega arith })
  turn-Drains caps g (tick now) c h =
      either-Drains g g.stopped (g, []) _ (unmoved g h) (drain_check-Drains caps g now h)
  turn-Drains caps g (finished i o) c h = finish-Drains g i o h

  -- Once a shutdown is under way it stays so, and no turn of any later run adds a tunnel.
  pub shutdown_drains :
      (caps : Caps) (g : GuardLoop Peer) (ws : List (Wake Peer × Chance))
      → is_some g.node.shutdown_deadline ≡ true
      → (is_some (turns net caps g ws).node.shutdown_deadline ≡ true)
        × (length (turns net caps g ws).tasks ≤ length g.tasks)
  unfolding turns
  shutdown_drains caps g [] h = (h, omega arith)
  shutdown_drains caps g ((w, c) ∷ ws) h =
      let once = turn-Drains caps g w c h in
      let (still, fewer) = shutdown_drains caps (turn net caps g w c).0 ws once.still in
      (still, omega (arith, fewer, once.fewer))

-- ===== src/Node/Stop.antt =====
-- crates/nux-core/src/node.rs, `run_guard_loop`: a shutdown ends the loop, whatever happens in the
-- meantime.
use nux_auth.Prelude.{ℕ, ◌+◌, ◌≤◌, ◌≡◌, refl, ◌∙◌, true, false, List, [], ◌∷◌, some, arith, any}
use nux_auth.Net.{Net}
use nux_auth.Node.{Chance, GuardControl}
use nux_auth.Node.Loop.{GuardLoop, Caps, Wake, command, tick, drain_check, turn, obey}
use nux_auth.Node.Permits.{turns}
use nux_auth.Node.Deadline.{SameDeadline, orders_shutdown, turn-SameDeadline}

module _ {Peer Key : Type 0} (net : Net Peer Key) where
  turns-SameDeadline :
      (caps : Caps) (g : GuardLoop Peer) (ws : List (Wake Peer × Chance))
      → any (λ w. orders_shutdown w.0) ws ≡ false
      → SameDeadline g (turns net caps g ws)
  unfolding turns
  turns-SameDeadline caps g [] h = refl
  turns-SameDeadline caps g ((w, c) ∷ ws) h =
      turns-SameDeadline caps (turn net caps g w c).0 ws (ground arith)
      ∙ turn-SameDeadline net caps g w c (ground arith)

  stops_at_deadline :
      (caps : Caps) (g : GuardLoop Peer) (deadline now : ℕ) (c : Chance)
      → g.node.shutdown_deadline ≡ some deadline
      → deadline ≤ now
      → (turn net caps g (tick now) c).0.stopped ≡ true
  unfolding turn drain_check
  stops_at_deadline caps g deadline now c h late = ground arith

  ordered :
      (caps : Caps) (g : GuardLoop Peer) (grace t : ℕ) (c : Chance)
      → g.stopped ≡ false
      → g.control_open ≡ true
      → (turn net caps g
          (command (some (GuardControl.shutdown grace)) t)
          c).0.node.shutdown_deadline
        ≡ some (t + grace)
  unfolding turn obey
  ordered caps g grace t c on heard = ground arith

  -- A shutdown ends the loop: once a running loop has taken the command at the time `t`, and
  -- whatever requests, streams, ends of tunnels, other commands and checks come in between, as long
  -- as none of them is a second shutdown, the first check at `t + grace` or later leaves the loop
  -- stopped.
  pub shutdown_stops :
      (caps : Caps) (g : GuardLoop Peer) (grace t now : ℕ) (c c' : Chance)
      (ws : List (Wake Peer × Chance))
      → g.stopped ≡ false
      → g.control_open ≡ true
      → any (λ w. orders_shutdown w.0) ws ≡ false
      → t + grace ≤ now
      → let ending = (turn net caps g (command (some (GuardControl.shutdown grace)) t) c).0 in
        (turn net caps (turns net caps ending ws) (tick now) c').0.stopped ≡ true
  shutdown_stops caps g grace t now c c' ws on heard once late =
      let ending = (turn net caps g (command (some (GuardControl.shutdown grace)) t) c).0 in
      stops_at_deadline caps (turns net caps ending ws) (t + grace) now c'
        (turns-SameDeadline caps ending ws once ∙ ordered caps g grace t c on heard) late

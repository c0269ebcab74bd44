-- ===== src/Node/Deadline.antt =====
-- crates/nux-core/src/node.rs, `run_guard_loop`: the deadline of a shutdown, which only a shutdown
-- command sets.
use nux_auth.Prelude.{
  zero, suc, some, none, ◌≡◌, refl, ap, ◌∙◌, Bool, true, false, List, [], ◌∷◌, arith, if◌then◌else◌,
  ◌||◌, not, keep, is_none, ℕ,
}
use nux_auth.Auth
use nux_auth.Whitelist
use nux_auth.Whitelist.{Whitelist}
use nux_auth.Net.{Net}
use nux_auth.Metrics.{TunnelOutcome}
use nux_auth.Node.{
  Effect, SwarmEvent, Chance, GuardControl, handle_guard_event, request, connection_closed, logged,
}
use nux_auth.Node.Loop.{
  GuardLoop, Caps, Wake, swarm, stream, command, tick, finished, accept_stream, drain_check,
  cut_off, cut_off_all, turn, obey, on_swarm, finish, reload, deny_tunnel, semaphore_of, spawn,
}
use nux_auth.Node.Requests.{handle_auth_request-Outcome}

module _ {Peer : Type 0} where
  -- A wake-up with a command that starts a shutdown.
  unfoldable pub orders_shutdown : Wake Peer → Bool
  orders_shutdown (command (some (GuardControl.shutdown grace)) now) = true
  orders_shutdown _ = false

  abbrev pub SameDeadline : GuardLoop Peer → GuardLoop Peer → Type 0
  SameDeadline g g' = g'.node.shutdown_deadline ≡ g.node.shutdown_deadline

  either-SameDeadline :
      (g : GuardLoop Peer) (b : Bool) (x : GuardLoop Peer × List (Effect Peer))
      → SameDeadline g x.0
      → SameDeadline g (if b then (g, []) else x).0
  either-SameDeadline g true x h = refl
  either-SameDeadline g false x h = h

  drain_check-SameDeadline :
      (caps : Caps) (g : GuardLoop Peer) (now : ℕ) → SameDeadline g (drain_check caps g now)
  unfolding drain_check
  drain_check-SameDeadline caps g now = ground arith

  finish-SameDeadline :
      (g : GuardLoop Peer) (i : ℕ) (o : TunnelOutcome) → SameDeadline g (finish g i o)
  unfolding finish
  finish-SameDeadline g i o = ground arith

  spawn-SameDeadline : (g : GuardLoop Peer) (p : Peer) (s : ℕ) → SameDeadline g (spawn g p s)
  unfolding spawn deny_tunnel
  spawn-SameDeadline g p s = ground arith

module _ {Peer Key : Type 0} (net : Net Peer Key) where
  cut_off-SameDeadline : (g : GuardLoop Peer) (p : Peer) → SameDeadline g (cut_off net g p).0
  unfolding cut_off
  cut_off-SameDeadline g p = ground arith

  pub cut_off_all-SameDeadline :
      (g : GuardLoop Peer) (ps : List Peer) → SameDeadline g (cut_off_all net g ps).0
  unfolding cut_off_all
  cut_off_all-SameDeadline g [] = refl
  cut_off_all-SameDeadline g (p ∷ ps) =
      cut_off_all-SameDeadline (cut_off net g p).0 ps ∙ cut_off-SameDeadline g p

  pub reload-SameDeadline :
      (g : GuardLoop Peer) (entries : Whitelist Peer) → SameDeadline g (reload net g entries).0
  unfolding reload
  reload-SameDeadline g entries =
      let put : GuardLoop Peer = record g {
        node = record g.node {
          authenticator = record (g.node.authenticator) { whitelist = entries };
        };
      } in
      cut_off_all-SameDeadline put (
        keep (λ peer. is_none (Whitelist.roles net entries peer))
          (Auth.authenticated_peers net g.node.authenticator))

  pub on_swarm-SameDeadline :
      (g : GuardLoop Peer) (event : SwarmEvent Peer) (c : Chance)
      → SameDeadline g (on_swarm net g event c).0
  unfolding on_swarm handle_guard_event
  on_swarm-SameDeadline g (request p r) c =
      let (said, became) = handle_auth_request-Outcome net g.node p r c in
      ap (λ m. m.shutdown_deadline) became
  on_swarm-SameDeadline g (connection_closed p zero) c = refl
  on_swarm-SameDeadline g (connection_closed p (suc k)) c = refl
  on_swarm-SameDeadline g logged c = refl

  semaphore_of-SameDeadline :
      (g : GuardLoop Peer) (p : Peer) → SameDeadline g (semaphore_of net g p).0
  unfolding semaphore_of
  semaphore_of-SameDeadline g p = ground arith

  accept_stream-SameDeadline :
      (g : GuardLoop Peer) (p : Peer) → SameDeadline g (accept_stream net g p).0
  unfolding accept_stream deny_tunnel
  accept_stream-SameDeadline g p =
      let found = semaphore_of net g p in
      ground (arith, spawn-SameDeadline found.0 p found.1, semaphore_of-SameDeadline g p)

  pub obey-SameDeadline :
      (g : GuardLoop Peer) (cmd : GuardControl Peer) (now : ℕ)
      → orders_shutdown (command (some cmd) now) ≡ false
      → SameDeadline g (obey net g cmd now).0
  unfolding obey orders_shutdown
  obey-SameDeadline g (GuardControl.shutdown grace) now h = absurd (cc)
  obey-SameDeadline g (GuardControl.revoke p) now h = cut_off-SameDeadline g p
  obey-SameDeadline g (GuardControl.allow p roles) now h = refl
  obey-SameDeadline g (GuardControl.reload_whitelist entries) now h = reload-SameDeadline g entries

  pub turn-SameDeadline :
      (caps : Caps) (g : GuardLoop Peer) (w : Wake Peer) (c : Chance)
      → orders_shutdown w ≡ false
      → SameDeadline g (turn net caps g w c).0
  unfolding turn
  turn-SameDeadline caps g (swarm event) c h =
      either-SameDeadline g g.stopped _ (on_swarm-SameDeadline g event c)
  turn-SameDeadline caps g (stream p) c h =
      either-SameDeadline g g.stopped _ (accept_stream-SameDeadline g p)
  turn-SameDeadline caps g (command (some cmd) now) c h =
      either-SameDeadline g (g.stopped || not g.control_open) _ (obey-SameDeadline g cmd now h)
  turn-SameDeadline caps g (command none now) c h = either-SameDeadline g g.stopped _ refl
  turn-SameDeadline caps g (tick now) c h =
      either-SameDeadline g g.stopped _ (drain_check-SameDeadline caps g now)
  turn-SameDeadline caps g (finished i o) c h = finish-SameDeadline g i o

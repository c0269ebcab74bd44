-- ===== src/Node/Peers.antt =====
-- crates/nux-core/src/node.rs, `run_guard_loop`: the tunnels of one peer, while it stays connected.
use nux_auth.Prelude.{
  ℕ, zero, suc, ◌≤◌, ◌≡◌, refl, ◌∙◌, ap, sym, subst, Bool, true, false, List, [], ◌∷◌, none, some,
  arith, ◌==◌, not, ◌||◌, count, keep, get_elem?, if◌then◌else◌, is_some, is_none, Option-cases,
  Bool-cases, inl, inr,
}
use nux_auth.Prelude.Assoc.{lookup, lookup-insert, lookup-remove}
use nux_auth.Auth
use nux_auth.Whitelist
use nux_auth.Net.{Net}
use nux_auth.Metrics.{TunnelOutcome}
use nux_auth.Node.{
  NuxNode, SwarmEvent, connection_closed, request, logged, Chance, Effect, GuardControl,
}
use nux_auth.Node.Loop.{
  GuardLoop, Caps, Wake, swarm, stream, command, tick, finished, start, spawn, finish, semaphore_of,
  accept_stream, cut_off_all, reload, obey, on_swarm, deny_tunnel, drain_check, turn,
}
use nux_auth.Node.Homes.{
  is_of, OnEntry, Homed, OnEntry-none, OnEntry-count, OnEntry-absent, OnEntry-remove_at, stays,
  stays_all, SameEntry-Homed, cut_off-SameEntry, cut_off_all-SameEntry, keep-spares,
}
use nux_auth.Node.Permits.{turns, turns-Conserved, start-Conserved}

module _ {Peer Key : Type 0} (net : Net Peer Key) (p : Peer) where
  deny_tunnel-Homed : (g : GuardLoop Peer) → Homed net p g → Homed net p (deny_tunnel g)
  unfolding deny_tunnel
  deny_tunnel-Homed g h = h

  spawn-Homed :
      (g : GuardLoop Peer) (q : Peer) (sem : ℕ)
      → (net.peer.beq q p ≡ true → lookup net.peer p g.per_peer ≡ some sem)
      → Homed net p g
      → Homed net p (spawn g q sem)
  unfolding spawn deny_tunnel
  spawn-Homed g q sem own h = elim (Bool-cases (g.permits sem == 0)) [
    | inl taken ↦ rw (taken, spawn) h
    | inr free ↦ elim (Bool-cases (g.global == 0)) [
      | inl full ↦ rw (free, full, spawn) h
      | inr room ↦ rw (free, room, spawn) (own, h)
    ]
  ]

  semaphore_of-Homed :
      (g : GuardLoop Peer) (q : Peer)
      → Homed net p g
      → let r = semaphore_of net g q in
        Homed net p r.0 × (net.peer.beq q p ≡ true → lookup net.peer p r.0.per_peer ≡ some (r.1))
  unfolding semaphore_of
  semaphore_of-Homed g q h = elim (Option-cases (lookup net.peer q g.per_peer)) [
    | inr (sem, there) ↦
        rw (there, semaphore_of)
          (
            h,
            λ own.
                ap (λ x. lookup net.peer x g.per_peer) (sym ((net.peer.beq_iff q p).0 own)) ∙ there,
          )
    | inl missing ↦
        let made = lookup-insert net.peer q p g.next_semaphore g.per_peer in
        elim (Bool-cases (net.peer.beq q p)) [
          | inl own ↦
              let none_yet : lookup net.peer p g.per_peer ≡ none =
                ap (λ x. lookup net.peer x g.per_peer) (sym ((net.peer.beq_iff q p).0 own))
                ∙ missing in
              let homed : OnEntry net p (some g.next_semaphore) g.tasks =
                OnEntry-none net p (some g.next_semaphore) g.tasks (
                  OnEntry-absent net p g.tasks (subst (λ e. OnEntry net p e g.tasks) none_yet h)) in
              rw (missing, semaphore_of, made, own) (homed, λ same. refl)
          | inr away ↦
              rw (missing, semaphore_of, made, away) (h, λ own. absurd (ground (arith, own)))
        ]
  ]

  accept_stream-Homed :
      (g : GuardLoop Peer) (q : Peer) → Homed net p g → Homed net p (accept_stream net g q).0
  unfolding accept_stream
  accept_stream-Homed g q h = elim (Bool-cases (is_some g.node.shutdown_deadline)) [
    | inl ending ↦ rw ending (deny_tunnel-Homed g h)
    | inr running ↦ elim (Option-cases (Auth.session_roles net g.node.authenticator q)) [
      | inl stranger ↦ rw (running, stranger) (deny_tunnel-Homed g h)
      | inr (roles, known) ↦
          let (homed, own) = semaphore_of-Homed g q h in
          rw (running, known)
            (spawn-Homed (semaphore_of net g q).0 q (semaphore_of net g q).1 own homed)
    ]
  ]

  obey-Homed :
      (g : GuardLoop Peer) (cmd : GuardControl Peer) (now : ℕ)
      → stays net p (command (some cmd) now) ≡ true
      → Homed net p g
      → Homed net p (obey net g cmd now).0
  unfolding obey reload
  obey-Homed g (GuardControl.shutdown grace) now s h = h
  obey-Homed g (GuardControl.revoke q) now s h =
      SameEntry-Homed net p (cut_off-SameEntry net p g q (ground (arith, s))) h
  obey-Homed g (GuardControl.allow q roles) now s h = h
  obey-Homed g (GuardControl.reload_whitelist entries) now s h =
      let unlisted : Peer → Bool = λ q. is_none (Whitelist.roles net entries q) in
      let known = Auth.authenticated_peers net g.node.authenticator in
      let g1 : GuardLoop Peer = record g {
        node = record g.node {
          authenticator = record (g.node.authenticator) { whitelist = entries };
        };
      } in
      SameEntry-Homed net p {g = g1} {g' = (cut_off_all net g1 (keep unlisted known)).0}
        (cut_off_all-SameEntry net p g1 (keep unlisted known)
          (keep-spares net p unlisted known (ground (arith, s))))
        h

  on_swarm-Homed :
      (g : GuardLoop Peer) (event : SwarmEvent Peer) (c : Chance)
      → stays net p (swarm event) ≡ true
      → Homed net p g
      → Homed net p (on_swarm net g event c).0
  unfolding on_swarm
  on_swarm-Homed g (request q r) c s h = h
  on_swarm-Homed g (connection_closed q zero) c s h =
      let kept = lookup-remove net.peer q p g.per_peer in
      let away : net.peer.beq q p ≡ false = ground (arith, s) in rw (kept, away) h
  on_swarm-Homed g (connection_closed q (suc k)) c s h = h
  on_swarm-Homed g logged c s h = h

  drain_check-Homed :
      (caps : Caps) (g : GuardLoop Peer) (now : ℕ)
      → Homed net p g
      → Homed net p (drain_check caps g now)
  unfolding drain_check
  drain_check-Homed caps g now h =
      SameEntry-Homed net p {g = g} {g' = drain_check caps g now}
        (record { entry = ground arith; tasks = ground arith }) h

  finish-Homed :
      (g : GuardLoop Peer) (i : ℕ) (o : TunnelOutcome) → Homed net p g → Homed net p (finish g i o)
  unfolding finish
  finish-Homed g i o h = elim (Option-cases (get_elem? g.tasks i)) [
    | inl gone ↦ rw (gone, finish) h
    | inr (task, at) ↦ rw (at, finish) (OnEntry-remove_at net p _ i g.tasks h)
  ]

  either-Homed :
      (b : Bool) (x y : GuardLoop Peer × List (Effect Peer))
      → Homed net p x.0
      → Homed net p y.0
      → Homed net p (if b then x else y).0
  either-Homed true x y h k = h
  either-Homed false x y h k = k

  turn-Homed :
      (caps : Caps) (g : GuardLoop Peer) (w : Wake Peer) (c : Chance)
      → stays net p w ≡ true
      → Homed net p g
      → Homed net p (turn net caps g w c).0
  unfolding turn
  turn-Homed caps g (swarm event) c s h =
      either-Homed g.stopped (g, []) _ h (on_swarm-Homed g event c s h)
  turn-Homed caps g (stream q) c s h =
      either-Homed g.stopped (g, []) _ h (accept_stream-Homed g q h)
  turn-Homed caps g (command (some cmd) now) c s h =
      either-Homed (g.stopped || not g.control_open) (g, []) _ h (obey-Homed g cmd now s h)
  turn-Homed caps g (command none now) c s h = either-Homed g.stopped (g, []) _ h h
  turn-Homed caps g (tick now) c s h =
      either-Homed g.stopped (g, []) _ h (drain_check-Homed caps g now h)
  turn-Homed caps g (finished i o) c s h = finish-Homed g i o h

  turns-Homed :
      (caps : Caps) (g : GuardLoop Peer) (ws : List (Wake Peer × Chance))
      → stays_all net p ws ≡ true
      → Homed net p g
      → Homed net p (turns net caps g ws)
  unfolding turns
  turns-Homed caps g [] s h = h
  turns-Homed caps g ((w, c) ∷ ws) s h =
      turns-Homed caps (turn net caps g w c).0 ws (ground (arith, s))
        (turn-Homed caps g w c (ground (arith, s)) h)

  -- Whatever has happened before, from a moment at which no tunnel of a peer is in flight, and for as
  -- long as the peer keeps its connection and its access, it never has more tunnels in flight than the
  -- cap for a peer.
  pub peer_within_cap :
      (caps : Caps) (n : NuxNode Peer) (control : Bool) (earlier ws : List (Wake Peer × Chance))
      → count (is_of net p) (turns net caps (start caps n control) earlier).tasks ≡ 0
      → stays_all net p ws ≡ true
      → count
          (is_of net p)
          (turns net caps (turns net caps (start caps n control) earlier) ws).tasks
        ≤ caps.per_peer_cap
  peer_within_cap caps n control earlier ws none_left s =
      let g = turns net caps (start caps n control) earlier in
      let k = turns-Conserved net caps g ws (
        turns-Conserved net caps (start caps n control) earlier
          (start-Conserved net caps n control)) in
      let g' = turns net caps g ws in
      let h : Homed net p g' =
        turns-Homed caps g ws s
          (OnEntry-none net p (lookup net.peer p g.per_peer) g.tasks none_left) in
      elim (Option-cases (lookup net.peer p g'.per_peer)) [
        | inl absent ↦
            let nobody =
              OnEntry-absent net p g'.tasks (subst (λ e. OnEntry net p e g'.tasks) absent h) in
            omega (arith, nobody)
        | inr (sem, there) ↦
            let fewer =
              OnEntry-count net p sem g'.tasks (subst (λ e. OnEntry net p e g'.tasks) there h) in
            let each = k.each sem in omega (arith, fewer, each)
      ]

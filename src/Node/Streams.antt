-- ===== src/Node/Streams.antt =====
-- crates/nux-core/src/node.rs, the stream branch of `run_guard_loop`: when a tunnel starts.
use nux_auth.Prelude.{
  ℕ, suc, ◌<◌, ◌≡◌, ◌↔◌, true, none, arith, length, count, Option-cases, Bool-cases, inl, inr,
  is_some,
}
use nux_auth.Auth
use nux_auth.Net.{Net}
use nux_auth.Node.Loop.{GuardLoop, Caps, accept_stream, semaphore_of, spawn}
use nux_auth.Node.Pool.{semaphore_of-SamePool}
use nux_auth.Node.Permits.{Conserved, holds, SamePool-Conserved}

module _ {Peer : Type 0} where
  pub spawn-tasks :
      (caps : Caps) (g : GuardLoop Peer) (p : Peer) (sem : ℕ)
      → Conserved caps g
      → (length (spawn g p sem).tasks ≡ suc (length g.tasks)) ↔ (
          (length g.tasks < caps.max_streams_total)
          × (count (holds sem) g.tasks < caps.per_peer_cap))
  unfolding spawn
  spawn-tasks caps g p sem k = ground (arith, k.total, k.each sem)

module _ {Peer Key : Type 0} (net : Net Peer Key) where
  -- In a loop whose permits are conserved, a stream becomes a tunnel exactly if no shutdown is under
  -- way, its peer has a session, and fewer tunnels are in flight than the total cap, and fewer on
  -- the semaphore of the peer than the cap for a peer.
  pub accept_stream_iff :
      (caps : Caps) (g : GuardLoop Peer) (p : Peer)
      → Conserved caps g
      → (length (accept_stream net g p).0.tasks ≡ suc (length g.tasks)) ↔ (
          (g.node.shutdown_deadline ≡ none)
          × (is_some (Auth.session_roles net g.node.authenticator p) ≡ true)
          × (length g.tasks < caps.max_streams_total)
          × (count (holds (semaphore_of net g p).1) g.tasks < caps.per_peer_cap))
  unfolding accept_stream
  accept_stream_iff caps g p k = elim (Bool-cases (is_some g.node.shutdown_deadline)) [
    | inl ending ↦ ground (arith, ending)
    | inr running ↦ elim (Option-cases (Auth.session_roles net g.node.authenticator p)) [
      | inl stranger ↦ ground (arith, running, stranger)
      | inr (roles, known) ↦
          let same = semaphore_of-SamePool net g p in
          let starts =
            spawn-tasks caps (semaphore_of net g p).0 p (semaphore_of net g p).1
              (SamePool-Conserved caps same k) in
          ground (arith, running, known, starts, same.same_tasks)
    ]
  ]

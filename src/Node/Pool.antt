-- ===== src/Node/Pool.antt =====
-- crates/nux-core/src/node.rs, `run_guard_loop`: the operations that leave the semaphores and the
-- tasks alone.
use nux_auth.Prelude.{ℕ, ◌≡◌, refl, ◌∙◌, List, [], ◌∷◌, arith, keep, is_none}
use nux_auth.Auth
use nux_auth.Whitelist
use nux_auth.Net.{Net}
use nux_auth.Node.{SwarmEvent, Chance, GuardControl}
use nux_auth.Node.Loop.{
  GuardLoop, Caps, deny_tunnel, drain_check, semaphore_of, cut_off, cut_off_all, reload, obey,
  on_swarm,
}

module _ {Peer : Type 0} where
  -- A turn that leaves the semaphores and the tasks alone.
  pub record SamePool (g g' : GuardLoop Peer) : Type 0 where
    pub same_global : g'.global ≡ g.global
    pub same_permits : g'.permits ≡ g.permits
    pub same_tasks : g'.tasks ≡ g.tasks

  pub SamePool-trans : {g h k : GuardLoop Peer} → SamePool g h → SamePool h k → SamePool g k
  SamePool-trans p q = record {
    same_global = q.same_global ∙ p.same_global;
    same_permits = q.same_permits ∙ p.same_permits;
    same_tasks = q.same_tasks ∙ p.same_tasks;
  }

  pub SamePool-refl : (g : GuardLoop Peer) → SamePool g g
  SamePool-refl g = record { same_global = refl; same_permits = refl; same_tasks = refl }

  pub deny_tunnel-SamePool : (g : GuardLoop Peer) → SamePool g (deny_tunnel g)
  unfolding deny_tunnel
  deny_tunnel-SamePool g = record { same_global = refl; same_permits = refl; same_tasks = refl }

  pub drain_check-SamePool :
      (caps : Caps) (g : GuardLoop Peer) (now : ℕ) → SamePool g (drain_check caps g now)
  unfolding drain_check
  drain_check-SamePool caps g now = record {
    same_global = ground arith;
    same_permits = ground arith;
    same_tasks = ground arith;
  }

module _ {Peer Key : Type 0} (net : Net Peer Key) where
  pub semaphore_of-SamePool : (g : GuardLoop Peer) (p : Peer) → SamePool g (semaphore_of net g p).0
  unfolding semaphore_of
  semaphore_of-SamePool g p = record {
    same_global = ground arith;
    same_permits = ground arith;
    same_tasks = ground arith;
  }

  pub cut_off-SamePool : (g : GuardLoop Peer) (p : Peer) → SamePool g (cut_off net g p).0
  unfolding cut_off
  cut_off-SamePool g p = record {
    same_global = ground arith;
    same_permits = ground arith;
    same_tasks = ground arith;
  }

  pub cut_off_all-SamePool :
      (g : GuardLoop Peer) (ps : List Peer) → SamePool g (cut_off_all net g ps).0
  unfolding cut_off_all
  cut_off_all-SamePool g [] = SamePool-refl g
  cut_off_all-SamePool g (p ∷ ps) =
      SamePool-trans (cut_off-SamePool g p) (cut_off_all-SamePool (cut_off net g p).0 ps)

  pub obey-SamePool :
      (g : GuardLoop Peer) (cmd : GuardControl Peer) (now : ℕ) → SamePool g (obey net g cmd now).0
  unfolding obey reload
  obey-SamePool g (GuardControl.shutdown grace) now = record {
    same_global = refl;
    same_permits = refl;
    same_tasks = refl;
  }
  obey-SamePool g (GuardControl.revoke p) now = cut_off-SamePool g p
  obey-SamePool g (GuardControl.allow p roles) now = record {
    same_global = refl;
    same_permits = refl;
    same_tasks = refl;
  }
  obey-SamePool g (GuardControl.reload_whitelist entries) now =
      let g1 : GuardLoop Peer = record g {
        node = record g.node {
          authenticator = record (g.node.authenticator) { whitelist = entries };
        };
      } in
      let ps =
        keep (λ peer. is_none (Whitelist.roles net entries peer))
          (Auth.authenticated_peers net g.node.authenticator) in
      let p = cut_off_all-SamePool g1 ps in
      record {
        same_global = p.same_global;
        same_permits = p.same_permits;
        same_tasks = p.same_tasks;
      }

  pub on_swarm-SamePool :
      (g : GuardLoop Peer) (event : SwarmEvent Peer) (c : Chance)
      → SamePool g (on_swarm net g event c).0
  unfolding on_swarm
  on_swarm-SamePool g event c = record {
    same_global = refl;
    same_permits = refl;
    same_tasks = refl;
  }

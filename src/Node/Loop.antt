-- ===== src/Node/Loop.antt =====
-- crates/nux-core/src/node.rs, `run_guard_loop`: one turn of the Guard's loop for each event that
-- wakes it. A semaphore is an object shared by the table of the loop and the tasks that hold its
-- permits, so semaphores have identities and the number of free permits is kept for each.
use nux_auth.Prelude.{
  ℕ, zero, suc, ◌+◌, ◌-◌, Bool, true, false, List, [], ◌∷◌, ◌++◌, Option, none, some, ◌==◌, leb,
  ◌||◌, not, is_some, is_none, keep, get_elem?, if◌then◌else◌,
}
use nux_auth.Prelude.Assoc.{lookup, insert, remove}
use nux_auth.Auth
use nux_auth.Metrics.{
  TunnelOutcome, record_tunnel_denied, record_tunnel_started, record_tunnel_finished,
}
use nux_auth.Net.{Net}
use nux_auth.Whitelist
use nux_auth.Whitelist.{Whitelist, Roles}
use nux_auth.Node.{
  NuxNode, Effect, disconnect, SwarmEvent, connection_closed, Chance, GuardControl,
  handle_guard_event,
}

-- A spawned relay, with the two permits that it holds until it ends.
pub record Task (Peer : Type 0) : Type 0 where
  pub peer : Peer
  pub semaphore : ℕ

pub record GuardLoop (Peer : Type 0) : Type 0 where
  pub node : NuxNode Peer
  -- Free permits of the global semaphore.
  pub global : ℕ
  -- The semaphore of each peer, the free permits of each semaphore, and the next identity.
  pub per_peer : List (Peer × ℕ)
  pub permits : ℕ → ℕ
  pub next_semaphore : ℕ
  pub tasks : List (Task Peer)
  pub control_open : Bool
  pub stopped : Bool

-- The caps of the registry.
pub record Caps : Type 0 where
  pub max_streams_total : ℕ
  pub per_peer_cap : ℕ

abbrev pub update : (ℕ → ℕ) → ℕ → ℕ → ℕ → ℕ
update f i v j = if i == j then v else f j

unfoldable pub start : {Peer : Type 0} → Caps → NuxNode Peer → Bool → GuardLoop Peer
start caps node control = record {
  node = node;
  global = caps.max_streams_total;
  per_peer = [];
  permits = λ i. caps.per_peer_cap;
  next_semaphore = 0;
  tasks = [];
  control_open = control;
  stopped = false;
}

-- What wakes the loop. `command none` is the closed channel; `finished i o` is the end of the task
-- at place `i`; `tick now` and the time of a command are read from the monotonic clock.
pub data Wake (Peer : Type 0) : Type 0 where
  swarm : SwarmEvent Peer → Wake Peer
  stream : Peer → Wake Peer
  command : Option (GuardControl Peer) → ℕ → Wake Peer
  tick : ℕ → Wake Peer
  finished : ℕ → TunnelOutcome → Wake Peer

unfoldable pub remove_at {ℓ} : {A : Type ℓ} → ℕ → List A → List A
remove_at i [] = []
remove_at zero (x ∷ xs) = xs
remove_at (suc i) (x ∷ xs) = x ∷ remove_at i xs

module _ {Peer : Type 0} where
  unfoldable pub deny_tunnel : GuardLoop Peer → GuardLoop Peer
  deny_tunnel g = record g {
    node = record g.node { metrics = record_tunnel_denied g.node.metrics };
  }

  -- `try_acquire_owned` on the peer's semaphore and on the global one, and the spawned task. A
  -- permit of the peer that was taken before the global one is refused is given back at once.
  unfoldable pub spawn : GuardLoop Peer → Peer → ℕ → GuardLoop Peer
  unfolding deny_tunnel
  spawn g peer sem =
      if g.permits sem == 0
      then deny_tunnel g
      else if g.global == 0
      then deny_tunnel g
      else record g {
        node = record g.node { metrics = record_tunnel_started g.node.metrics };
        global = g.global - 1;
        permits = update g.permits sem (g.permits sem - 1);
        tasks = record { peer = peer; semaphore = sem } ∷ g.tasks;
      }

  -- The end of a task: its outcome is counted and its permits are released.
  unfoldable pub finish : GuardLoop Peer → ℕ → TunnelOutcome → GuardLoop Peer
  unfolding remove_at
  finish g i outcome = elim (get_elem? g.tasks i) [
    | none ↦ g
    | some task ↦ record g {
      node = record g.node { metrics = record_tunnel_finished g.node.metrics outcome };
      global = g.global + 1;
      permits = update g.permits task.semaphore (g.permits task.semaphore + 1);
      tasks = remove_at i g.tasks;
    }
  ]

  -- The periodic check of a shutdown under way.
  unfoldable pub drain_check : Caps → GuardLoop Peer → ℕ → GuardLoop Peer
  drain_check caps g now = elim g.node.shutdown_deadline [
    | none ↦ g
    | some deadline ↦
        if g.global == caps.max_streams_total
        then record g { stopped = true }
        else if leb deadline now
        then record g { stopped = true }
        else g
  ]

module _ {Peer Key : Type 0} (net : Net Peer Key) where
  -- `per_peer.entry(peer).or_insert_with(..)`: the loop with the entry, and its semaphore. A new
  -- semaphore has every permit, as every identity that is not in use has.
  unfoldable pub semaphore_of : GuardLoop Peer → Peer → GuardLoop Peer × ℕ
  semaphore_of g peer = elim (lookup net.peer peer g.per_peer) [
    | some sem ↦ (g, sem)
    | none ↦ (
      record g {
        per_peer = insert net.peer peer g.next_semaphore g.per_peer;
        next_semaphore = suc g.next_semaphore;
      },
      g.next_semaphore,
    )
  ]

  unfoldable pub accept_stream : GuardLoop Peer → Peer → GuardLoop Peer × List (Effect Peer)
  unfolding deny_tunnel semaphore_of spawn
  accept_stream g peer =
      if is_some g.node.shutdown_deadline
      then (deny_tunnel g, [])
      else elim (Auth.session_roles net g.node.authenticator peer) [
        | none ↦ (deny_tunnel g, disconnect peer ∷ [])
        | some roles ↦ let (g', sem) = semaphore_of g peer in (spawn g' peer sem, [])
      ]

  -- A peer whose access is withdrawn: its session ends, and its connection is cut if it had one.
  unfoldable pub cut_off : GuardLoop Peer → Peer → GuardLoop Peer × List (Effect Peer)
  cut_off g peer =
      let revoked = Auth.revoke net g.node.authenticator peer in
      let g' : GuardLoop Peer = record g { node = record g.node { authenticator = revoked.0 } } in
      if revoked.1
      then (record g' { per_peer = remove net.peer peer g.per_peer }, disconnect peer ∷ [])
      else (g', [])

  unfoldable pub cut_off_all : GuardLoop Peer → List Peer → GuardLoop Peer × List (Effect Peer)
  cut_off_all g [] = (g, [])
  cut_off_all g (peer ∷ peers) =
      let (g', effects) = cut_off g peer in
      let (g'', more) = cut_off_all g' peers in (g'', effects ++ more)

  -- The authenticated peers that the new list does not name are found before it is put in place.
  unfoldable pub reload : GuardLoop Peer → Whitelist Peer → GuardLoop Peer × List (Effect Peer)
  unfolding cut_off_all
  reload g entries =
      let to_revoke =
        keep (λ peer. is_none (Whitelist.roles net entries peer))
          (Auth.authenticated_peers net g.node.authenticator) in
      let a = g.node.authenticator in
      cut_off_all
        (record g { node = record g.node { authenticator = record a { whitelist = entries } } })
        to_revoke

  unfoldable pub obey : GuardLoop Peer → GuardControl Peer → ℕ → GuardLoop Peer × List (Effect Peer)
  unfolding cut_off reload
  obey g (GuardControl.shutdown grace_period) now =
      (record g { node = record g.node { shutdown_deadline = some (now + grace_period) } }, [])
  obey g (GuardControl.revoke peer) now = cut_off g peer
  obey g (GuardControl.allow peer roles) now =
      let a = g.node.authenticator in
      (
        record g {
          node = record g.node {
            authenticator = record a { whitelist = Whitelist.allow net peer roles a.whitelist };
          };
        },
        [],
      )
  obey g (GuardControl.reload_whitelist entries) now = reload g entries

  -- The first branch of `select!`.
  unfoldable pub on_swarm :
      GuardLoop Peer → SwarmEvent Peer → Chance → GuardLoop Peer × List (Effect Peer)
  on_swarm g event c =
      let handled = handle_guard_event net g.node event c in
      (
        record g {
          node = handled.0;
          per_peer = elim event [
            | connection_closed peer zero ↦ remove net.peer peer g.per_peer
            | _ ↦ g.per_peer
          ];
        },
        handled.1,
      )

  -- One turn. A branch of `select!` whose guard fails does not run, and nothing runs after the
  -- loop has returned.
  unfoldable pub turn :
      Caps → GuardLoop Peer → Wake Peer → Chance → GuardLoop Peer × List (Effect Peer)
  unfolding accept_stream obey on_swarm finish drain_check
  turn caps g (swarm event) c = if g.stopped then (g, []) else on_swarm g event c
  turn caps g (stream peer) c = if g.stopped then (g, []) else accept_stream g peer
  turn caps g (command (some cmd) now) c =
      if g.stopped || not g.control_open then (g, []) else obey g cmd now
  turn caps g (command none now) c =
      if g.stopped then (g, []) else (record g { control_open = false }, [])
  turn caps g (tick now) c = if g.stopped then (g, []) else (drain_check caps g now, [])
  turn caps g (finished i outcome) c = (finish g i outcome, [])

-- ===== src/Client/Session.antt =====
-- crates/nux-core/src/node.rs, `run_client_session`: the loop that keeps a client's session, as a
-- machine on the events that come to it and to the call of `reauthenticate` inside it.
use nux_auth.Prelude.{
  ℕ, zero, suc, min, ◌*◌, ◌≡◌, refl, Bool, true, false, List, [], ◌∷◌, ◌++◌, arith, any,
  if◌then◌else◌, Eq, beq_refl, ◌||◌, sym, ap, ◌∙◌,
}
use mathlib.Core.List.{append-nil}
use nux_auth.Client.Backoff.{attempt_from, reauthenticate, max_backoff, initial_backoff}

-- `cancelled` is what another task does to the token, which stays cancelled; `heeded` is `select!`
-- when it takes the token's branch, which it can once the token is cancelled. With the end of a
-- connection come the connections that are left to the peer; `attempted` is the end of an attempt of
-- `reauthenticate`, with its pause where it failed.
pub data SessionEvent (Peer : Type 0) : Type 0 where
  cancelled heeded : SessionEvent Peer
  closed : Peer → ℕ → SessionEvent Peer
  attempted : Bool → SessionEvent Peer
  other : SessionEvent Peer

-- Where the call is: in the loop, inside `reauthenticate`, or in the grace period behind the loop;
-- and whether the token is cancelled.
pub data SessionState : Type 0 where
  serving reconnecting : Bool → SessionState
  draining : SessionState

or_false : (b : Bool) → b || false ≡ b
or_false b = ground arith

or_true : (b : Bool) → b || true ≡ true
or_true b = ground arith

module _ {Peer : Type 0} (e : Eq Peer) where
  -- The events of the swarm that come inside `reauthenticate` are taken by the wait of its attempt.
  unfoldable pub on_session : Peer → SessionState → SessionEvent Peer → SessionState
  on_session guard (serving token) cancelled = serving true
  on_session guard (serving token) heeded = if token then draining else serving token
  on_session guard (serving token) (closed peer zero) =
      if e.beq peer guard then reconnecting token else serving token
  on_session guard (serving token) (closed peer (suc n)) = serving token
  on_session guard (serving token) (attempted success) = serving token
  on_session guard (serving token) other = serving token
  on_session guard (reconnecting token) cancelled = reconnecting true
  on_session guard (reconnecting token) heeded = reconnecting token
  on_session guard (reconnecting token) (closed peer n) = reconnecting token
  on_session guard (reconnecting token) (attempted success) =
      if success then serving token else reconnecting token
  on_session guard (reconnecting token) other = reconnecting token
  on_session guard draining event = draining

  unfoldable pub run_client_session : Peer → SessionState → List (SessionEvent Peer) → SessionState
  unfolding on_session
  run_client_session guard state [] = state
  run_client_session guard state (event ∷ events) =
      run_client_session guard (on_session guard state event) events

  abbrev pub is_cancel : SessionEvent Peer → Bool
  is_cancel cancelled = true
  is_cancel _ = false

  -- What the attempts of `reauthenticate` come to.
  abbrev pub attempts : List (SessionEvent Peer) → List Bool
  attempts [] = []
  attempts (attempted success ∷ events) = success ∷ attempts events
  attempts (cancelled ∷ events) = attempts events
  attempts (heeded ∷ events) = attempts events
  attempts (closed peer n ∷ events) = attempts events
  attempts (other ∷ events) = attempts events

  reconnecting-stays :
      (guard : Peer) (token : Bool) (backoff : ℕ) (events rest : List (SessionEvent Peer))
      → (attempt_from backoff (attempts events)).1 ≡ false
      → run_client_session guard (reconnecting token) (events ++ rest)
        ≡ run_client_session guard (reconnecting (token || any is_cancel events)) rest
  unfolding run_client_session on_session attempt_from
  reconnecting-stays guard token backoff [] rest h =
      ap (λ t. run_client_session guard (reconnecting t) rest) (sym (or_false token))
  reconnecting-stays guard token backoff (cancelled ∷ events) rest h =
      reconnecting-stays guard true backoff events rest h
      ∙ ap (λ t. run_client_session guard (reconnecting t) rest) (sym (or_true token))
  reconnecting-stays guard token backoff (heeded ∷ events) rest h =
      reconnecting-stays guard token backoff events rest h
  reconnecting-stays guard token backoff (closed peer n ∷ events) rest h =
      reconnecting-stays guard token backoff events rest h
  reconnecting-stays guard token backoff (attempted true ∷ events) rest h = absurd (cc)
  reconnecting-stays guard token backoff (attempted false ∷ events) rest h =
      reconnecting-stays guard token (min (backoff * 2) max_backoff) events rest h
  reconnecting-stays guard token backoff (other ∷ events) rest h =
      reconnecting-stays guard token backoff events rest h

  lost :
      (guard : Peer) (token : Bool) (events : List (SessionEvent Peer))
      → run_client_session guard (serving token) (closed guard zero ∷ events)
        ≡ run_client_session guard (reconnecting token) events
  unfolding run_client_session on_session
  lost guard token events = rw (beq_refl e guard) refl

  heeds :
      (guard : Peer) (token : Bool)
      → run_client_session guard (reconnecting token) (attempted true ∷ heeded ∷ [])
        ≡ (if token then draining else serving false)
  unfolding run_client_session on_session
  heeds guard true = refl
  heeds guard false = refl

  -- A session that has lost its Guard is deaf to a shutdown until it is back: as long as
  -- `reauthenticate` does not return on its attempts, whatever else comes and in whatever order, the
  -- call stays inside it, and of a shutdown it keeps only that the token is cancelled. The first attempt
  -- that succeeds takes it back to the loop, where the shutdown, if one came now or before, is heeded.
  pub run_client_session-deaf :
      (guard : Peer) (token : Bool) (events : List (SessionEvent Peer))
      → (reauthenticate (attempts events)).1 ≡ false
      → (run_client_session guard (serving token) (closed guard zero ∷ events)
          ≡ reconnecting (token || any is_cancel events))
        × (run_client_session guard
              (serving token)
              (closed guard zero ∷ (events ++ (attempted true ∷ heeded ∷ [])))
            ≡ (if token || any is_cancel events then draining else serving false))
  unfolding run_client_session on_session reauthenticate
  run_client_session-deaf guard token events h = (
    lost guard token events
        ∙ ap (run_client_session guard (reconnecting token)) (sym (append-nil events))
        ∙ reconnecting-stays guard token initial_backoff events [] h,
    lost guard token (events ++ (attempted true ∷ heeded ∷ []))
        ∙ reconnecting-stays guard token initial_backoff events (attempted true ∷ heeded ∷ []) h
        ∙ heeds guard (token || any is_cancel events),
  )

-- ===== src/Gateway/Routes/Tests.antt =====
-- The routers over a concrete router: a path is one number, and an identity the text of one byte.
use nux_auth.Prelude.{
  ℕ, zero, suc, ◌≡◌, ◌≤◌, ◌+◌, ◌-◌, refl, arith, ◌++◌, List, [], ◌∷◌, Option, none, some, count,
  bytes_beq_iff,
}
use nux_auth.Gateway.{Text}
use nux_auth.Gateway.Limiter as Limiter
use nux_auth.Gateway.Bearer.{bearer}
use nux_auth.Gateway.Http.{Pattern, healthz, configs, node_state, Verb, ActorKind, Request, Axum}
use nux_auth.Gateway.Handlers.{World}
use nux_auth.Gateway.Routes.{admin_router}
use nux_auth.Gateway.Routes.Safety.{Guarded, admin_router-Guarded}
use nux_auth.Gateway.Routes.Kept.{is_private}
use nux_auth.Gateway.Routes.Budget.{Arrival, run, state_times, run-config, run_in_window}
use nux_auth.Gateway.Routes.Sample.{table_axum, toy_deps, world}

abbrev toy_matched : Text → Option Pattern
toy_matched [] = none
toy_matched (zero ∷ cs) = some healthz
toy_matched (suc zero ∷ cs) = some configs
toy_matched (suc (suc n) ∷ cs) = some node_state

abbrev toy_axum : Axum (World ℕ) Text
toy_axum = table_axum toy_matched

abbrev put_request : Request Text
put_request = record {
  verb = Verb.put;
  path = 1 ∷ [];
  query = none;
  authorization = some (bearer ++ 5 ∷ []);
  body = 3 ∷ [];
  limit = none;
  actor = none;
}

admin_router-Guarded_example :
    Guarded toy_axum toy_deps
      (5 ∷ [])
      put_request
      100
      world
      (toy_axum.serve (admin_router toy_axum toy_deps (5 ∷ [])) 100 world put_request)
admin_router-Guarded_example =
    admin_router-Guarded toy_axum toy_deps (5 ∷ []) 100 world put_request
      (λ a b sized. bytes_beq_iff a b)

-- "active", through both tunnels.
abbrev state_request : Request Text
state_request = record {
  verb = Verb.post;
  path = 2 ∷ [];
  query = none;
  authorization = none;
  body = 97 ∷ 99 ∷ 116 ∷ 105 ∷ 118 ∷ 101 ∷ [];
  limit = none;
  actor = none;
}

abbrev arrivals : List (Arrival Text)
arrivals =
    record { tunnel = ActorKind.guard; now = 101; request = state_request }
    ∷ record { tunnel = ActorKind.client; now = 159; request = state_request }
    ∷ record { tunnel = ActorKind.client; now = 300; request = put_request }
    ∷ []

run-config_example :
    ((run toy_axum toy_deps world arrivals).db ≡ world.db)
    × ((run toy_axum toy_deps world arrivals).sent ≡ world.sent)
run-config_example = run-config toy_axum toy_deps world arrivals

times : state_times toy_axum toy_deps arrivals ≡ 101 ∷ 159 ∷ []
unfolding state_times Limiter.new
times = refl

run_in_window_example :
    count is_private (run toy_axum toy_deps world arrivals).relayed
    ≤ count is_private world.relayed + (world.node_state.max_per_window - world.node_state.count)
unfolding state_times Limiter.new
run_in_window_example =
    run_in_window toy_axum toy_deps world arrivals (omega arith, (omega arith, tt)) (omega arith)

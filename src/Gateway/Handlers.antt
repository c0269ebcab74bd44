-- ===== src/Gateway/Handlers.antt =====
-- nux_gateway/src/handlers and the middlewares in front of them, as the routers call them.
use nux_auth.Prelude.{ℕ, ◌++◌, ◌&&◌, leb, Bool, List, Option, none, some, ok, err}
use nux_auth.Node.{GuardControl}
use nux_auth.Gateway.{
  Text, AppError, unauthorized, not_found, bad_request, dashboard_not_configured,
  dashboard_unreachable, rate_limited, internal, AppResult, ConfigNodeGuardInput, ConfigNodeGuard,
  Parsers,
}
use nux_auth.Gateway.Limiter.{WindowLimiter, enforce}
use nux_auth.Gateway.Configs.{Database, Json, put_config, get_config}
use nux_auth.Gateway.Bearer.{require_bearer}
use nux_auth.Gateway.Proxy as Proxy
use nux_auth.Gateway.Proxy.{
  DashboardRequest, Reply, AppState, post_node_state, device_code, device_status, public_key,
}
use nux_auth.Gateway.Http.{Answer, Request, Handler, Axum}

-- What the routers share: the database, the commands sent to the Guard, the requests sent to the
-- dashboard, and the two limiters.
pub record World (Peer : Type 0) : Type 0 where
  pub db : Database
  pub sent : List (GuardControl Peer)
  pub relayed : List DashboardRequest
  pub node_state : WindowLimiter
  pub get_config : WindowLimiter

-- The third-party code behind the handlers, and the state that no request changes. `stamp` is
-- `unix_now_string`, `probe` the status of the dashboard's own /healthz within two seconds.
pub record Deps (Peer Header : Type 0) : Type 0 where
  pub parse : Parsers Peer
  pub json : Json
  pub config_input : Text → Option ConfigNodeGuardInput
  pub state_input : Text → Option Text
  pub to_vec : Text → Text
  pub to_str : Header → Option Text
  pub constant_time_eq : Text → Text → Bool
  pub send : DashboardRequest → Option Reply
  pub probe : Option ℕ
  pub stamp : ℕ → Text
  pub state : AppState

-- `AppError::into_response`; the message of the body is left out.
abbrev pub status : AppError → ℕ
status unauthorized = 401
status not_found = 404
status bad_request = 400
status dashboard_not_configured = 503
status dashboard_unreachable = 503
status rate_limited = 429
status internal = 500

abbrev pub config_answer : Option (AppResult ConfigNodeGuard) → Answer
config_answer none = Answer.crashed
config_answer (some (err x)) = Answer.failed (status x)
config_answer (some (ok saved)) = Answer.config saved

abbrev pub proxy_answer : AppResult Proxy.Response → Answer
proxy_answer (err x) = Answer.failed (status x)
proxy_answer (ok r) = Answer.response r

module _ {Peer Header : Type 0} (x : Axum (World Peer) Header) (d : Deps Peer Header) where
  -- A body that is too long or that is not the JSON of the input is answered by axum.
  abbrev pub input_of : {A : Type 0} → (Text → Option A) → Request Header → Option A
  input_of decode q = elim (x.bytes q) [ none ↦ none | some body ↦ decode body ]

  abbrev pub put_with :
      ℕ → World Peer → Request Header → Option ConfigNodeGuardInput → World Peer × Answer
  put_with now w q none = (w, Answer.rejected)
  put_with now w q (some input) =
      let r = put_config d.parse d.json w.db (x.param q) input (d.stamp now) in
      (
        record w { db = record w.db { rows = r.table }; sent = w.sent ++ r.sent },
        config_answer r.answer,
      )

  unfoldable pub handle_put_config : Handler (World Peer) Header
  handle_put_config now w q = put_with now w q (input_of d.config_input q)

  unfoldable pub handle_get_config : Handler (World Peer) Header
  handle_get_config now w q = (w, config_answer (get_config d.parse d.json w.db (x.param q)))

  abbrev pub relaying : World Peer → Proxy.Handled → World Peer × Answer
  relaying w r = (record w { relayed = w.relayed ++ r.sent }, proxy_answer r.answer)

  abbrev pub state_with : World Peer → Request Header → Option Text → World Peer × Answer
  state_with w q none = (w, Answer.rejected)
  state_with w q (some new_state) =
      relaying w (post_node_state d.send d.state d.parse.peer_id d.to_vec (x.param q) new_state)

  -- The actor that the router has put into the request is only logged.
  unfoldable pub handle_node_state : Handler (World Peer) Header
  handle_node_state now w q = state_with w q (input_of d.state_input q)

  unfoldable pub handle_device_code : Handler (World Peer) Header
  handle_device_code now w q = elim (x.bytes q) [
    | none ↦ (w, Answer.rejected)
    | some body ↦ relaying w (device_code d.send d.state body)
  ]

  unfoldable pub handle_device_status : Handler (World Peer) Header
  handle_device_status now w q = relaying w (device_status d.send d.state q.query)

  unfoldable pub handle_public_key : Handler (World Peer) Header
  handle_public_key now w q = relaying w (public_key d.send d.state)

  -- The status of the answer does not depend on the dashboard.
  unfoldable pub handle_healthz : Handler (World Peer) Header
  handle_healthz now w q = (
    w,
    Answer.health (elim d.probe [ none ↦ Bool.false | some code ↦ leb 200 code && leb code 299 ]),
  )

  -- The middleware of the administrator's route.
  unfoldable pub with_bearer : Text → Handler (World Peer) Header → Handler (World Peer) Header
  with_bearer token h now w q =
      elim (require_bearer d.to_str d.constant_time_eq token q.authorization (ok (h now w q))) [
        | err e ↦ (w, Answer.failed (status e))
        | ok served ↦ served
      ]

  -- The middleware `enforce` with the limiter of the state's route, and of the configurations'.
  unfoldable pub limit_node_state : Handler (World Peer) Header → Handler (World Peer) Header
  unfolding enforce
  limit_node_state h now w q =
      let (l, passed) = enforce w.node_state now (ok tt) in
      let counted : World Peer = record w { node_state = l } in
      elim passed [ err e ↦ (counted, Answer.failed (status e)) | ok _ ↦ h now counted q ]

  unfoldable pub limit_get_config : Handler (World Peer) Header → Handler (World Peer) Header
  unfolding enforce
  limit_get_config h now w q =
      let (l, passed) = enforce w.get_config now (ok tt) in
      let counted : World Peer = record w { get_config = l } in
      elim passed [ err e ↦ (counted, Answer.failed (status e)) | ok _ ↦ h now counted q ]

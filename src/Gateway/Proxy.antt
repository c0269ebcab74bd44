-- ===== src/Gateway/Proxy.antt =====
-- nux_gateway/src/handlers/proxy.rs and nux_gateway/src/handlers/node_state.rs: what the gateway
-- passes on to the dashboard. The client for HTTP is a parameter: `send` is what a request comes to.
use nux_auth.Prelude.{
  ℕ, ◌≡◌, ◌↔◌, Bool, true, not, List, [], ◌∷◌, ◌++◌, Option, none, some, arith, any, bytes_beq,
  is_some, is_none, if◌then◌else◌, ok, err, Option-cases, inl, inr,
}
use nux_auth.Gateway.{Text, AppError, AppResult}

pub data Method : Type 0 where
  get post : Method

-- A request to the dashboard: nothing of the caller's headers is in it.
pub record DashboardRequest : Type 0 where
  pub method : Method
  pub url : Text
  pub body : Option Text
  pub bearer : Option Text

pub record Response : Type 0 where
  pub status : ℕ
  pub content_type : Option Text
  pub body : Text

-- What comes back: the head, whether the body could be read, and whether the parts make a response.
pub record Reply : Type 0 where
  pub status : ℕ
  pub content_type : Option Text
  pub body : Option Text
  pub assembles : Bool

pub record AppState : Type 0 where
  pub dashboard_base_url : Text
  pub dashboard_token : Option Text

-- The requests that a handler has sent, and its answer.
pub record Handled : Type 0 where
  pub sent : List DashboardRequest
  pub answer : AppResult Response

-- "/api/v1/public/device/code"
abbrev pub device_code_path : Text
device_code_path =
    47 ∷ 97 ∷ 112 ∷ 105 ∷ 47 ∷ 118 ∷ 49 ∷ 47 ∷ 112 ∷ 117 ∷ 98 ∷ 108 ∷ 105 ∷ 99 ∷ 47 ∷ 100 ∷ 101
    ∷ 118 ∷ 105 ∷ 99 ∷ 101 ∷ 47 ∷ 99 ∷ 111 ∷ 100 ∷ 101 ∷ []

-- "/api/v1/public/device/status"
abbrev pub device_status_path : Text
device_status_path =
    47 ∷ 97 ∷ 112 ∷ 105 ∷ 47 ∷ 118 ∷ 49 ∷ 47 ∷ 112 ∷ 117 ∷ 98 ∷ 108 ∷ 105 ∷ 99 ∷ 47 ∷ 100 ∷ 101
    ∷ 118 ∷ 105 ∷ 99 ∷ 101 ∷ 47 ∷ 115 ∷ 116 ∷ 97 ∷ 116 ∷ 117 ∷ 115 ∷ []

-- "/api/v1/public/keys/public.pem"
abbrev pub public_key_path : Text
public_key_path =
    47 ∷ 97 ∷ 112 ∷ 105 ∷ 47 ∷ 118 ∷ 49 ∷ 47 ∷ 112 ∷ 117 ∷ 98 ∷ 108 ∷ 105 ∷ 99 ∷ 47 ∷ 107 ∷ 101
    ∷ 121 ∷ 115 ∷ 47 ∷ 112 ∷ 117 ∷ 98 ∷ 108 ∷ 105 ∷ 99 ∷ 46 ∷ 112 ∷ 101 ∷ 109 ∷ []

-- "/api/v1/private/nodes/"
abbrev pub nodes_path : Text
nodes_path =
    47 ∷ 97 ∷ 112 ∷ 105 ∷ 47 ∷ 118 ∷ 49 ∷ 47 ∷ 112 ∷ 114 ∷ 105 ∷ 118 ∷ 97 ∷ 116 ∷ 101 ∷ 47 ∷ 110
    ∷ 111 ∷ 100 ∷ 101 ∷ 115 ∷ 47 ∷ []

-- "/state"
abbrev pub state_path : Text
state_path = 47 ∷ 115 ∷ 116 ∷ 97 ∷ 116 ∷ 101 ∷ []

-- "active", "inactive", "relay" and "suspended"
abbrev pub allowed_states : List Text
allowed_states =
    (97 ∷ 99 ∷ 116 ∷ 105 ∷ 118 ∷ 101 ∷ [])
    ∷ (105 ∷ 110 ∷ 97 ∷ 99 ∷ 116 ∷ 105 ∷ 118 ∷ 101 ∷ [])
    ∷ (114 ∷ 101 ∷ 108 ∷ 97 ∷ 121 ∷ [])
    ∷ (115 ∷ 117 ∷ 115 ∷ 112 ∷ 101 ∷ 110 ∷ 100 ∷ 101 ∷ 100 ∷ [])
    ∷ []

-- A query that is there and not empty, behind its question mark.
abbrev pub with_query : Text → Option Text → Text
with_query url none = url
with_query url (some []) = url
with_query url (some (c ∷ cs)) = url ++ (63 ∷ c ∷ cs)

abbrev pub response_of : Reply → AppResult Response
response_of r = elim r.body [
  | none ↦ err AppError.dashboard_unreachable
  | some body ↦
      if r.assembles
      then ok (record { status = r.status; content_type = r.content_type; body = body })
      else err AppError.internal
]

module _ (send : DashboardRequest → Option Reply) (state : AppState) where
  unfoldable pub forward_to_dashboard :
      Method → Text → Option Text → Option Text → Option Text → Handled
  forward_to_dashboard method path query body bearer =
      let r : DashboardRequest = record {
        method = method;
        url = with_query (state.dashboard_base_url ++ path) query;
        body = body;
        bearer = bearer;
      } in
      record {
        sent = r ∷ [];
        answer = elim (send r) [
          | none ↦ err AppError.dashboard_unreachable
          | some reply ↦ response_of reply
        ];
      }

  unfoldable pub device_code : Text → Handled
  device_code body = forward_to_dashboard post device_code_path none (some body) none

  unfoldable pub device_status : Option Text → Handled
  device_status query = forward_to_dashboard get device_status_path query none none

  unfoldable pub public_key : Handled
  public_key = forward_to_dashboard get public_key_path none none none

  abbrev pub refused : AppError → Handled
  refused e = record { sent = []; answer = err e }

  -- `peer_id` is the parser of identities, and `to_vec` the encoding of the body.
  unfoldable pub post_node_state :
      {Peer : Type 0} → (Text → Option Peer) → (Text → Text) → Text → Text → Handled
  unfolding forward_to_dashboard
  post_node_state parse to_vec peer_id new_state =
      if is_none (parse peer_id)
      then refused AppError.bad_request
      else if not (any (bytes_beq new_state) allowed_states)
      then refused AppError.bad_request
      else elim state.dashboard_token [
        | none ↦ refused AppError.dashboard_not_configured
        | some token ↦
            forward_to_dashboard post (nodes_path ++ (peer_id ++ state_path)) none
              (some (to_vec new_state)) (some token)
      ]

  -- A change of state goes to the dashboard exactly if the identity parses, the state is one of the
  -- four, and a token is configured; then it is one request, with that token.
  pub post_node_state-sent :
      {Peer : Type 0} (parse : Text → Option Peer) (to_vec : Text → Text) (peer_id new_state : Text)
      (r : DashboardRequest)
      → ((post_node_state parse to_vec peer_id new_state).sent ≡ r ∷ []) ↔ (
          (is_some (parse peer_id) ≡ true)
          × (any (bytes_beq new_state) allowed_states ≡ true)
          × (token : Text) × (state.dashboard_token ≡ some token)
          × (r ≡ record {
            method = post;
            url = state.dashboard_base_url ++ (nodes_path ++ (peer_id ++ state_path));
            body = some (to_vec new_state);
            bearer = some token;
          }))
  unfolding post_node_state forward_to_dashboard
  post_node_state-sent parse to_vec peer_id new_state r =
      elim (Option-cases state.dashboard_token) [
        | inl missing ↦ (λ h. absurd (ground arith), λ h. absurd (ground arith))
        | inr (token, set) ↦ (
          λ h. (ground arith, ground arith, token, set, ground arith),
          λ h. ground (arith, h.0, h.1, h.3, h.4),
        )
      ]

-- ===== src/Gateway/Routes/Sample.antt =====
-- An instance of axum and of the other third-party code of the gateway, for the tests.
use nux_auth.Prelude.{
  ℕ, ◌≡◌, ◌<◌, refl, true, [], ◌∷◌, Option, none, some, length, ltb, lt→ltb, bytes_beq,
  if◌then◌else◌,
}
use nux_auth.Gateway.{Text, ConfigNodeGuardInput}
use nux_auth.Gateway.Sample.{sample_json}
use nux_auth.Gateway.Http.{
  Pattern, Request, Answer, Handler, Methods, Axum, only, wrapped, or_else, same, pick,
}
use nux_auth.Gateway.Handlers.{World, Deps}
use nux_auth.Gateway.Routes.{sensitive_limiter}

pub record Routed : Type 0 where
  pub at : Pattern → Option (Methods (World ℕ) Text)
  pub fallback : Handler (World ℕ) Text

abbrev pub refuse : ℕ → World ℕ → Request Text → World ℕ × Answer
refuse now w q = (w, Answer.rejected)

abbrev pub toy_bytes : Option ℕ → Text → Option Text
toy_bytes none body = some body
toy_bytes (some n) body = if ltb n (length body) then none else some body

pub toy_bytes-within :
    (l : Option ℕ) (body : Text) (n : ℕ) → l ≡ some n → n < length body → toy_bytes l body ≡ none
toy_bytes-within l body n e long = rw (e, lt→ltb n (length body) long) refl

-- A router is a table of its patterns and a fallback; `matched` is the match of paths.
abbrev pub table_axum : (Text → Option Pattern) → Axum (World ℕ) Text
table_axum matched = record {
  Router = Routed;
  new = record { at = λ p. none; fallback = refuse };
  route = λ q v h r. record r { at = λ p. if same q p then some (only refuse v h) else r.at p };
  route_layer = λ f r. record r { at = λ p. wrapped f (r.at p) };
  layer = λ f r. record { at = λ p. wrapped f (r.at p); fallback = f r.fallback };
  merge = λ a b. record a { at = λ p. or_else (a.at p) (b.at p) };
  serve = λ r now w q. pick (matched q.path) r.at r.fallback q.verb now w q;
  not_found = refuse;
  not_allowed = refuse;
  matched = matched;
  param = λ q. 7 ∷ [];
  bytes = λ q. toy_bytes q.limit q.body;
  at = λ r. r.at;
  fallback = λ r. r.fallback;
  at-new = λ p. refl;
  at-route = λ r q p v h. refl;
  at-route_layer = λ r p f. refl;
  at-layer = λ r p f. refl;
  at-merge = λ a b p apart. refl;
  fallback-new = refl;
  fallback-route = λ r q v h. refl;
  fallback-route_layer = λ r f. refl;
  fallback-layer = λ r f. refl;
  fallback-merge = λ a b plain. refl;
  serve_lem = λ r now w q. refl;
  bytes_within = λ q n e long. toy_bytes-within q.limit q.body n e long;
  not_found_still = λ now w q. refl;
  not_allowed_still = λ now w q. refl;
}

abbrev pub input : ConfigNodeGuardInput
input = record {
  rate_limit = record { max = 30; window_secs = 60; exempt = [] };
  allow = record { peer = 8 ∷ []; roles = [] } ∷ [];
  check_sum = [];
}

abbrev pub toy_deps : Deps ℕ Text
toy_deps = record {
  parse = record {
    peer_id = λ t. elim t [ [] ↦ none | y ∷ ys ↦ some y ];
    ip_addr = λ t. true;
    hex_decode = some;
    trim = λ t. t;
  };
  json = sample_json;
  config_input = λ body. some input;
  state_input = some;
  to_vec = λ t. t;
  to_str = some;
  constant_time_eq = bytes_beq;
  send = λ r. none;
  probe = none;
  stamp = λ now. now ∷ [];
  state = record { dashboard_base_url = []; dashboard_token = some (9 ∷ []) };
}

abbrev pub world : World ℕ
world = record {
  db = record { rows = []; works = true };
  sent = [];
  relayed = [];
  node_state = sensitive_limiter 100;
  get_config = sensitive_limiter 100;
}

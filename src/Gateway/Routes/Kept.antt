-- ===== src/Gateway/Routes/Kept.antt =====
-- What one handler behind a tunnel can change.
use nux_auth.Prelude.{
  ℕ, ◌+◌, ◌≡◌, ◌≤◌, refl, ap, sym, subst, arith, Bool, true, false, ◌++◌, List, Option, none, some,
  count, count-append, is_some, Bool-cases, Option-cases, inl, inr, if◌then◌else◌,
}
use nux_auth.Gateway.Limiter.{WindowLimiter, allow, enforce}
use nux_auth.Gateway.Proxy as Proxy
use nux_auth.Gateway.Proxy.{DashboardRequest, forward_to_dashboard, post_node_state, public_key}
use nux_auth.Gateway.Http.{Pattern, node_state, Verb, Request, Handler, Axum, only, accepts}
use nux_auth.Gateway.Handlers.{
  World, Deps, handle_get_config, handle_node_state, handle_device_code, handle_device_status,
  handle_public_key, limit_node_state, limit_get_config, input_of, state_with,
}

-- A request to the dashboard with the gateway's own token.
abbrev pub is_private : DashboardRequest → Bool
is_private r = is_some r.bearer

abbrev pub is_state : Option Pattern → Bool
is_state (some node_state) = true
is_state _ = false

module _ {Peer Header : Type 0} (x : Axum (World Peer) Header) (d : Deps Peer Header) where
  -- What one request does: nothing to the configurations and the whitelist, and at most one request
  -- with the token, where the shared limiter admits it.
  pub record Kept (w : World Peer) (hit : Bool) (now : ℕ) (w' : World Peer) : Type 0 where
    pub db : w'.db ≡ w.db
    pub sent : w'.sent ≡ w.sent
    pub limiter : w'.node_state ≡ (if hit then (allow w.node_state now).0 else w.node_state)
    pub private :
        count is_private w'.relayed
        ≤ count is_private w.relayed
          + (if hit then (if (allow w.node_state now).1 then 1 else 0) else 0)

  pub same-Kept : (w w' : World Peer) (now : ℕ) → w' ≡ w → Kept w false now w'
  same-Kept w w' now e =
      subst (Kept w false now) (sym e)
        (record { db = refl; sent = refl; limiter = refl; private = omega arith })

  pub post_node_state-private :
      (peer_id new_state : List ℕ)
      → count is_private
          (post_node_state d.send d.state d.parse.peer_id d.to_vec peer_id new_state).sent
        ≤ 1
  unfolding post_node_state forward_to_dashboard
  post_node_state-private peer_id new_state = ground arith

  -- What a handler may do behind the limiter.
  pub record Mild (w w' : World Peer) : Type 0 where
    pub db : w'.db ≡ w.db
    pub sent : w'.sent ≡ w.sent
    pub limiter : w'.node_state ≡ w.node_state
    pub private : count is_private w'.relayed ≤ count is_private w.relayed + 1

  pub same-Mild : (w w' : World Peer) → w' ≡ w → Mild w w'
  same-Mild w w' e =
      subst (Mild w) (sym e)
        (record { db = refl; sent = refl; limiter = refl; private = omega arith })

  pub relayed-Mild :
      (w : World Peer) (requests : List DashboardRequest)
      → count is_private requests ≤ 1
      → Mild w (record w { relayed = w.relayed ++ requests })
  relayed-Mild w requests few = record {
    db = refl;
    sent = refl;
    limiter = refl;
    private = omega (arith, count-append is_private w.relayed requests);
  }

  pub state_with-Mild :
      (w : World Peer) (q : Request Header) (new_state : Option (List ℕ))
      → Mild w (state_with x d w q new_state).0
  state_with-Mild w q none = same-Mild w w refl
  state_with-Mild w q (some new_state) =
      relayed-Mild w _ (post_node_state-private (x.param q) new_state)

  pub state_only-Mild :
      (v : Verb) (now : ℕ) (w : World Peer) (q : Request Header)
      → Mild w (only x.not_allowed Verb.post (handle_node_state x d) v now w q).0
  unfolding handle_node_state
  state_only-Mild v now w q = elim (Bool-cases (accepts Verb.post v)) [
    | inl on ↦ rw on (state_with-Mild w q (input_of x d d.state_input q))
    | inr off ↦ rw off (same-Mild w _ (x.not_allowed_still now w q))
  ]

  pub limited-admitted :
      (h : Handler (World Peer) Header) (now : ℕ) (w : World Peer) (q : Request Header)
      → (allow w.node_state now).1 ≡ true
      → limit_node_state x d h now w q
        ≡ h now (record w { node_state = (allow w.node_state now).0 }) q
  unfolding limit_node_state enforce
  limited-admitted h now w q on = ground arith

  pub limited-refused :
      (h : Handler (World Peer) Header) (now : ℕ) (w : World Peer) (q : Request Header)
      → (allow w.node_state now).1 ≡ false
      → (limit_node_state x d h now w q).0 ≡ record w { node_state = (allow w.node_state now).0 }
  unfolding limit_node_state enforce
  limited-refused h now w q off = ground arith

  pub limited-Kept :
      (h : Handler (World Peer) Header) (now : ℕ) (w : World Peer) (q : Request Header)
      → Mild
          (record w { node_state = (allow w.node_state now).0 })
          (h now (record w { node_state = (allow w.node_state now).0 }) q).0
      → Kept w true now (limit_node_state x d h now w q).0
  limited-Kept h now w q mild = elim (Bool-cases (allow w.node_state now).1) [
    | inr off ↦
        subst (Kept w true now) (sym (limited-refused h now w q off))
          (record { db = refl; sent = refl; limiter = refl; private = omega arith })
    | inl on ↦
        subst (Kept w true now) (sym (ap (λ r. r.0) (limited-admitted h now w q on))) (record {
          db = mild.db;
          sent = mild.sent;
          limiter = mild.limiter;
          private = ground (arith, mild.private);
        })
  ]

  -- A request that does not ask for the state: nothing goes to the dashboard with the token.
  pub open-Kept :
      (w : World Peer) (now : ℕ) (requests : List DashboardRequest)
      → count is_private requests ≡ 0
      → Kept w false now (record w { relayed = w.relayed ++ requests })
  open-Kept w now requests none_private = record {
    db = refl;
    sent = refl;
    limiter = refl;
    private = omega (arith, count-append is_private w.relayed requests);
  }

  pub config_read-Kept :
      (v : Verb) (now : ℕ) (w : World Peer) (q : Request Header)
      → Kept w false now (only x.not_allowed Verb.get (handle_get_config x d) v now w q).0
  unfolding handle_get_config
  config_read-Kept v now w q = elim (Bool-cases (accepts Verb.get v)) [
    | inr off ↦ rw off (same-Kept w _ now (x.not_allowed_still now w q))
    | inl on ↦ rw on (same-Kept w w now refl)
  ]

  -- The limiter of the configurations is another one.
  pub counted-Kept :
      (w w' : World Peer) (l : WindowLimiter) (now : ℕ)
      → Kept (record w { get_config = l }) false now w'
      → Kept w false now w'
  counted-Kept w w' l now k = record {
    db = k.db;
    sent = k.sent;
    limiter = k.limiter;
    private = k.private;
  }

  pub configs-Kept :
      (h : Handler (World Peer) Header) (now : ℕ) (w : World Peer) (q : Request Header)
      → Kept w false now (h now (record w { get_config = (allow w.get_config now).0 }) q).0
      → Kept w false now (limit_get_config x d h now w q).0
  unfolding limit_get_config enforce
  configs-Kept h now w q k =
      let counted : World Peer = record w { get_config = (allow w.get_config now).0 } in
      elim (Bool-cases (allow w.get_config now).1) [
        | inr off ↦
            let refused : (limit_get_config x d h now w q).0 ≡ counted = ground arith in
            subst (Kept w false now) (sym refused)
              (record { db = refl; sent = refl; limiter = refl; private = omega arith })
        | inl on ↦
            let passed : limit_get_config x d h now w q ≡ h now counted q = ground arith in
            subst (Kept w false now) (sym (ap (λ r. r.0) passed)) k
      ]

  pub code_with-Kept :
      (now : ℕ) (w : World Peer) (q : Request Header)
      → Kept w false now (handle_device_code x d now w q).0
  unfolding handle_device_code Proxy.device_code forward_to_dashboard
  code_with-Kept now w q = elim (Option-cases (x.bytes q)) [
    | inl bad ↦
        let refused : (handle_device_code x d now w q).0 ≡ w = ground arith in
        same-Kept w _ now refused
    | inr (body, good) ↦
        let passed : (handle_device_code x d now w q).0
            ≡ record w { relayed = w.relayed ++ (Proxy.device_code d.send d.state body).sent } =
          ground arith in
        subst (Kept w false now) (sym passed) (open-Kept w now _ refl)
  ]

  pub device_code-Kept :
      (v : Verb) (now : ℕ) (w : World Peer) (q : Request Header)
      → Kept w false now (only x.not_allowed Verb.post (handle_device_code x d) v now w q).0
  device_code-Kept v now w q = elim (Bool-cases (accepts Verb.post v)) [
    | inr off ↦ rw off (same-Kept w _ now (x.not_allowed_still now w q))
    | inl on ↦ rw on (code_with-Kept now w q)
  ]

  pub device_status-Kept :
      (v : Verb) (now : ℕ) (w : World Peer) (q : Request Header)
      → Kept w false now (only x.not_allowed Verb.get (handle_device_status x d) v now w q).0
  unfolding handle_device_status Proxy.device_status forward_to_dashboard
  device_status-Kept v now w q = elim (Bool-cases (accepts Verb.get v)) [
    | inr off ↦ rw off (same-Kept w _ now (x.not_allowed_still now w q))
    | inl on ↦ rw on (open-Kept w now _ refl)
  ]

  pub public_key-Kept :
      (v : Verb) (now : ℕ) (w : World Peer) (q : Request Header)
      → Kept w false now (only x.not_allowed Verb.get (handle_public_key x d) v now w q).0
  unfolding handle_public_key public_key forward_to_dashboard
  public_key-Kept v now w q = elim (Bool-cases (accepts Verb.get v)) [
    | inr off ↦ rw off (same-Kept w _ now (x.not_allowed_still now w q))
    | inl on ↦ rw on (open-Kept w now _ refl)
  ]

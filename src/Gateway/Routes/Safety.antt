-- ===== src/Gateway/Routes/Safety.antt =====
-- What a request to a router can change.
use nux_auth.Prelude.{
  ℕ, ◌≡◌, ◌≤◌, ◌<◌, ◌↔◌, ◌⊎◌, inl, inr, refl, ◌∙◌, ap, sym, subst, arith, true, ◌&&◌, ◌++◌, ◌==◌,
  Option, none, some, length, ltb, Option-cases, Bool-cases,
}
use nux_auth.Gateway.{Text}
use nux_auth.Gateway.Bearer.{bearer, require_bearer, presented, presented_iff}
use nux_auth.Gateway.Http.{
  Pattern, healthz, configs, node_state, device_code, device_status, public_pem, Verb, get, head,
  post, put, other, Request, Answer, Handler, Axum, only, pick, accepts,
}
use nux_auth.Gateway.Handlers.{
  World, Deps, handle_put_config, handle_healthz, with_bearer, put_with,
}
use nux_auth.Gateway.Routes.{max_body_bytes, body_limit, admin_router}
use nux_auth.Gateway.Routes.Served.{admin_at}
use nux_auth.Gateway.Routes.Serves.{admin_router-serve}

module _ {Peer Header : Type 0} (x : Axum (World Peer) Header) (d : Deps Peer Header) where
  -- The header of the request is the word Bearer, a space and the token.
  pub record HasToken (token : Text) (q : Request Header) : Type 0 where
    pub header : Header
    pub sent : q.authorization ≡ some header
    pub shown : d.to_str header ≡ some (bearer ++ token)

  abbrev pub Compares : Type 0
  Compares = (a b : Text) → length a ≡ length b → (d.constant_time_eq a b ≡ true) ↔ (a ≡ b)

  with_bearer-cases :
      (token : Text) (h : Handler (World Peer) Header) (now : ℕ) (w : World Peer)
      (q : Request Header)
      → Compares
      → ((with_bearer x d token h now w q ≡ h now w q) × HasToken token q)
        ⊎ ((with_bearer x d token h now w q).0 ≡ w)
  unfolding with_bearer require_bearer
  with_bearer-cases token h now w q same = elim (Option-cases q.authorization) [
    | inl missing ↦ inr (ground arith)
    | inr (header, sent) ↦
        elim (Option-cases (presented d.to_str d.constant_time_eq (some header))) [
          | inl bad ↦ inr (ground arith)
          | inr (t, good) ↦
              elim (Bool-cases ((length t == length token) && d.constant_time_eq t token)) [
                | inl fits ↦
                    let who : t ≡ token = ground (arith, same t token) in
                    inl (
                      ground arith,
                      record {
                        header = header;
                        sent = sent;
                        shown = ground (
                          arith,
                          who,
                          presented_iff d.to_str d.constant_time_eq header t,
                          presented_iff d.to_str d.constant_time_eq header token,
                        );
                      },
                    )
                | inr off ↦ inr (ground arith)
              ]
        ]
  ]

  -- A request that the administrator's route takes: its verb, its token and the length of its body.
  pub record Authorised (token : Text) (q : Request Header) : Type 0 where
    pub verb_put : q.verb ≡ put
    pub has_token : HasToken token q
    pub fits : length q.body ≤ max_body_bytes

  -- What a request may come to: nothing changes, or the configuration is handled.
  abbrev pub Guarded : Text → Request Header → ℕ → World Peer → World Peer × Answer → Type 0
  Guarded token q now w r =
      (r.0 ≡ w)
      ⊎ (Authorised token q
          × (r ≡ handle_put_config x d now w (record q { limit = some max_body_bytes })))

  put_only :
      (v : Verb) (h : Handler (World Peer) Header)
      → ((v ≡ put) × (only x.not_allowed put h v ≡ h))
        ⊎ (only x.not_allowed put h v ≡ x.not_allowed)
  put_only get h = inr refl
  put_only head h = inr refl
  put_only post h = inr refl
  put_only put h = inl (refl, refl)
  put_only other h = inr refl

  -- A body behind the limit is not even read.
  handle_put_config-long :
      (now : ℕ) (w : World Peer) (q : Request Header)
      → max_body_bytes < length q.body
      → (handle_put_config x d now w (record q { limit = some max_body_bytes })).0 ≡ w
  unfolding handle_put_config
  handle_put_config-long now w q long =
      let limited : Request Header = record q { limit = some max_body_bytes } in
      ap
        (λ (b : Option Text).
          (put_with x d now w limited (elim b [ none ↦ none | some body ↦ d.config_input body ])).0)
        (x.bytes_within limited max_body_bytes refl long)

  put_route-Guarded :
      (token : Text) (now : ℕ) (w : World Peer) (q : Request Header)
      → Compares
      → Guarded token q now w (
          with_bearer x d token
            (only x.not_allowed put (handle_put_config x d) q.verb)
            now
            w
            (record q { limit = some max_body_bytes }))
  put_route-Guarded token now w q same =
      let limited : Request Header = record q { limit = some max_body_bytes } in
      let h = only x.not_allowed put (handle_put_config x d) q.verb in
      elim (with_bearer-cases token h now w limited same) [
        | inr still ↦ inl still
        | inl (served, has) ↦ elim (put_only q.verb (handle_put_config x d)) [
          | inr off ↦ inl (
              ap (λ r. r.0) (served ∙ ap (λ f. f now w limited) off)
              ∙ x.not_allowed_still now w limited)
          | inl (verb, on) ↦
              let handled = served ∙ ap (λ f. f now w limited) on in
              elim (Bool-cases (ltb max_body_bytes (length q.body))) [
                | inl long ↦
                    inl (ap (λ r. r.0) handled ∙ handle_put_config-long now w q (ground arith))
                | inr short ↦ inr (
                  record {
                    verb_put = verb;
                    has_token = record { header = has.header; sent = has.sent; shown = has.shown };
                    fits = ground arith;
                  },
                  handled,
                )
              ]
        ]
      ]

  admin_pick-Guarded :
      (token : Text) (now : ℕ) (w : World Peer) (q : Request Header) (matched : Option Pattern)
      → Compares
      → Guarded token q now w
          (pick matched (admin_at x d token) (body_limit max_body_bytes x.not_found) q.verb now w q)
  unfolding handle_healthz
  admin_pick-Guarded token now w q none same = inl (x.not_found_still now w _)
  admin_pick-Guarded token now w q (some configs) same = put_route-Guarded token now w q same
  admin_pick-Guarded token now w q (some healthz) same = elim (Bool-cases (accepts get q.verb)) [
    | inl on ↦ inl (ground arith)
    | inr off ↦ inl (rw off (x.not_allowed_still now w _))
  ]
  admin_pick-Guarded token now w q (some node_state) same = inl (x.not_found_still now w _)
  admin_pick-Guarded token now w q (some device_code) same = inl (x.not_found_still now w _)
  admin_pick-Guarded token now w q (some device_status) same = inl (x.not_found_still now w _)
  admin_pick-Guarded token now w q (some public_pem) same = inl (x.not_found_still now w _)

  -- A request to the administrator's port changes nothing, unless it is a PUT with the word Bearer
  -- and the token of the administrator and a body of at most 64 KiB, and then what it changes and is
  -- answered is what `put_config` makes of it.
  pub admin_router-Guarded :
      (token : Text) (now : ℕ) (w : World Peer) (q : Request Header)
      → Compares
      → Guarded token q now w (x.serve (admin_router x d token) now w q)
  admin_router-Guarded token now w q same =
      subst (Guarded token q now w) (sym (admin_router-serve x d token now w q))
        (admin_pick-Guarded token now w q (x.matched q.path) same)

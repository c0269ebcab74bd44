-- ===== src/Cli/Client/Opens.antt =====
-- A client opens no local port before its Guard has let it in.
use nux_auth.Prelude.{
  ℕ, ◌≡◌, ◌⊎◌, inl, inr, refl, arith, true, List, [], Option, some, Eq, ok, Result-cases,
  Bool-cases,
}
use nux_auth.Gateway.{Text}
use nux_auth.Identity.{Ed25519}
use nux_auth.Node.{NodeMode}
use nux_auth.Protocol.{NuxRequest}
use nux_auth.Builder.{Host, Built, build}
use nux_auth.Client.{ClientEvent, wait_for_peer}
use nux_auth.Client.Handshake.{authenticate}
use nux_auth.Client.Grants.{Earned, authenticate-Earned}
use nux_auth.Cli.Args.{DialTarget, Protocol}
use nux_auth.Cli.Dial.{join_guard, Joined, join_guard-Joined, waited}
use nux_auth.Cli.Start.{builder}
use nux_auth.Cli.Client.{World, serve_guard, start_client}

module _ {Peer Name Keypair File Multiaddr Ip : Type 0} (e : Eq Peer) (names : Eq Name)
    (namespace : Text → Option Name) (keys : Ed25519 Keypair) (ip : Eq Ip)
    (host : Host Keypair File Multiaddr) (sign : Keypair → List ℕ → Option (List ℕ)) where
  -- What stands behind an open port: the Guard that was asked for is joined, and behind a connection
  -- to it its handshake has earned roles with the node's own key.
  pub record LetIn (w : World e names namespace) (target : DialTarget (List (Protocol Peer)))
      (identity : Option File) : Type 0 where
    pub node : Built Keypair Multiaddr Ip
    pub built : build keys ip host (builder host NodeMode.client identity) ≡ ok node
    pub found : Peer × List (Protocol Peer)
    pub joined : Joined e names namespace w.dial target found
    pub events : List (ClientEvent Peer)
    pub connected :
        ((w.connected ≡ true) × (events ≡ w.events))
        ⊎ (wait_for_peer e found.0 w.events ≡ some (ok events))
    pub roles : List (List ℕ)
    pub sent : List NuxRequest
    pub earned : Earned e (sign node.keypair) found.0 w.first w.second w.clock events roles sent

  -- The events that a handshake with roles has seen behind the connection.
  abbrev Heard : Keypair → World e names namespace → Peer → List (List ℕ) → Type 0
  Heard keypair w peer roles =
      (events : List (ClientEvent Peer)) × (((w.connected ≡ true) × (events ≡ w.events))
        ⊎ (wait_for_peer e peer w.events ≡ some (ok events)))
      × (sent : List NuxRequest) × Earned e (sign keypair) peer w.first w.second w.clock events
          roles sent

  handshake-Heard :
      (keypair : Keypair) (w : World e names namespace) (peer : Peer) (roles : List (List ℕ))
      → (authenticate e (sign keypair) w.connected peer w.first w.second w.clock w.events).outcome
        ≡ some (ok roles)
      → Heard keypair w peer roles
  unfolding authenticate
  handshake-Heard keypair w peer roles h = elim (Bool-cases w.connected) [
    | inl there ↦
        let same : (authenticate e (sign keypair) true peer w.first w.second w.clock
              w.events).outcome
            ≡ some (ok roles) =
          ground (arith, there, h) in
        let (sent, _, earned) =
          authenticate-Earned e (sign keypair) peer w.first w.second w.clock w.events roles same in
        (w.events, inl (there, refl), sent, earned)
    | inr away ↦ elim (waited (wait_for_peer e peer w.events)) [
      | inl (events, came) ↦
          let same : (authenticate e (sign keypair) true peer w.first w.second w.clock
                events).outcome
              ≡ some (ok roles) =
            ground (arith, away, came, h) in
          let (sent, _, earned) =
            authenticate-Earned e (sign keypair) peer w.first w.second w.clock events roles same in
          (events, inr came, sent, earned)
      | inr (inl waits) ↦ absurd (ground (arith, away, waits, h))
      | inr (inr (x, failed)) ↦ absurd (ground (arith, away, failed, h))
    ]
  ]

  -- A client has bound nothing, neither a port nor a socket, or it has been let in by the Guard that
  -- it was told to join: the join of that Guard, a connection to it, and a handshake that has earned
  -- roles with the node's own key.
  pub start_client-LetIn :
      (w : World e names namespace) (target : DialTarget (List (Protocol Peer)))
      (identity : Option File) (forward : List (ℕ × Text))
      (forward_unix : List (Text × (Text × List ℕ)))
      → let s =
          start_client e names namespace keys ip host sign w target identity forward forward_unix in
        ((s.bound.ports ≡ []) × (s.bound.sockets ≡ [])) ⊎ LetIn w target identity
  unfolding start_client serve_guard
  start_client-LetIn w target identity forward forward_unix =
      elim (Result-cases (build keys ip host (builder host NodeMode.client identity))) [
        | inr (x, failed) ↦ inl (ground (arith, failed))
        | inl (node, built) ↦ elim (waited (join_guard e names namespace w.dial target)) [
          | inr (inl waits) ↦ inl (ground (arith, built, waits))
          | inr (inr (x, failed)) ↦ inl (ground (arith, built, failed))
          | inl (found, joined) ↦
              let exchange =
                authenticate e (sign node.keypair) w.connected found.0 w.first w.second w.clock
                  w.events in
              elim (waited exchange.outcome) [
                | inr (inl waits) ↦ inl (ground (arith, built, joined, waits))
                | inr (inr (x, failed)) ↦ inl (ground (arith, built, joined, failed))
                | inl (roles, granted) ↦
                    let (events, connected, sent, earned) =
                      handshake-Heard node.keypair w found.0 roles granted in
                    inr (record {
                      node = node;
                      built = built;
                      found = found;
                      joined = join_guard-Joined e names namespace w.dial target found joined;
                      events = events;
                      connected = connected;
                      roles = roles;
                      sent = sent;
                      earned = earned;
                    })
              ]
        ]
      ]

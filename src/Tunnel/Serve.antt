-- ===== src/Tunnel/Serve.antt =====
-- crates/nux-core/src/tunnel/mod.rs, `serve_io`: one inbound stream on the Guard. What the clock,
-- the network and the local service do is an argument; what the Guard does towards them is a list.
use nux_auth.Prelude.{
  ℕ, Bool, true, ◌||◌, not, List, [], ◌∷◌, Option, none, some, ok, err, if◌then◌else◌,
}
use nux_auth.Prelude.Optional.{◌>>=◌, ◌>>◌, guard}
use nux_auth.Error.{IoResult}
use nux_auth.Metrics.{TunnelOutcome, denied, served}
use nux_auth.Net.{Net}
use nux_auth.Protocol.{TunnelHeader, tunnel_ack}
use nux_auth.Protocol.Codec.{Bincode}
use nux_auth.Whitelist.{Roles}
use nux_auth.Tunnel.{TunnelRegistry, ExposedService, get, expected_binary_sha256, role_granted}
use nux_auth.Tunnel.Header.{read_header}

-- `timely` tells whether the header was read, or failed, before `HEADER_TIMEOUT`.
pub record World (Addr : Type 0) : Type 0 where
  pub incoming : List ℕ
  pub timely : Bool
  pub connects : Addr → Bool
  pub ack_written : Bool
  pub ack_flushed : Bool
  pub copied : IoResult (ℕ × ℕ)

pub data Action (Addr : Type 0) : Type 0 where
  connect : Addr → Action Addr
  send : ℕ → Action Addr
  relay : Action Addr

-- `timeout(HEADER_TIMEOUT, read_header(..))`, its two failures alike.
unfoldable pub header_of : {Addr : Type 0} → Bincode TunnelHeader → World Addr → Option TunnelHeader
header_of bin world =
    if world.timely
    then elim (read_header bin world.incoming) [ ok r ↦ some r.0 | err x ↦ none ]
    else none

-- How the relay ends: the bytes are not known when it breaks off.
unfoldable pub relay_outcome : IoResult (ℕ × ℕ) → TunnelOutcome
relay_outcome (ok (from_peer, to_peer)) = served from_peer to_peer
relay_outcome (err x) = served 0 0

-- The acknowledgement, and the relay behind it.
unfoldable pub acknowledge : {Addr : Type 0} → World Addr → TunnelOutcome × List (Action Addr)
unfolding relay_outcome
acknowledge world =
    if not world.ack_written || not world.ack_flushed
    then (denied, send tunnel_ack ∷ [])
    else (relay_outcome world.copied, send tunnel_ack ∷ relay ∷ [])

unfoldable pub establish :
    {Addr : Type 0} → World Addr → ExposedService Addr → TunnelOutcome × List (Action Addr)
unfolding acknowledge
establish world service =
    let (outcome, actions) = acknowledge world in
    if world.connects service.target
    then (outcome, connect service.target ∷ actions)
    else (denied, connect service.target ∷ [])

module _ {Peer Key Addr : Type 0} (net : Net Peer Key) (bin : Bincode TunnelHeader) where
  -- A declared fingerprint is compared only for a peer that one is expected of.
  unfoldable pub attested : TunnelRegistry Peer Addr → Peer → TunnelHeader → Bool
  attested registry peer header = elim (expected_binary_sha256 net registry peer) [
    | none ↦ true
    | some expected ↦ net.constant_time_eq header.binary_sha256 expected
  ]

  -- The checks between the header and the local connection.
  unfoldable pub authorize :
      TunnelRegistry Peer Addr → Peer → Roles → TunnelHeader → Option (ExposedService Addr)
  authorize registry peer roles header = do
    service ← get registry header.service
    guard (role_granted net roles service.required_role)
    guard (attested registry peer header)
    some service

  unfoldable pub serve_io :
      TunnelRegistry Peer Addr → Peer → Roles → World Addr → TunnelOutcome × List (Action Addr)
  serve_io registry peer roles world =
      elim (do header ← header_of bin world; authorize registry peer roles header) [
        | none ↦ (denied, [])
        | some service ↦ establish world service
      ]

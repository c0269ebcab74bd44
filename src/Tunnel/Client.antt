-- ===== src/Tunnel/Client.antt =====
-- crates/nux-core/src/tunnel/mod.rs, `open` and `relay_local`: the client's end of a tunnel, and
-- what the Guard's answer makes of it.
use nux_auth.Prelude.{
  ℕ, ◌≡◌, refl, ap, ◌∙◌, Bool, true, ◌&&◌, List, [], ◌∷◌, ◌++◌, Option, none, some, arith,
  bytes_beq, if◌then◌else◌, ok, err, ◌>>=◌, map_err,
}
use nux_auth.Error.{IoResult, NuxError, NuxResult}
use nux_auth.Net.{Net}
use nux_auth.Protocol.{TunnelHeader, tunnel_ack}
use nux_auth.Protocol.Codec.{Bincode}
use nux_auth.Whitelist.{Roles}
use nux_auth.Tunnel.{TunnelRegistry, ExposedService}
use nux_auth.Tunnel.Header.{write_header, read_exact}
use nux_auth.Tunnel.Serve.{World, Action, connect, send, relay, serve_io}
use nux_auth.Tunnel.Silence.{MayPass, is_served, serve_io_silent, serve_io_passes}

-- The other side as the client meets it: whether the stream opens, what becomes of the bytes
-- written, and the bytes that come back before the stream ends.
pub record Remote : Type 0 where
  pub opens : Bool
  pub wire : List ℕ → IoResult (List ℕ)
  pub reply : List ℕ

-- `read_exact` of the one byte; every failure reads as a refusal.
unfoldable pub read_ack : List ℕ → NuxResult (List ℕ)
read_ack reply = do
  (ack, stream) ← map_err (λ _. NuxError.access_denied) (read_exact 1 reply)
  if bytes_beq ack (tunnel_ack ∷ []) then ok stream else err NuxError.protocol

-- `sha256` is `attestation::current_binary_sha256`; the result is the stream behind the byte.
unfoldable pub open_tunnel :
    Bincode TunnelHeader → Remote → NuxResult (List ℕ) → List ℕ → NuxResult (List ℕ)
open_tunnel bin remote sha256 service = do
  _ ← if remote.opens then ok tt else err NuxError.tunnel
  hash ← sha256
  _ ← write_header bin remote.wire (record { service = service; binary_sha256 = hash })
  read_ack remote.reply

-- `relay_local`: without a tunnel nothing of the local stream is read or written.
unfoldable pub relay_local :
    Bincode TunnelHeader
    → Remote
    → NuxResult (List ℕ)
    → List ℕ
    → (List ℕ → IoResult (ℕ × ℕ))
    → Option (IoResult (ℕ × ℕ))
relay_local bin remote sha256 service copy_bidirectional =
    elim (open_tunnel bin remote sha256 service) [
      | ok stream ↦ some (copy_bidirectional stream)
      | err x ↦ none
    ]

-- The bytes that the Guard's actions put on the stream: one that is handed over is there where its
-- write and its flush succeed.
abbrev pub sent_bytes : {Addr : Type 0} → World Addr → List (Action Addr) → List ℕ
sent_bytes world [] = []
sent_bytes world (send b ∷ actions) =
    let rest = sent_bytes world actions in
    if world.ack_written && world.ack_flushed then b ∷ rest else rest
sent_bytes world (connect a ∷ actions) = sent_bytes world actions
sent_bytes world (relay ∷ actions) = sent_bytes world actions

read_ack-ok : (relayed : List ℕ) → read_ack (tunnel_ack ∷ relayed) ≡ ok relayed
unfolding read_ack read_exact
read_ack-ok relayed = ground arith

module _ {Peer Key Addr : Type 0} (net : Net Peer Key) (bin : Bincode TunnelHeader)
    (registry : TunnelRegistry Peer Addr) (peer : Peer) (roles : Roles) (world : World Addr)
    (remote : Remote) (service hash sent : List ℕ) where
  -- Behind an acknowledgement that is written and flushed stands the relay, with its outcome.
  pub serve_io-acknowledged :
      (target : ExposedService Addr)
      → MayPass net bin registry peer roles world target
      → world.connects target.target ≡ true
      → world.ack_written ≡ true
      → world.ack_flushed ≡ true
      → let r = serve_io net bin registry peer roles world in
        (is_served r.0 ≡ true) × (r.1 ≡ connect target.target ∷ send tunnel_ack ∷ relay ∷ [])
  serve_io-acknowledged target m up written flushed =
      let (_, outcome, actions) = serve_io_passes net bin registry peer roles world target m in
      (ground (arith, outcome, up, written, flushed), ground (arith, actions, up, written, flushed))

  -- The bytes in front of that relay are the acknowledgement.
  sent_bytes-acknowledged :
      (target : ExposedService Addr)
      → MayPass net bin registry peer roles world target
      → world.connects target.target ≡ true
      → world.ack_written ≡ true
      → world.ack_flushed ≡ true
      → sent_bytes world (serve_io net bin registry peer roles world).1 ≡ tunnel_ack ∷ []
  sent_bytes-acknowledged target m up written flushed =
      rw ((serve_io-acknowledged target m up written flushed).1, written, flushed) refl

  open_tunnel-reply :
      remote.opens ≡ true
      → write_header bin remote.wire (record { service = service; binary_sha256 = hash }) ≡ ok sent
      → open_tunnel bin remote (ok hash) service ≡ read_ack remote.reply
  unfolding open_tunnel
  open_tunnel-reply opens written = rw (opens, written)

  -- A client whose stream the Guard accepts and acknowledges has a tunnel, whose content is what follows the
  -- Guard's one byte.
  pub open_tunnel-accepted :
      (relayed : List ℕ) (target : ExposedService Addr)
      → remote.opens ≡ true
      → write_header bin remote.wire (record { service = service; binary_sha256 = hash }) ≡ ok sent
      → remote.reply ≡ sent_bytes world (serve_io net bin registry peer roles world).1 ++ relayed
      → MayPass net bin registry peer roles world target
      → world.connects target.target ≡ true
      → world.ack_written ≡ true
      → world.ack_flushed ≡ true
      → open_tunnel bin remote (ok hash) service ≡ ok relayed
  unfolding read_ack read_exact
  open_tunnel-accepted relayed target opens written replied m up acked flushed =
      open_tunnel-reply opens written
      ∙ ap read_ack
          (replied ∙ ap (λ b. b ++ relayed) (sent_bytes-acknowledged target m up acked flushed))
      ∙ read_ack-ok relayed

  -- A client whose stream may not pass learns that access is denied and nothing else, whatever the
  -- reason, once the Guard has dropped the stream.
  pub open_tunnel-refused :
      remote.opens ≡ true
      → write_header bin remote.wire (record { service = service; binary_sha256 = hash }) ≡ ok sent
      → remote.reply ≡ sent_bytes world (serve_io net bin registry peer roles world).1
      → ((target : ExposedService Addr) → ¬ MayPass net bin registry peer roles world target)
      → open_tunnel bin remote (ok hash) service ≡ err NuxError.access_denied
  unfolding read_ack read_exact
  open_tunnel-refused opens written replied never =
      open_tunnel-reply opens written
      ∙ ap read_ack (
          replied
          ∙ ap (λ r. sent_bytes world r.1)
              (serve_io_silent net bin registry peer roles world never))

-- ===== src/Client/Tunnels.antt =====
-- crates/nux-core/src/node.rs: the calls that drive the swarm beside a tunnel. One entry of the list
-- is one turn of `select!`; an event of the swarm is only traced.
use nux_auth.Prelude.{ℕ, ◌≡◌, refl, ap, arith, List, [], ◌∷◌, Option, none, some, if◌then◌else◌}
use nux_auth.Error.{NuxResult}
use nux_auth.Protocol.{TunnelHeader}
use nux_auth.Protocol.Codec.{Bincode}
use nux_auth.Tunnel.Client as Client
use nux_auth.Tunnel.Client.{Remote}
use nux_auth.Tunnel.Forward.{
  Wake, accepted, failed, cancelled, peer_uid_authorized, forward_listener, forward_unix_listener,
}

-- A turn with the end of the pinned call, or with an event of the swarm.
pub data Turn (A : Type 0) : Type 0 where
  ended : A → Turn A
  traced : Turn A

-- `open_tunnel`: the result of `tunnel::open` when it ends; `none` while it does not.
unfoldable pub open_tunnel :
    Bincode TunnelHeader
    → NuxResult (List ℕ)
    → List ℕ
    → List (Turn Remote)
    → Option (NuxResult (List ℕ))
open_tunnel bin sha256 service [] = none
open_tunnel bin sha256 service (traced ∷ turns) = open_tunnel bin sha256 service turns
open_tunnel bin sha256 service (ended remote ∷ turns) =
    some (Client.open_tunnel bin remote sha256 service)

-- `wait_for_listen_addr`: the first address that the swarm listens on, among other events.
unfoldable pub wait_for_listen_addr :
    {Multiaddr : Type 0} → List (Option Multiaddr) → Option Multiaddr
wait_for_listen_addr [] = none
wait_for_listen_addr (some address ∷ events) = some address
wait_for_listen_addr (none ∷ events) = wait_for_listen_addr events

module _ {Conn : Type 0} where
  -- What wakes the loop of the listener, without the events of the swarm.
  abbrev pub woken : List (Turn (Wake Conn)) → List (Wake Conn)
  woken [] = []
  woken (traced ∷ turns) = woken turns
  woken (ended wake ∷ turns) = wake ∷ woken turns

  -- The connections that are relayed, in order.
  unfoldable pub run_tunnel_client : List (Turn (Wake Conn)) → List Conn
  run_tunnel_client [] = []
  run_tunnel_client (traced ∷ turns) = run_tunnel_client turns
  run_tunnel_client (ended cancelled ∷ turns) = []
  run_tunnel_client (ended failed ∷ turns) = run_tunnel_client turns
  run_tunnel_client (ended (accepted local) ∷ turns) = local ∷ run_tunnel_client turns

  unfoldable pub run_tunnel_client_unix :
      (Conn → Option ℕ) → List ℕ → List (Turn (Wake Conn)) → List Conn
  run_tunnel_client_unix peer_cred allowed_uids [] = []
  run_tunnel_client_unix peer_cred allowed_uids (traced ∷ turns) =
      run_tunnel_client_unix peer_cred allowed_uids turns
  run_tunnel_client_unix peer_cred allowed_uids (ended cancelled ∷ turns) = []
  run_tunnel_client_unix peer_cred allowed_uids (ended failed ∷ turns) =
      run_tunnel_client_unix peer_cred allowed_uids turns
  run_tunnel_client_unix peer_cred allowed_uids (ended (accepted local) ∷ turns) =
      let rest = run_tunnel_client_unix peer_cred allowed_uids turns in
      if peer_uid_authorized (peer_cred local) allowed_uids then local ∷ rest else rest

  -- The loops relay what the listeners alone would, whatever the swarm does between.
  pub run_tunnel_client-woken :
      (turns : List (Turn (Wake Conn))) → run_tunnel_client turns ≡ forward_listener (woken turns)
  unfolding run_tunnel_client forward_listener
  run_tunnel_client-woken [] = refl
  run_tunnel_client-woken (traced ∷ turns) = run_tunnel_client-woken turns
  run_tunnel_client-woken (ended cancelled ∷ turns) = refl
  run_tunnel_client-woken (ended failed ∷ turns) = run_tunnel_client-woken turns
  run_tunnel_client-woken (ended (accepted local) ∷ turns) =
      ap (λ l. local ∷ l) (run_tunnel_client-woken turns)

  pub run_tunnel_client_unix-woken :
      (peer_cred : Conn → Option ℕ) (allowed_uids : List ℕ) (turns : List (Turn (Wake Conn)))
      → run_tunnel_client_unix peer_cred allowed_uids turns
        ≡ forward_unix_listener peer_cred allowed_uids (woken turns)
  unfolding run_tunnel_client_unix forward_unix_listener
  run_tunnel_client_unix-woken peer_cred allowed_uids [] = refl
  run_tunnel_client_unix-woken peer_cred allowed_uids (traced ∷ turns) =
      run_tunnel_client_unix-woken peer_cred allowed_uids turns
  run_tunnel_client_unix-woken peer_cred allowed_uids (ended cancelled ∷ turns) = refl
  run_tunnel_client_unix-woken peer_cred allowed_uids (ended failed ∷ turns) =
      run_tunnel_client_unix-woken peer_cred allowed_uids turns
  run_tunnel_client_unix-woken peer_cred allowed_uids (ended (accepted local) ∷ turns) =
      ground (arith, run_tunnel_client_unix-woken peer_cred allowed_uids turns)

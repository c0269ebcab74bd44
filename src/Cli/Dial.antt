-- ===== src/Cli/Dial.antt =====
-- crates/nux-cli/src/main.rs, the command `client`: the Guard that a client joins. An address is the
-- list of its parts.
mod Tests
use nux_auth.Prelude.{
  ◌≡◌, ◌⊎◌, refl, Bool, not, List, Option, none, some, arith, if◌then◌else◌, Eq, ok, err,
  Option-cases, inl, inr,
}
use nux_auth.Error.{NuxError, NuxResult}
use nux_auth.Gateway.{Text}
use nux_auth.Client.{ClientEvent, connection_established, next_connection, wait_for_peer}
use nux_auth.Client.Waits.{FirstOf, connects_or_fails, wait_for_peer-FirstOf}
use nux_auth.Client.Rendezvous.{
  RendezvousEvent, Attempt, FirstReached, candidates, await_registrations, discover_and_dial,
  discover_and_dial-FirstReached,
}
use nux_auth.Cli.Args.{DialTarget, address, discover, Protocol, target_peer_id}

pub waited :
    {A : Type 0} (r : Option (NuxResult A))
    → ((a : A) × (r ≡ some (ok a))) ⊎ ((r ≡ none) ⊎ ((x : NuxError) × (r ≡ some (err x))))
waited none = inr (inl refl)
waited (some (ok a)) = inl (a, refl)
waited (some (err x)) = inr (inr (x, refl))

module _ {Peer Name : Type 0} (e : Eq Peer) (names : Eq Name) (namespace : Text → Option Name) where
  -- Whether the swarm takes the dialled address, the events that come then, and, behind a rendezvous
  -- point, its answers and the attempts at the addresses that it gave.
  pub record World : Type 0 where
    pub dialled : Bool
    pub events : List (ClientEvent Peer)
    pub answers : List (RendezvousEvent Peer Name (List (Protocol Peer)))
    pub attempts : List (Attempt Peer)

  unfoldable pub join_address :
      World → List (Protocol Peer) → Option (NuxResult (Peer × List (Protocol Peer)))
  join_address w addr = elim (target_peer_id addr) [
    | some target ↦ elim (wait_for_peer e target w.events) [
      | none ↦ none
      | some (err x) ↦ some (err x)
      | some (ok left) ↦ some (ok (target, addr))
    ]
    | none ↦ elim (next_connection w.events) [
      | none ↦ none
      | some (err x) ↦ some (err x)
      | some (ok peer) ↦ some (ok (peer, addr))
    ]
  ]

  unfoldable pub join_discovered : World → Peer → Option (NuxResult (Peer × List (Protocol Peer)))
  join_discovered w rendezvous_peer = elim (wait_for_peer e rendezvous_peer w.events) [
    | none ↦ none
    | some (err x) ↦ some (err x)
    | some (ok left) ↦ discover_and_dial e names rendezvous_peer w.answers w.attempts
  ]

  -- The Guard and the address that worked; `none` where the client still waits.
  unfoldable pub join_guard :
      World → DialTarget (List (Protocol Peer)) → Option (NuxResult (Peer × List (Protocol Peer)))
  unfolding join_address join_discovered
  join_guard w (address addr) =
      if not w.dialled then some (err NuxError.dial) else join_address w addr
  join_guard w (discover name rendezvous) = elim (target_peer_id rendezvous) [
    | none ↦ some (err NuxError.config)
    | some rendezvous_peer ↦ elim (namespace name) [
      | none ↦ some (err NuxError.config)
      | some ns ↦
          if not w.dialled then some (err NuxError.dial) else join_discovered w rendezvous_peer
    ]
  ]

  -- The first event about dialling the peer is that it is connected.
  abbrev Connects : World → Peer → Type 0
  Connects w peer =
      (rest : List (ClientEvent Peer)) × FirstOf e (connects_or_fails e peer)
        (connection_established peer) w.events rest

  -- The peer that an address names, connected, or the first that connects where it names none.
  abbrev AskedFor : World → List (Protocol Peer) → Peer → Type 0
  AskedFor w addr peer = elim (target_peer_id addr) [
    | some target ↦ (peer ≡ target) × Connects w target
    | none ↦ next_connection w.events ≡ some (ok peer)
  ]

  -- Where a Guard was found through the peer that the rendezvous address names.
  pub record FoundAt (w : World) (rendezvous : List (Protocol Peer))
      (found : Peer × List (Protocol Peer)) : Type 0 where
    pub point : Peer
    pub named : target_peer_id rendezvous ≡ some point
    pub connected : Connects w point
    pub registrations : List (Peer × List (List (Protocol Peer)))
    pub answered : await_registrations e names point w.answers ≡ some (ok registrations)
    pub first : FirstReached e names (candidates e names registrations) w.attempts found

  abbrev pub Joined :
      World → DialTarget (List (Protocol Peer)) → Peer × List (Protocol Peer) → Type 0
  Joined w (address addr) found = (found.1 ≡ addr) × AskedFor w addr found.0
  Joined w (discover name rendezvous) found = FoundAt w rendezvous found

  wait_for_peer-Connects :
      (w : World) (peer : Peer) (rest : List (ClientEvent Peer))
      → wait_for_peer e peer w.events ≡ some (ok rest)
      → Connects w peer
  wait_for_peer-Connects w peer rest h = (rest, wait_for_peer-FirstOf e peer w.events rest h)

  join_address-AskedFor :
      (w : World) (addr : List (Protocol Peer)) (found : Peer × List (Protocol Peer))
      → join_address w addr ≡ some (ok found)
      → (found.1 ≡ addr) × AskedFor w addr found.0
  unfolding join_address
  join_address-AskedFor w addr found h = elim (Option-cases (target_peer_id addr)) [
    | inl missing ↦ (ground arith, ground arith)
    | inr (target, named) ↦ elim (waited (wait_for_peer e target w.events)) [
      | inl (rest, came) ↦
          let who : found.0 ≡ target = ground (arith, named, came) in
          (
            ground (arith, named, came),
            rw (AskedFor, named) (who, wait_for_peer-Connects w target rest came),
          )
      | inr (inl waits) ↦ absurd (ground (arith, named, waits))
      | inr (inr (x, failed)) ↦ absurd (ground (arith, named, failed))
    ]
  ]

  join_discovered-FoundAt :
      (w : World) (rendezvous : List (Protocol Peer)) (point : Peer)
      (found : Peer × List (Protocol Peer))
      → target_peer_id rendezvous ≡ some point
      → join_discovered w point ≡ some (ok found)
      → FoundAt w rendezvous found
  unfolding join_discovered
  join_discovered-FoundAt w rendezvous point found named h =
      elim (waited (wait_for_peer e point w.events)) [
        | inl (rest, came) ↦
            let (rs, answer, reached_first) =
              discover_and_dial-FirstReached e names point w.answers w.attempts found
                (ground (arith, came)) in
            record {
              point = point;
              named = named;
              connected = wait_for_peer-Connects w point rest came;
              registrations = rs;
              answered = answer;
              first = reached_first;
            }
        | inr (inl waits) ↦ absurd (ground (arith, waits))
        | inr (inr (x, failed)) ↦ absurd (ground (arith, failed))
      ]

  -- If a client joins a Guard, it is the one it was told to: behind an address that names a peer it is
  -- the last peer that the address names, whose connection is the first event about dialling that
  -- peer, and the address is the one given; behind an address that names none it is the first peer
  -- that connects. Behind a name, the client was connected to the peer of the rendezvous address, and
  -- the Guard and its address are the first that could be reached of those in that peer's first
  -- answer.
  pub join_guard-Joined :
      (w : World) (target : DialTarget (List (Protocol Peer))) (found : Peer × List (Protocol Peer))
      → join_guard w target ≡ some (ok found)
      → Joined w target found
  unfolding join_guard
  join_guard-Joined w (address addr) found h = join_address-AskedFor w addr found (ground arith)
  join_guard-Joined w (discover name rendezvous) found h =
      elim (Option-cases (target_peer_id rendezvous)) [
        | inl missing ↦ absurd (ground arith)
        | inr (point, named) ↦ join_discovered-FoundAt w rendezvous point found named (ground arith)
      ]

-- ===== src/Cli/Dial/Tests.antt =====
-- The arguments of the command `client`, and a Guard that is joined by its name.
use nux_auth.Prelude.{
  ◌≡◌, refl, true, false, List, [], ◌∷◌, ℕ, none, some, nat_eq, bytes_eq, ok, parse_uint,
}
use nux_auth.Gateway.{Text}
use nux_auth.Gateway.Bearer.{strip_prefix}
use nux_auth.Client.{other, connection_established, wait_for_peer}
use nux_auth.Client.Rendezvous.{
  discovered, candidates, dial_each, reached, discover_and_dial, await_registrations, with_peer,
}
use nux_auth.Cli.Args.{
  Protocol, p2p, elsewhere, DialTarget, discover, target_peer_id, parse_dial_target, split_once,
  parse_forward, parse_forward_unix, split, parse_uids, trim, trim_start, trim_end,
}
use nux_auth.Cli.Dial.{World, join_guard, join_discovered}

-- " 80: a " gives the port 80 and the service "a".
forward : parse_forward (32 ∷ 56 ∷ 48 ∷ 58 ∷ 32 ∷ 97 ∷ 32 ∷ []) ≡ some (80, 97 ∷ [])
unfolding parse_forward split_once trim trim_start trim_end parse_uint
forward = refl

-- "a:80" has no port.
forward_without_port : parse_forward (97 ∷ 58 ∷ 56 ∷ 48 ∷ []) ≡ none
unfolding parse_forward split_once trim trim_start trim_end parse_uint
forward_without_port = refl

-- "p:a:7,,8" gives the path "p", the service "a" and the identities 7 and 8.
forward_unix :
    parse_forward_unix (112 ∷ 58 ∷ 97 ∷ 58 ∷ 55 ∷ 44 ∷ 44 ∷ 56 ∷ [])
    ≡ some (112 ∷ [], (97 ∷ [], 7 ∷ 8 ∷ []))
unfolding parse_forward_unix split_once split parse_uids trim trim_start trim_end parse_uint
forward_unix = refl

-- "p:a:," allows nobody.
forward_unix_for_nobody : parse_forward_unix (112 ∷ 58 ∷ 97 ∷ 58 ∷ 44 ∷ []) ≡ none
unfolding parse_forward_unix split_once split parse_uids trim trim_start trim_end parse_uint
forward_unix_for_nobody = refl

-- "discover:a@b"
discovery :
    parse_dial_target some (100 ∷ 105 ∷ 115 ∷ 99 ∷ 111 ∷ 118 ∷ 101 ∷ 114 ∷ 58 ∷ 97 ∷ 64 ∷ 98 ∷ [])
    ≡ some (discover (97 ∷ []) (98 ∷ []))
unfolding parse_dial_target strip_prefix split_once
discovery = refl

-- Through the relay 3 to Guard 7.
through_relay : target_peer_id {Peer = ℕ} (p2p 3 ∷ elsewhere ∷ p2p 7 ∷ []) ≡ some 7
unfolding target_peer_id
through_relay = refl

-- Guards 3 and 4 are registered at peer 9; only the address of Guard 4 connects.
abbrev world : World {Peer = ℕ} {Name = Text} nat_eq bytes_eq some
world = record {
  dialled = true;
  events = other ∷ connection_established 9 ∷ [];
  answers = discovered 9 ((3, (elsewhere ∷ []) ∷ []) ∷ (4, (p2p 4 ∷ []) ∷ []) ∷ []) ∷ [];
  attempts =
      record { redialled = false; events = [] }
      ∷ record { redialled = true; events = connection_established 4 ∷ [] }
      ∷ [];
}

abbrev by_name : DialTarget (List (Protocol ℕ))
by_name = discover (97 ∷ []) (p2p 9 ∷ [])

by_name-joins : join_guard nat_eq bytes_eq some world by_name ≡ some (ok (4, p2p 4 ∷ []))
unfolding join_guard join_discovered target_peer_id wait_for_peer discover_and_dial
    await_registrations candidates with_peer dial_each reached
by_name-joins = refl

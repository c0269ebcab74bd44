-- ===== src/Cli/Client/Tests.antt =====
-- A client that joins Guard 1 by its address, with one port and one socket.
use nux_auth.Prelude.{
  ℕ, ◌≡◌, true, List, [], ◌∷◌, Option, none, some, nat_eq, bytes_eq, length, ◌⊎◌,
}
use nux_auth.Identity.{Ed25519}
use nux_auth.Builder.{Host}
use nux_auth.Gateway.{Text}
use nux_auth.Protocol.{challenge, access_granted}
use nux_auth.Client.{response, connection_closed, connection_established, other}
use nux_auth.Cli.Args.{DialTarget, address, p2p, Protocol}
use nux_auth.Cli.Client.{World, start_client}
use nux_auth.Cli.Client.Opens.{LetIn, start_client-LetIn}

abbrev absent : List ℕ → Option (List ℕ)
absent kp = none

absent-length : (kp s : List ℕ) → absent kp ≡ some s → length s ≡ 32
absent-length kp s h = cc

absent-some : (kp s : List ℕ) → absent kp ≡ some s → some s ≡ some kp
absent-some kp s h = cc

-- Keys of another kind than Ed25519.
abbrev keys : Ed25519 (List ℕ)
keys = record {
  secret_of = absent;
  ed25519_from_bytes = some;
  sized = absent-length;
  recovered = absent-some;
}

abbrev host : Host (List ℕ) ℕ Text
host = record {
  generated = 1 ∷ [];
  key_file = λ path. none;
  variable = λ name. none;
  decode_trimmed = some;
  assembled = true;
  listens = λ addr. true;
  now = 0;
}

abbrev sign : List ℕ → List ℕ → Option (List ℕ)
sign key payload = some (7 ∷ payload)

abbrev world : World {Peer = ℕ} {Name = Text} nat_eq bytes_eq some
world = record {
  dial = record {
    dialled = true;
    events = connection_established 1 ∷ [];
    answers = [];
    attempts = [];
  };
  connected = true;
  first = 4;
  second = 5;
  clock = 101;
  events =
      connection_closed 9
      ∷ response 1 4 (challenge (1 ∷ 2 ∷ []) 100)
      ∷ other
      ∷ response 1 5 (access_granted ((97 ∷ []) ∷ []))
      ∷ [];
  binds = λ before port. true;
  paths = λ before path. record {
    entry = none;
    removable = true;
    binds = true;
    umask_mode = 0o755;
    chmods = true;
  };
}

abbrev target : DialTarget (List (Protocol ℕ))
target = address (p2p 1 ∷ [])

start_client-LetIn_example :
    let s =
      start_client {File = ℕ} nat_eq bytes_eq some keys nat_eq host sign world target none
        ((80, 97 ∷ []) ∷ [])
        ((112 ∷ [], (97 ∷ [], 7 ∷ [])) ∷ []) in
    ((s.bound.ports ≡ []) × (s.bound.sockets ≡ []))
    ⊎ LetIn {File = ℕ} nat_eq bytes_eq some keys nat_eq host sign world target none
start_client-LetIn_example =
    start_client-LetIn {File = ℕ} nat_eq bytes_eq some keys nat_eq host sign world target none
      ((80, 97 ∷ []) ∷ []) ((112 ∷ [], (97 ∷ [], 7 ∷ [])) ∷ [])

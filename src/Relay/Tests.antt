-- ===== src/Relay/Tests.antt =====
-- The relay on concrete events and files.
use nux_auth.Prelude.{ℕ, ◌≡◌, refl, true, List, [], ◌∷◌, Option, none, some, ok, arith}
use nux_auth.Fixtures.{first}
use nux_auth.Identity.{KeyFile}
use nux_auth.Relay.{
  Event, reservation_req_accepted, reservation_req_denied, reservation_timed_out,
  circuit_req_accepted, circuit_closed, default,
}
use nux_auth.Relay.Key.{Protobuf, Disk, write_secret_file, load_or_generate_keypair}
use nux_auth.Relay.Start.{
  RelayCli, Machine, Running, relay_limits, tcp_addr, quic_addr, assemble, start_relay, IsUp,
  Carries, start_relay-restarts,
}

-- The end of a circuit can be seen before its start.
abbrev events : List Event
events =
    reservation_req_accepted ∷ circuit_closed ∷ circuit_req_accepted ∷ circuit_req_accepted
    ∷ reservation_req_denied ∷ reservation_timed_out ∷ []

abbrev single : ℕ → Option (List ℕ)
single kp = some (kp ∷ [])

first-single : (kp : ℕ) (b : List ℕ) → single kp ≡ some b → first b ≡ some kp
first-single kp b h = ground arith

abbrev proto : Protobuf ℕ
proto = record {
  to_protobuf_encoding = single;
  from_protobuf_encoding = first;
  reads_back = first-single;
}

abbrev disk : Disk
disk = record {
  creatable = true;
  new_mode = 420;
  stored = λ b. (b, true);
  whole = λ b h. refl;
  chmod = true;
}

-- Where a text stands for itself as an address.
abbrev machine : ℕ → Machine ℕ (List ℕ)
machine generated = record {
  disk = disk;
  generated = generated;
  assembled = true;
  listens = λ addr. true;
}

abbrev cli : RelayCli (List ℕ)
cli = record { port = 4001; external_address = (1 ∷ []) ∷ [] }

abbrev running : Running ℕ (List ℕ)
running = record {
  keypair = 5;
  limits = relay_limits;
  listening = tcp_addr 4001 ∷ quic_addr 4001 ∷ [];
  external = (1 ∷ []) ∷ [];
  metrics = default;
}

carries : Carries proto some (machine 6) cli
carries = record {
  tcp = tcp_addr 4001;
  quic = quic_addr 4001;
  assembled = refl;
  named_tcp = refl;
  named_quic = refl;
  listens_tcp = refl;
  listens_quic = refl;
}

-- A first start, without a key file, and a second one.
start_relay-restarts_example :
    IsUp proto some cli running
    × (left : KeyFile) × ((start_relay proto some (machine 5) cli none).0 ≡ some left)
    × (r' : Running ℕ (List ℕ)) × (start_relay proto some (machine 6) cli (some left)
        ≡ (some left, ok r'))
    × IsUp proto some cli r'
    × (r'.keypair ≡ running.keypair)
unfolding start_relay assemble load_or_generate_keypair write_secret_file
start_relay-restarts_example =
    start_relay-restarts proto some (machine 5) (machine 6) cli cli none running refl carries

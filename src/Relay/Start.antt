-- ===== src/Relay/Start.antt =====
-- nodes_relay/src/main.rs, `main`: from the arguments to the loop. The swarm is libp2p's: of it the
-- model keeps whether it can be assembled, the limits it is given, and what it listens on.
use nux_auth.Prelude.{
  ℕ, ◌*◌, ◌^◌, ◌≡◌, refl, Bool, true, List, [], ◌∷◌, ◌++◌, Option, none, some, arith, if◌then◌else◌,
  ok, err, ◌>>=◌, or_fail, Option-cases, Result-cases, inl, inr,
}
use nux_auth.Exposition.{codes}
use nux_auth.Prelude.Print.{print}
use nux_auth.Identity.{KeyFile}
use nux_auth.Relay.{Metrics, default}
use nux_auth.Relay.Key.{
  Protobuf, Disk, Boxed, load_or_generate_keypair, load_or_generate_keypair-kept,
}

-- The arguments; the key is the file at `--key-path`.
pub record RelayCli (Multiaddr : Type 0) : Type 0 where
  pub port : ℕ
  pub external_address : List Multiaddr

abbrev pub default_port : ℕ
default_port = 4001

-- `relay::Config`, and the idle timeout of the swarm; in seconds.
pub record RelayLimits : Type 0 where
  pub max_reservations : ℕ
  pub max_reservations_per_peer : ℕ
  pub max_circuits : ℕ
  pub max_circuits_per_peer : ℕ
  pub max_circuit_duration : ℕ
  pub max_circuit_bytes : ℕ
  pub idle_connection_timeout : ℕ

abbrev pub relay_limits : RelayLimits
relay_limits = record {
  max_reservations = 128;
  max_reservations_per_peer = 4;
  max_circuits = 16;
  max_circuits_per_peer = 4;
  max_circuit_duration = 2 * 60;
  max_circuit_bytes = 2 ^ 20;
  idle_connection_timeout = 60;
}

-- The address families that a relay listens on: `/ip4/0.0.0.0/tcp/{port}` and
-- `/ip4/0.0.0.0/udp/{port}/quic-v1`.
abbrev pub tcp_addr : ℕ → List ℕ
tcp_addr port = codes "/ip4/0.0.0.0/tcp/" ++ print port

abbrev pub quic_addr : ℕ → List ℕ
quic_addr port = codes "/ip4/0.0.0.0/udp/" ++ (print port ++ codes "/quic-v1")

-- What a start finds: the disk, the random key, whether TCP can be set up, and what can be listened
-- on.
pub record Machine (Keypair Multiaddr : Type 0) : Type 0 where
  pub disk : Disk
  pub generated : Keypair
  pub assembled : Bool
  pub listens : Multiaddr → Bool

-- A relay in front of its loop.
pub record Running (Keypair Multiaddr : Type 0) : Type 0 where
  pub keypair : Keypair
  pub limits : RelayLimits
  pub listening : List Multiaddr
  pub external : List Multiaddr
  pub metrics : Metrics

module _ {Keypair Multiaddr : Type 0} (proto : Protobuf Keypair)
    (parse : List ℕ → Option Multiaddr) where
  -- What stands behind the key: the swarm, the two listeners, the external addresses.
  unfoldable pub assemble :
      Machine Keypair Multiaddr → RelayCli Multiaddr → Keypair → Boxed (Running Keypair Multiaddr)
  assemble w cli keypair = do
    _ ← if w.assembled then ok tt else err tt
    tcp ← or_fail tt (parse (tcp_addr cli.port))
    quic ← or_fail tt (parse (quic_addr cli.port))
    _ ← if w.listens tcp then ok tt else err tt
    _ ← if w.listens quic then ok tt else err tt
    ok (record {
      keypair = keypair;
      limits = relay_limits;
      listening = tcp ∷ quic ∷ [];
      external = cli.external_address;
      metrics = default;
    })

  -- The key file afterwards, and what was started.
  unfoldable pub start_relay :
      Machine Keypair Multiaddr
      → RelayCli Multiaddr
      → Option KeyFile
      → Option KeyFile × Boxed (Running Keypair Multiaddr)
  unfolding assemble
  start_relay w cli file =
      let (file', loaded) = load_or_generate_keypair proto w.disk w.generated file in
      (file', loaded >>= assemble w cli)

  load_or_generate_keypair-again :
      (disk disk' : Disk) (generated generated' kp : Keypair) (file : Option KeyFile)
      → (load_or_generate_keypair proto disk generated file).1 ≡ ok kp
      → (left : KeyFile) × ((load_or_generate_keypair proto disk generated file).0 ≡ some left)
        × (load_or_generate_keypair proto disk' generated' (some left) ≡ (some left, ok kp))
  unfolding load_or_generate_keypair
  load_or_generate_keypair-again disk disk' generated generated' kp none h =
      let (left, there, _, again) =
        load_or_generate_keypair-kept proto disk disk' generated generated' kp h in
      (left, there, again)
  load_or_generate_keypair-again disk disk' generated generated' kp (some left) h =
      (left, refl, ground (arith, h))

  -- What a started relay is.
  pub record IsUp (cli : RelayCli Multiaddr) (r : Running Keypair Multiaddr) : Type 0 where
    pub tcp : Multiaddr
    pub quic : Multiaddr
    pub named_tcp : parse (tcp_addr cli.port) ≡ some tcp
    pub named_quic : parse (quic_addr cli.port) ≡ some quic
    pub listening : r.listening ≡ tcp ∷ quic ∷ []
    pub external : r.external ≡ cli.external_address

  assemble-IsUp :
      (w : Machine Keypair Multiaddr) (cli : RelayCli Multiaddr) (keypair : Keypair)
      (r : Running Keypair Multiaddr)
      → assemble w cli keypair ≡ ok r
      → IsUp cli r × (r.keypair ≡ keypair)
  unfolding assemble
  assemble-IsUp w cli keypair r h = elim (Option-cases (parse (tcp_addr cli.port))) [
    | inl bad ↦ absurd (ground (arith, h))
    | inr (tcp, named_tcp) ↦ elim (Option-cases (parse (quic_addr cli.port))) [
      | inl bad ↦ absurd (ground (arith, h))
      | inr (quic, named_quic) ↦ (
        record {
          tcp = tcp;
          quic = quic;
          named_tcp = named_tcp;
          named_quic = named_quic;
          listening = ground (arith, h);
          external = ground (arith, h);
        },
        ground (arith, h),
      )
    ]
  ]

  -- A machine that can carry a relay with these arguments.
  pub record Carries (w : Machine Keypair Multiaddr) (cli : RelayCli Multiaddr) : Type 0 where
    pub tcp : Multiaddr
    pub quic : Multiaddr
    pub assembled : w.assembled ≡ true
    pub named_tcp : parse (tcp_addr cli.port) ≡ some tcp
    pub named_quic : parse (quic_addr cli.port) ≡ some quic
    pub listens_tcp : w.listens tcp ≡ true
    pub listens_quic : w.listens quic ≡ true

  assemble-Carries :
      (w : Machine Keypair Multiaddr) (cli : RelayCli Multiaddr) (keypair : Keypair)
      → Carries w cli
      → (r : Running Keypair Multiaddr) × (assemble w cli keypair ≡ ok r)
  unfolding assemble
  assemble-Carries w cli keypair k = (
    record {
      keypair = keypair;
      limits = relay_limits;
      listening = k.tcp ∷ k.quic ∷ [];
      external = cli.external_address;
      metrics = default;
    },
    ground (arith, k.assembled, k.named_tcp, k.named_quic, k.listens_tcp, k.listens_quic),
  )

  -- A relay that has started, whether it made its key or found it, listens over TCP and over QUIC on
  -- the port that it was given and announces the external addresses that it was given; and it has left
  -- a key file with which, on any machine that can carry it and whatever key that would generate, it
  -- starts again with the same identity and leaves the file as it is.
  pub start_relay-restarts :
      (w w' : Machine Keypair Multiaddr) (cli cli' : RelayCli Multiaddr) (file : Option KeyFile)
      (r : Running Keypair Multiaddr)
      → (start_relay w cli file).1 ≡ ok r
      → Carries w' cli'
      → IsUp cli r
        × (left : KeyFile) × ((start_relay w cli file).0 ≡ some left)
        × (r' : Running Keypair Multiaddr) × (start_relay w' cli' (some left) ≡ (some left, ok r'))
        × IsUp cli' r'
        × (r'.keypair ≡ r.keypair)
  unfolding start_relay
  start_relay-restarts w w' cli cli' file r h carries =
      elim (Result-cases (load_or_generate_keypair proto w.disk w.generated file).1) [
        | inr (x, failed) ↦ absurd (ground (arith, failed, h))
        | inl (kp, loaded) ↦
            let ran : assemble w cli kp ≡ ok r = ground (arith, loaded, h) in
            let (up, own) = assemble-IsUp w cli kp r ran in
            let (left, there, again) =
              load_or_generate_keypair-again w.disk w'.disk w.generated w'.generated kp file
                loaded in
            let (r', runs) = assemble-Carries w' cli' kp carries in
            let (up', own') = assemble-IsUp w' cli' kp r' runs in
            (up, left, there, r', ground (arith, again, runs), up', ground (arith, own, own'))
      ]

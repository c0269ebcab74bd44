-- ===== src/Lib.antt =====
-- nux-auth: the authentication of peers by challenge and response, the tunnels of authenticated
-- peers to local services, and the limits that protect a Guard.
--
-- A Guard listens for libp2p connections. An inbound connection passes the sliding-window limiter
-- of its address; the peer then asks for a challenge, answers it with a signature by the key inside
-- its identity, and has a session. A stream of a peer with a session becomes a tunnel to a local
-- service if the caps of the registry leave room and the header names a service that the roles of
-- the peer reach. Every refusal is silent: no byte is sent, and the connection or stream is dropped.
--
-- The modules, and the code that each is about (under crates/nux-core/src, where no crate is named):
--   RateLimit    rate_limit.rs: `RateLimiter` with `allow_at`, `prune`, `sweep`, `exempt`
--   Error        error.rs: `NuxError`; texts for the journal are left out
--   Net          libp2p identities and signatures and `constant_time_eq`, as a record of operations
--                with the laws that the code relies on
--   Protocol     protocol/mod.rs, protocol/codec.rs: messages, `challenge_payload`, the bounded
--                codec; `bincode` is a record of operations with its round trip and its limit
--   Metrics      metrics.rs: the counters, with the wrap-around of the atomics written out
--   Whitelist    auth/whitelist.rs: `allow`, `revoke`, and the constant-time walk of `roles`
--   Auth         auth/mod.rs: `GuardAuthenticator` with `issue_at`, `verify_at`, `session_roles`,
--                `revoke`, `end_session`; `answer_challenge`
--   Tunnel       tunnel/mod.rs: the registry, the header frame, `serve_io`, `open`, `relay_local`,
--                the two accept loops of local ports, `bind_forward_socket`
--   Node         node.rs: `handle_guard_event`, `handle_auth_request`, and `run_guard_loop` as one
--                turn for each event that wakes it; `run_guard` as recursion on the events
--   Client       node.rs: what a client waits for, `authenticate`, the pauses of `reauthenticate`,
--                the rendezvous and the session loop, as recursion on the events of the swarm
--   Gateway      nux_gateway/src: the configurations of Guards with their validation, storage and
--                roles, the fixed-window limiter, the check of the bearer token, the settings from
--                the environment, the relay to the dashboard, the three routers over a record that
--                stands for axum, and the start of the gateway; JSON and parsers are records
--   Cli          nux-cli/src: the Guard's configuration file (`load`, `apply_remote_config`), the
--                companion that asks the gateway for it, alone and against the gateway's own routes,
--                the reload on SIGHUP, the start of a Guard, the arguments of a client, how it joins
--                its Guard, and what it binds behind the handshake; the TOML crates, the disk and the
--                parsers of addresses are records of operations
--   Identity     nux-core/src/identity.rs: keys from a file, from the environment, and saved
--   Builder      nux-core/src/builder.rs: the settings of a node and `build`; Cli.Start uses it to
--                start a Guard from its file
--   Relay        nodes_relay/src: the start, the counters with the event loop, and the key on disk
--   Exposition   the counters as Prometheus text (nux-core/src/metrics.rs, nodes_relay/src/metrics.rs)
--                and the task that puts the text into a file (`spawn_metrics_writer`), as a step
--                relation
--   Attestation  nux-core/src/attestation.rs: `current_binary_sha256`, cut where another thread may come
--                between, over schedules of calls
--   Prelude      lists, options, results and association lists over the native natural numbers
--   Fixtures     concrete instances of the third-party operations, for the tests
--
-- State is passed explicitly: an operation takes the state and gives the new one with its result.
-- A hash map is an association list, whose order the code never relies on; a `Vec` is a list. The
-- clock, the random nonce, the signature, the network and the outcome of system calls are arguments.
-- What the node asks of the swarm is a list of effects. A semaphore has an identity and a number of
-- free permits, since the loop forgets a peer's semaphore while tasks still hold permits of it.
-- Loops are recursion on the list that they walk, so no fuel is needed; a run of the loop is a list
-- of the events that wake it, in the order in which `select!` takes them.
--
-- Not modelled: timing as an observable, the texts for the journal, and the glue to libp2p, tokio,
-- axum and diesel; of the command line what clap does; and the pool, the migrations and the ports of
-- the gateway.
pub mod Prelude
pub mod Error
pub mod Net
pub mod RateLimit
pub mod Protocol
pub mod Metrics
pub mod Whitelist
pub mod Auth
pub mod Tunnel
pub mod Node
pub mod Client
pub mod Gateway
pub mod Cli
pub mod Identity
pub mod Builder
pub mod Relay
pub mod Exposition
pub mod Attestation
pub mod Fixtures

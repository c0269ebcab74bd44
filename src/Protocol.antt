-- ===== src/Protocol.antt =====
-- crates/nux-core/src/protocol/mod.rs: the messages of the handshake, the header of a tunnel, and
-- the bytes that the client signs. A byte is a number below 256, a text the list of its bytes.
pub mod Codec
pub mod Payload
pub mod Bounds
mod Tests
use nux_auth.Prelude.{ℕ, zero, suc, ◌*◌, ◌/◌, ◌%◌, ◌^◌, List, [], ◌∷◌, ◌++◌}

abbrev pub nonce_len : ℕ
nonce_len = 32

abbrev pub max_tunnel_header_size : ℕ
max_tunnel_header_size = 1024

abbrev pub tunnel_ack : ℕ
tunnel_ack = 1

pub record TunnelHeader : Type 0 where
  pub service : List ℕ
  pub binary_sha256 : List ℕ

-- `to_be_bytes` of an unsigned integer of the given number of bytes.
abbrev pub to_be_bytes : ℕ → ℕ → List ℕ
to_be_bytes zero n = []
to_be_bytes (suc k) n = (n / 256 ^ k % 256) ∷ to_be_bytes k n

pub challenge_payload : List ℕ → ℕ → List ℕ
challenge_payload nonce timestamp = nonce ++ to_be_bytes 8 timestamp

pub data NuxRequest : Type 0 where
  handshake_init : NuxRequest
  challenge_answer : List ℕ → ℕ → NuxRequest

pub data NuxResponse : Type 0 where
  challenge : List ℕ → ℕ → NuxResponse
  access_granted : List (List ℕ) → NuxResponse
  denied : NuxResponse

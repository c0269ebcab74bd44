-- ===== src/Net.antt =====
-- What the program takes from libp2p and from `constant_time_eq`, with what it relies on: peer
-- identities and their bytes, the multihash inside an identity, and signatures.
use nux_auth.Prelude.{ℕ, Bool, true, List, Option, ◌≡◌, ◌↔◌, Eq, length}

pub record Net (Peer Key : Type 0) : Type 0 where
  -- `PartialEq for PeerId`
  pub peer : Eq Peer
  -- `PeerId::to_bytes`, which determines the identity.
  pub to_bytes : Peer → List ℕ
  pub to_bytes_inj : (p q : Peer) → to_bytes p ≡ to_bytes q → p ≡ q
  -- `constant_time_eq` on slices of one length.
  pub constant_time_eq : List ℕ → List ℕ → Bool
  pub constant_time_eq_iff :
      (a b : List ℕ) → length a ≡ length b → (constant_time_eq a b ≡ true) ↔ (a ≡ b)
  -- `Multihash::code` and `Multihash::digest` of an identity.
  pub multihash_code : Peer → ℕ
  pub multihash_digest : Peer → List ℕ
  -- `PublicKey::try_decode_protobuf` and `PublicKey::verify`.
  pub try_decode_protobuf : List ℕ → Option Key
  pub verify : Key → List ℕ → List ℕ → Bool

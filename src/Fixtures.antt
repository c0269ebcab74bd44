-- ===== src/Fixtures.antt =====
-- Concrete instances of the third-party operations, for the tests of the components: identities are
-- numbers, the key inside an identity is that number, and a signature is the key before the payload.
use nux_auth.Prelude.{
  ℕ, ◌≤◌, ◌≡◌, refl, List, [], ◌∷◌, ◌++◌, Option, none, some, arith, length, take, drop, leb,
  if◌then◌else◌, nat_eq, bytes_beq, bytes_beq_iff, take-length-append, drop-length-append, ap, sym,
}
use nux_auth.Net.{Net}
use nux_auth.Protocol.{TunnelHeader}
use nux_auth.Protocol.Codec.{Bincode}

abbrev pub first : List ℕ → Option ℕ
first [] = none
first (x ∷ xs) = some x

pub single_inj : (p q : ℕ) → p ∷ [] ≡ q ∷ [] → p ≡ q
single_inj p q h = cc

abbrev pub toy_net : Net ℕ ℕ
toy_net = record {
  peer = nat_eq;
  to_bytes = λ p. p ∷ [];
  to_bytes_inj = single_inj;
  constant_time_eq = bytes_beq;
  constant_time_eq_iff = λ a b sized. bytes_beq_iff a b;
  multihash_code = λ p. 0;
  multihash_digest = λ p. p ∷ [];
  try_decode_protobuf = first;
  verify = λ key payload signature. bytes_beq signature (key ∷ payload);
}

-- A text behind the length of its first part.
abbrev pub joined : TunnelHeader → List ℕ
joined h = length h.service ∷ (h.service ++ h.binary_sha256)

abbrev pub parted : List ℕ → Option TunnelHeader
parted [] = none
parted (n ∷ b) = some (record { service = take n b; binary_sha256 = drop n b })

abbrev pub within {ℓ} : {T : Type ℓ} → (T → List ℕ) → ℕ → T → Option (List ℕ)
within f limit v = if leb (length (f v)) limit then some (f v) else none

pub within-limited {ℓ} :
    {T : Type ℓ} (f : T → List ℕ) (limit : ℕ) (v : T) (b : List ℕ)
    → within f limit v ≡ some b
    → (length b ≤ limit) × (f v ≡ b)
within-limited f limit v b h = ground arith

pub parted-joined : (h : TunnelHeader) → parted (joined h) ≡ some h
parted-joined h =
    rw (take-length-append h.service h.binary_sha256, drop-length-append h.service h.binary_sha256)
      refl

abbrev pub toy_headers : Bincode TunnelHeader
toy_headers = record {
  serialize = within joined;
  deserialize = λ limit b. parted b;
  reads_back = λ limit v b h. rw (← (within-limited joined limit v b h).1) (parted-joined v);
  limited = λ limit v b h. (within-limited joined limit v b h).0;
}

abbrev pub toy_texts : Bincode (List ℕ)
toy_texts = record {
  serialize = within (λ v. v);
  deserialize = λ limit b. some b;
  reads_back = λ limit v b h. ap some (sym (within-limited (λ v. v) limit v b h).1);
  limited = λ limit v b h. (within-limited (λ v. v) limit v b h).0;
}

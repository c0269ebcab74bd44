-- ===== src/Protocol/Payload.antt =====
-- The signed bytes determine the nonce and the timestamp.
use nux_auth.Prelude.{
  ℕ, ◌≡◌, ◌<◌, ◌^◌, ap, List, arith, length, length-append, take, drop, take-length-append,
  drop-length-append,
}
use nux_auth.Protocol.{nonce_len, challenge_payload, to_be_bytes}

be-8_inj : (m n : ℕ) → m < 2 ^ 64 → n < 2 ^ 64 → to_be_bytes 8 m ≡ to_be_bytes 8 n → m ≡ n
be-8_inj m n hm hn e = ground arith

pub length-challenge_payload :
    (nonce : List ℕ) (t : ℕ) → length nonce ≡ nonce_len → length (challenge_payload nonce t) ≡ 40
unfolding challenge_payload
length-challenge_payload nonce t h = omega (arith, length-append nonce (to_be_bytes 8 t))

-- Two nonces of the protocol's length and two `u64` timestamps that give one payload are the same.
pub challenge_payload_inj :
    (nonce nonce' : List ℕ) (t t' : ℕ)
    → length nonce ≡ nonce_len
    → length nonce' ≡ nonce_len
    → t < 2 ^ 64
    → t' < 2 ^ 64
    → challenge_payload nonce t ≡ challenge_payload nonce' t'
    → (nonce ≡ nonce') × (t ≡ t')
unfolding challenge_payload
challenge_payload_inj nonce nonce' t t' h h' b b' e = (
  cc (
    ap (take nonce_len) e,
    take-length-append nonce (to_be_bytes 8 t),
    take-length-append nonce' (to_be_bytes 8 t'),
  ),
  be-8_inj t t' b b' (
      cc (
        ap (drop nonce_len) e,
        drop-length-append nonce (to_be_bytes 8 t),
        drop-length-append nonce' (to_be_bytes 8 t'),
      )),
)

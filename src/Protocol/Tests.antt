-- ===== src/Protocol/Tests.antt =====
-- The payload and the codec on concrete messages.
use nux_auth.Prelude.{ℕ, zero, suc, ◌≡◌, refl, ap, List, [], ◌∷◌, ok, arith, length}
use nux_auth.Fixtures.{toy_texts}
use nux_auth.Protocol.Codec.{write_message, encode}
use nux_auth.Protocol.Payload.{challenge_payload_inj}

abbrev instant : ℕ
instant = 1700000000

abbrev text : List ℕ
text = 104 ∷ 105 ∷ []

zeros : ℕ → List ℕ
zeros zero = []
zeros (suc n) = 0 ∷ zeros n

length-zeros : (n : ℕ) → length (zeros n) ≡ n
unfolding zeros
length-zeros zero = refl
length-zeros (suc n) = ap suc (length-zeros n)

challenge_payload_inj_example : (zeros 32 ≡ zeros 32) × (instant ≡ instant)
challenge_payload_inj_example =
    challenge_payload_inj (zeros 32) (zeros 32) instant instant (length-zeros 32) (length-zeros 32)
      (omega arith) (omega arith) refl

written : write_message toy_texts ok text ≡ ok text
unfolding write_message encode
written = refl

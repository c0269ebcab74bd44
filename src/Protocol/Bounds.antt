-- ===== src/Protocol/Bounds.antt =====
-- The codec's limits, and that a message comes back from the wire as it was sent.
use nux_auth.Prelude.{
  ℕ, ◌+◌, ◌≤◌, ◌<◌, ◌≡◌, refl, ◌∙◌, ap, zero, suc, List, [], ◌∷◌, some, arith, length, take, ltb,
  if◌then◌else◌, ok, err, Option-cases, inl, inr,
}
use nux_auth.Error.{IoResult, invalid_data}
use nux_auth.Protocol.Codec.{
  Bincode, encode, decode, read_bounded, read_message, write_message, max_message_size,
}

length-take-min :
    (n : ℕ) (xs : List ℕ) → length (take n xs) ≡ (if ltb n (length xs) then n else length xs)
length-take-min zero [] = refl
length-take-min zero (x ∷ xs) = ground arith
length-take-min (suc n) [] = ground arith
length-take-min (suc n) (x ∷ xs) = ground (arith, length-take-min n xs)

take_all : (n : ℕ) (xs : List ℕ) → length xs ≤ n → take n xs ≡ xs
take_all zero [] h = refl
take_all zero (x ∷ xs) h = absurd (omega arith)
take_all (suc n) [] h = refl
take_all (suc n) (x ∷ xs) h = ap (◌∷◌ x) (take_all n xs (omega arith))

abbrev within : ℕ → List ℕ → List ℕ → IoResult (List ℕ)
within limit measured out = if ltb limit (length measured) then err invalid_data else ok out

read_bounded_at :
    (sent : List ℕ) (limit : ℕ)
    → within limit (take (limit + 1) sent) (take (limit + 1) sent) ≡ within limit sent sent
read_bounded_at sent limit =
    ground (arith, length-take-min (limit + 1) sent, take_all (limit + 1) sent)

-- A stream of at most `max_message_size` bytes is read whole, and a longer one is refused.
pub read_bounded_cases :
    (sent : List ℕ) → read_bounded (ok sent) ≡ within max_message_size sent sent
unfolding read_bounded
read_bounded_cases sent = read_bounded_at sent max_message_size

within-short : (limit : ℕ) (xs out : List ℕ) → length xs ≤ limit → within limit xs out ≡ ok out
within-short limit xs out h = ground arith

within-long :
    (limit : ℕ) (xs out : List ℕ) → limit < length xs → within limit xs out ≡ err invalid_data
within-long limit xs out h = ground arith

module _ {T : Type 0} (bin : Bincode T) where
  -- A message that was written within the limit is read back as it was, and a stream longer than
  -- the limit is refused whatever stands in it.
  pub read_message-write :
      (v : T) (bytes sent : List ℕ)
      → write_message bin ok v ≡ ok bytes
      → max_message_size < length sent
      → (length bytes ≤ max_message_size)
        × (read_message bin (ok bytes) ≡ ok v)
        × (read_message bin (ok sent) ≡ err invalid_data)
  unfolding write_message read_message encode decode
  read_message-write v bytes sent h long = elim (Option-cases (bin.serialize max_message_size v)) [
    | inl fails ↦ absurd (ground arith)
    | inr (b, made) ↦
        let same : b ≡ bytes = ground arith in
        let made' : bin.serialize max_message_size v ≡ some bytes = rw (← same) made in
        let short = bin.limited max_message_size v bytes made' in
        let whole = read_bounded_cases bytes ∙ within-short max_message_size bytes bytes short in
        let cut = read_bounded_cases sent ∙ within-long max_message_size sent sent long in
        (short, rw (whole, bin.reads_back max_message_size v bytes made'), rw cut)
  ]

-- ===== src/Protocol/Codec.antt =====
-- crates/nux-core/src/protocol/codec.rs: the bounded `bincode` codec of the handshake.
use nux_auth.Prelude.{
  ℕ, ◌*◌, ◌+◌, ◌≤◌, ◌≡◌, List, Option, some, length, take, ltb, if◌then◌else◌, ok, err, ◌>>=◌,
  or_fail,
}
use nux_auth.Error.{IoResult, invalid_data}

abbrev pub max_message_size : ℕ
max_message_size = 64 * 1024

-- `bincode::DefaultOptions` with a limit and `reject_trailing_bytes`, for one type of messages.
pub record Bincode (T : Type 0) : Type 0 where
  pub serialize : ℕ → T → Option (List ℕ)
  pub deserialize : ℕ → List ℕ → Option T
  -- What was serialised reads back.
  pub reads_back :
      (limit : ℕ) (v : T) (b : List ℕ) → serialize limit v ≡ some b → deserialize limit b ≡ some v
  -- `with_limit`: nothing longer is written.
  pub limited : (limit : ℕ) (v : T) (b : List ℕ) → serialize limit v ≡ some b → length b ≤ limit

module _ {T : Type 0} (bin : Bincode T) where
  unfoldable pub encode : T → IoResult (List ℕ)
  encode v = or_fail invalid_data (bin.serialize max_message_size v)

  unfoldable pub decode : List ℕ → IoResult T
  decode bytes = or_fail invalid_data (bin.deserialize max_message_size bytes)

-- The bytes that arrive until the peer closes the stream, or the error that ends it. `taken` is
-- what `take` lets through.
unfoldable pub read_bounded : IoResult (List ℕ) → IoResult (List ℕ)
read_bounded io = do
  sent ← io
  let buf = take (max_message_size + 1) sent
  if ltb max_message_size (length buf) then err invalid_data else ok buf

module _ {T : Type 0} (bin : Bincode T) where
  -- `read_request` and `read_response`.
  unfoldable pub read_message : IoResult (List ℕ) → IoResult T
  unfolding read_bounded decode
  read_message io = do buf ← read_bounded io; decode bin buf

  -- `write_request` and `write_response`; `wire` says what `write_all` does with the bytes.
  unfoldable pub write_message : (List ℕ → IoResult (List ℕ)) → T → IoResult (List ℕ)
  unfolding encode
  write_message wire v = do bytes ← encode bin v; wire bytes

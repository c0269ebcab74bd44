-- ===== src/Tunnel/Header.antt =====
-- crates/nux-core/src/tunnel/mod.rs, `write_header` and `read_header`: one frame, a big-endian
-- `u16` length and the encoded header.
use nux_auth.Prelude.{
  true, false, lt→ltb, length-append, ℕ, ◌+◌, ◌*◌, ◌^◌, ◌≤◌, ◌<◌, ◌≡◌, ap, Bool, ◌&&◌, List, ◌∷◌,
  ◌++◌, Option, none, some, arith, length, take, drop, ltb, leb, if◌then◌else◌, ok, err, ◌>>=◌,
  or_fail, map_err, take-length-append, drop-length-append, Option-cases, inl, inr, Bool-cases,
}
use nux_auth.Error.{IoResult, invalid_data, unexpected_eof, NuxError, NuxResult}
use nux_auth.Protocol.{TunnelHeader, max_tunnel_header_size, to_be_bytes}
use nux_auth.Protocol.Codec.{Bincode, encode, decode, max_message_size}

-- `read_exact` of so many bytes, and what is left in the stream.
unfoldable pub read_exact : ℕ → List ℕ → IoResult (List ℕ × List ℕ)
read_exact n stream =
    if leb n (length stream) then ok (take n stream, drop n stream) else err unexpected_eof

unfoldable pub read_u16 : List ℕ → IoResult (ℕ × List ℕ)
read_u16 (hi ∷ lo ∷ stream) = ok (hi * 256 + lo, stream)
read_u16 _ = err unexpected_eof

-- `u16::try_from` and the filter behind it.
abbrev pub fits : List ℕ → Bool
fits bytes = ltb (length bytes) (2 ^ 16) && leb (length bytes) max_tunnel_header_size

unfoldable pub header_len : List ℕ → Option ℕ
header_len bytes = if fits bytes then some (length bytes) else none

leb_of_le : (a b : ℕ) → a ≤ b → leb a b ≡ true
leb_of_le a b h = ground arith

ltb_of_ge : (a b : ℕ) → b ≤ a → ltb a b ≡ false
ltb_of_ge a b h = ground arith

module _ (bin : Bincode TunnelHeader) where
  -- `wire` is what the stream does with the bytes handed to it.
  unfoldable pub write_header : (List ℕ → IoResult (List ℕ)) → TunnelHeader → NuxResult (List ℕ)
  write_header wire header = do
    bytes ← map_err NuxError.io (encode bin header)
    len ← or_fail NuxError.tunnel (header_len bytes)
    map_err NuxError.io (wire (to_be_bytes 2 len ++ bytes))

  unfoldable pub read_header : List ℕ → IoResult (TunnelHeader × List ℕ)
  read_header stream = do
    (len, rest) ← read_u16 stream
    (buf, left) ← if ltb max_tunnel_header_size len then err invalid_data else read_exact len rest
    header ← decode bin buf
    ok (header, left)

  read_u16-write :
      (len : ℕ) (rest : List ℕ)
      → len < 2 ^ 16
      → read_u16 (to_be_bytes 2 len ++ rest) ≡ ok (len, rest)
  unfolding read_u16
  read_u16-write len rest h = ap (λ n. ok (n, rest)) (omega arith)

  read_exact-append :
      (bytes rest : List ℕ) → read_exact (length bytes) (bytes ++ rest) ≡ ok (bytes, rest)
  unfolding read_exact
  read_exact-append bytes rest = rw (
    leb_of_le (length bytes) (length (bytes ++ rest)) (omega (arith, length-append bytes rest)),
    take-length-append bytes rest,
    drop-length-append bytes rest,
  )

  -- A frame as the client writes it, and what it says of the bytes inside.
  write_header-shape :
      (header : TunnelHeader) (b sent : List ℕ)
      → bin.serialize max_message_size header ≡ some b
      → write_header ok header ≡ ok sent
      → (length b ≤ max_tunnel_header_size) × (sent ≡ to_be_bytes 2 (length b) ++ b)
  unfolding write_header encode header_len
  write_header-shape header b sent made h = elim (Bool-cases (fits b)) [
    | inl fit ↦ (ground arith, ground arith)
    | inr long ↦ absurd (ground arith)
  ]

  read_header-frame :
      (header : TunnelHeader) (b rest : List ℕ)
      → length b ≤ max_tunnel_header_size
      → bin.deserialize max_message_size b ≡ some header
      → read_header (to_be_bytes 2 (length b) ++ (b ++ rest)) ≡ ok (header, rest)
  unfolding read_header decode
  read_header-frame header b rest h made = rw (
    read_u16-write (length b) (b ++ rest) (omega arith),
    ltb_of_ge max_tunnel_header_size (length b) h,
    read_exact-append b rest,
    made,
  )

  -- A length over the bound is refused before a byte of the frame is read.
  pub read_header-oversized :
      (len : ℕ) (rest : List ℕ)
      → max_tunnel_header_size < len
      → len < 2 ^ 16
      → read_header (to_be_bytes 2 len ++ rest) ≡ err invalid_data
  unfolding read_header
  read_header-oversized len rest h k =
      rw (read_u16-write len rest k, lt→ltb max_tunnel_header_size len h)

  -- What a client writes is what the Guard reads, whatever follows it in the stream, and the frame
  -- is never longer than its bound.
  pub read_header-write :
      (header : TunnelHeader) (sent rest : List ℕ)
      → write_header ok header ≡ ok sent
      → (read_header (sent ++ rest) ≡ ok (header, rest))
        × (length sent ≤ max_tunnel_header_size + 2)
  unfolding write_header encode
  read_header-write header sent rest h =
      elim (Option-cases (bin.serialize max_message_size header)) [
        | inl fails ↦ absurd (ground arith)
        | inr (b, made) ↦
            let (short, shape) = write_header-shape header b sent made h in
            (
              rw shape (
                  read_header-frame header b rest short
                    (bin.reads_back max_message_size header b made)),
              rw shape (omega arith),
            )
      ]

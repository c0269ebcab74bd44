-- ===== src/Identity.antt =====
-- crates/nux-core/src/identity.rs: where a node's key comes from and how it is kept. The file system
-- is seen at one path; the bits of a mode that `0o077` and `0o777` select are the remainders by 64
-- and by 512. The wiping of buffers is not modelled.
pub mod Keys
mod Tests
use nux_auth.Prelude.{
  ℕ, ◌+◌, ◌%◌, Bool, true, false, not, List, [], Option, none, some, length, ◌==◌, if◌then◌else◌,
  Result, ok, err, ◌>>=◌, or_fail, ◌≡◌, map_err,
}
use nux_auth.Error.{IoError, other, NuxError, NuxResult}

abbrev pub ed25519_secret_len : ℕ
ed25519_secret_len = 32

-- The key pairs of libp2p: `try_into_ed25519` with `secret`, and `ed25519_from_bytes`, which gives
-- back the pair whose secret it is given.
pub record Ed25519 (Keypair : Type 0) : Type 0 where
  pub secret_of : Keypair → Option (List ℕ)
  pub ed25519_from_bytes : List ℕ → Option Keypair
  pub sized : (kp : Keypair) (s : List ℕ) → secret_of kp ≡ some s → length s ≡ ed25519_secret_len
  pub recovered :
      (kp : Keypair) (s : List ℕ) → secret_of kp ≡ some s → ed25519_from_bytes s ≡ some kp

-- A file: what `metadata` and `read` answer.
pub record KeyFile : Type 0 where
  pub bytes : List ℕ
  pub mode : ℕ
  pub readable : Bool

-- What the system does to a new file: the owner's bits that the umask takes from `0o600`, whether
-- the file can be made, how many bytes of it are on the disk when `write_all` and `sync_all` are
-- over, and whether they succeed, which they do only with all of them.
pub record Creation : Type 0 where
  pub no_read : Bool
  pub no_write : Bool
  pub creatable : Bool
  pub stored : List ℕ → List ℕ × Bool
  pub whole : (b : List ℕ) → (stored b).1 ≡ true → (stored b).0 ≡ b

abbrev pub created_mode : Creation → ℕ
created_mode c = (if c.no_read then 0 else 256) + (if c.no_write then 0 else 128)

unfoldable pub ensure_owner_only : Option KeyFile → NuxResult (Unit {0})
ensure_owner_only none = err (NuxError.io other)
ensure_owner_only (some file) =
    if not (file.mode % 64 == 0)
    then err (NuxError.insecure_key_permissions (file.mode % 512))
    else ok tt

-- `open` with `create_new` and the mode `0o600`, and the writing.
unfoldable pub create : Creation → List ℕ → Option KeyFile → Option KeyFile × NuxResult (Unit {0})
create c secret (some there) = (some there, err (NuxError.io other))
create c secret none = if not c.creatable then (none, err (NuxError.io other)) else (
  some (record { bytes = (c.stored secret).0; mode = created_mode c; readable = not c.no_read }),
  if (c.stored secret).1 then ok tt else err (NuxError.io other),
)

module _ {Keypair : Type 0} (keys : Ed25519 Keypair) where
  unfoldable pub keypair_from_secret_bytes : List ℕ → Option Keypair
  keypair_from_secret_bytes raw =
      if not (length raw == ed25519_secret_len) then none else keys.ed25519_from_bytes raw

  abbrev pub read : Option KeyFile → NuxResult (List ℕ)
  read none = err (NuxError.io other)
  read (some file) = if file.readable then ok file.bytes else err (NuxError.io other)

  unfoldable pub from_file : Option KeyFile → NuxResult Keypair
  unfolding ensure_owner_only keypair_from_secret_bytes
  from_file file = do
    _ ← ensure_owner_only file
    raw ← read file
    or_fail NuxError.identity (keypair_from_secret_bytes raw)

  -- `hex::decode` behind `trim`, on a variable that may be absent.
  unfoldable pub from_env : (List ℕ → Option (List ℕ)) → Option (List ℕ) → NuxResult Keypair
  unfolding keypair_from_secret_bytes
  from_env decode_trimmed variable = do
    encoded ← or_fail NuxError.identity variable
    raw ← or_fail NuxError.identity (decode_trimmed encoded)
    or_fail NuxError.identity (keypair_from_secret_bytes raw)

  -- What is at the path afterwards, and the answer.
  unfoldable pub save_to_file :
      Creation → Keypair → Option KeyFile → Option KeyFile × NuxResult (Unit {0})
  unfolding create
  save_to_file c keypair file = elim (keys.secret_of keypair) [
    | none ↦ (file, err NuxError.identity)
    | some secret ↦ create c secret file
  ]

-- ===== src/Relay/Key.antt =====
-- nodes_relay/src/manage_key/key.rs: the relay's key on disk, at one path. The encoding of keys is
-- libp2p's; the wiping of buffers is not modelled.
use nux_auth.Prelude.{
  ℕ, ◌≡◌, refl, Bool, true, List, [], ◌∷◌, Option, none, some, arith, if◌then◌else◌, Result, ok,
  err, or_fail, Option-cases, inl, inr,
}
use nux_auth.Identity.{KeyFile}

-- `to_protobuf_encoding` and `from_protobuf_encoding`, which reads what the former wrote.
pub record Protobuf (Keypair : Type 0) : Type 0 where
  pub to_protobuf_encoding : Keypair → Option (List ℕ)
  pub from_protobuf_encoding : List ℕ → Option Keypair
  pub reads_back :
      (kp : Keypair) (b : List ℕ)
      → to_protobuf_encoding kp ≡ some b
      → from_protobuf_encoding b ≡ some kp

-- Whether `fs::write` can create the file; what it then leaves, with the mode that the umask gives a
-- new file, and whether it succeeds, which it does only with the whole text; and whether the mode can
-- then be set.
pub record Disk : Type 0 where
  pub creatable : Bool
  pub new_mode : ℕ
  pub stored : List ℕ → List ℕ × Bool
  pub whole : (b : List ℕ) → (stored b).1 ≡ true → (stored b).0 ≡ b
  pub chmod : Bool

-- `0o600`
abbrev pub owner_only : ℕ
owner_only = 384

-- The errors are boxed, and not told apart.
abbrev pub Boxed : Type 0 → Type 0
Boxed = Result (Unit {0})

-- The files that stand at the path one after the other, the last one staying, and the answer.
unfoldable pub write_secret_file : Disk → List ℕ → List KeyFile × Boxed (Unit {0})
write_secret_file disk secret =
    let (bytes, written) = disk.stored secret in
    let made : KeyFile = record { bytes = bytes; mode = disk.new_mode; readable = true } in
    if disk.creatable
    then (if written
        then (if disk.chmod
            then (made ∷ record made { mode = owner_only } ∷ [], ok tt)
            else (made ∷ [], err tt))
        else (made ∷ [], err tt))
    else ([], err tt)

abbrev pub last_of : List KeyFile → Option KeyFile → Option KeyFile
last_of [] file = file
last_of (f ∷ fs) file = last_of fs (some f)

module _ {Keypair : Type 0} (proto : Protobuf Keypair) where
  -- `generated` is the random key. The file afterwards, and the answer.
  unfoldable pub load_or_generate_keypair :
      Disk → Keypair → Option KeyFile → Option KeyFile × Boxed Keypair
  unfolding write_secret_file
  load_or_generate_keypair disk generated (some file) = (
    some file,
    if file.readable then or_fail tt (proto.from_protobuf_encoding file.bytes) else err tt,
  )
  load_or_generate_keypair disk generated none = elim (proto.to_protobuf_encoding generated) [
    | none ↦ (none, err tt)
    | some encoded ↦
        let (files, done) = write_secret_file disk encoded in
        (last_of files none, elim done [ ok u ↦ ok generated | err e ↦ err e ])
  ]

  -- A relay keeps its identity: a start without a file that succeeds leaves a file for the owner
  -- only, and a later start, whatever key it would generate, finds the same key and leaves that file.
  pub load_or_generate_keypair-kept :
      (disk disk' : Disk) (generated generated' kp : Keypair)
      → (load_or_generate_keypair disk generated none).1 ≡ ok kp
      → (file : KeyFile) × ((load_or_generate_keypair disk generated none).0 ≡ some file)
        × (file.mode ≡ owner_only)
        × (load_or_generate_keypair disk' generated' (some file) ≡ (some file, ok kp))
  unfolding load_or_generate_keypair write_secret_file
  load_or_generate_keypair-kept disk disk' generated generated' kp h =
      elim (Option-cases (proto.to_protobuf_encoding generated)) [
        | inl bad ↦ absurd (ground arith)
        | inr (encoded, good) ↦
            let back = proto.reads_back generated encoded good in
            let all = disk.whole encoded in
            (
              record { bytes = encoded; mode = owner_only; readable = true },
              ground arith,
              refl,
              ground arith,
            )
      ]

-- ===== src/Identity/Keys.antt =====
-- What crates/nux-core/src/identity.rs guarantees of a key on disk.
use nux_auth.Prelude.{
  ◌%◌, ◌≡◌, ◌↔◌, ◌⊎◌, refl, true, false, not, Option, none, some, arith, length, ok, Option-cases,
  Bool-cases, inl, inr,
}
use nux_auth.Identity.{
  Ed25519, KeyFile, Creation, created_mode, ensure_owner_only, keypair_from_secret_bytes, from_file,
  save_to_file, create,
}

module _ {Keypair : Type 0} (keys : Ed25519 Keypair) where
  -- A key is loaded from a file exactly if the file is there, readable and without any right for the
  -- group and the others, and its bytes are 32 and make that key.
  pub from_file_iff :
      (file : KeyFile) (kp : Keypair)
      → (from_file keys (some file) ≡ ok kp) ↔ (
          (file.mode % 64 ≡ 0)
          × (file.readable ≡ true)
          × (length file.bytes ≡ 32)
          × (keys.ed25519_from_bytes file.bytes ≡ some kp))
  unfolding from_file ensure_owner_only keypair_from_secret_bytes
  from_file_iff file kp = (
    λ h. (ground arith, ground arith, ground arith, ground arith),
    λ h. ground (arith, h.0, h.1, h.2, h.3),
  )

  private_mode : (c : Creation) → created_mode c % 64 ≡ 0
  private_mode c = elim (Bool-cases c.no_read) [
    | inl a ↦ elim (Bool-cases c.no_write) [ inl b ↦ rw (a, b) refl | inr b ↦ rw (a, b) refl ]
    | inr a ↦ elim (Bool-cases c.no_write) [ inl b ↦ rw (a, b) refl | inr b ↦ rw (a, b) refl ]
  ]

  -- Whatever a save comes to, a file that was there is as it was, and one that was not is either not
  -- there still or gives no right to the group and the others, however little of it was written.
  pub save_to_file-private :
      (c : Creation) (kp : Keypair) (file : Option KeyFile)
      → let r = save_to_file keys c kp file in
        (r.0 ≡ file) ⊎ ((file ≡ none) × (made : KeyFile) × (r.0 ≡ some made) × (made.mode % 64 ≡ 0))
  unfolding save_to_file create
  save_to_file-private c kp none = elim (Option-cases (keys.secret_of kp)) [
    | inl foreign ↦ inl (ground arith)
    | inr (secret, own) ↦ elim (Bool-cases c.creatable) [
      | inl can ↦ inr (
        refl,
        record { bytes = (c.stored secret).0; mode = created_mode c; readable = not c.no_read },
        ground arith,
        private_mode c,
      )
      | inr cannot ↦ inl (ground arith)
    ]
  ]
  save_to_file-private c kp (some file) = inl (ground arith)

  -- A key that a save has written to a new file, in a process whose umask leaves the owner's right to
  -- read, is the key that is loaded from it.
  pub from_file-save :
      (c : Creation) (kp : Keypair)
      → c.no_read ≡ false
      → (save_to_file keys c kp none).1 ≡ ok tt
      → from_file keys (save_to_file keys c kp none).0 ≡ ok kp
  unfolding save_to_file create from_file ensure_owner_only keypair_from_secret_bytes
  from_file-save c kp readable h = elim (Option-cases (keys.secret_of kp)) [
    | inl foreign ↦ absurd (ground arith)
    | inr (secret, own) ↦ ground (
      arith,
      readable,
      c.whole secret,
      keys.sized kp secret own,
      keys.recovered kp secret own,
      private_mode c,
    )
  ]

-- ===== src/Identity/Tests.antt =====
-- Keys on concrete files: a key pair is its secret.
use nux_auth.Prelude.{
  ℕ, ◌%◌, ◌≡◌, ◌⊎◌, refl, true, false, List, [], ◌∷◌, Option, none, some, arith, length, ◌==◌,
  if◌then◌else◌,
}
use nux_auth.Identity.{Ed25519, KeyFile, Creation, save_to_file}
use nux_auth.Identity.Keys.{save_to_file-private}

abbrev secret : List ℕ
secret =
    1 ∷ 2 ∷ 3 ∷ 4 ∷ 5 ∷ 6 ∷ 7 ∷ 8 ∷ 1 ∷ 2 ∷ 3 ∷ 4 ∷ 5 ∷ 6 ∷ 7 ∷ 8 ∷ 1 ∷ 2 ∷ 3 ∷ 4 ∷ 5 ∷ 6 ∷ 7 ∷ 8
    ∷ 1 ∷ 2 ∷ 3 ∷ 4 ∷ 5 ∷ 6 ∷ 7 ∷ 8 ∷ []

abbrev long_enough : List ℕ → Option (List ℕ)
long_enough s = if length s == 32 then some s else none

long_enough-length : (kp s : List ℕ) → long_enough kp ≡ some s → length s ≡ 32
long_enough-length kp s h = ground arith

long_enough-some : (kp s : List ℕ) → long_enough kp ≡ some s → some s ≡ some kp
long_enough-some kp s h = ground arith

abbrev keys : Ed25519 (List ℕ)
keys = record {
  secret_of = long_enough;
  ed25519_from_bytes = some;
  sized = long_enough-length;
  recovered = long_enough-some;
}

abbrev disk : Creation
disk = record {
  no_read = false;
  no_write = false;
  creatable = true;
  stored = λ b. (b, true);
  whole = λ b h. refl;
}

abbrev key_file : KeyFile
key_file = record { bytes = secret; mode = 33152; readable = true }

abbrev no_file : Option KeyFile
no_file = none

save_to_file-private_example :
    let r = save_to_file keys disk secret no_file in
    (r.0 ≡ no_file)
    ⊎ ((no_file ≡ none) × (made : KeyFile) × (r.0 ≡ some made) × (made.mode % 64 ≡ 0))
save_to_file-private_example = save_to_file-private keys disk secret no_file

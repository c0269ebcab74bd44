-- ===== src/Cli/Keygen/Tests.antt =====
-- A key of 32 bytes, and a Guard that is started with its file.
use nux_auth.Prelude.{
  ℕ, ◌≡◌, refl, true, false, List, [], ◌∷◌, Option, none, some, arith, length, ◌==◌, nat_eq, ok,
  if◌then◌else◌,
}
use nux_auth.Identity.{Ed25519, Creation, create, save_to_file}
use nux_auth.Node.{NodeMode}
use nux_auth.Builder.{Host, Built, build}
use nux_auth.Cli.Start.{builder}
use nux_auth.Cli.Keygen.{keygen, keygen-build}

abbrev secret : List ℕ
secret =
    1 ∷ 2 ∷ 3 ∷ 4 ∷ 5 ∷ 6 ∷ 7 ∷ 8 ∷ 1 ∷ 2 ∷ 3 ∷ 4 ∷ 5 ∷ 6 ∷ 7 ∷ 8 ∷ 1 ∷ 2 ∷ 3 ∷ 4 ∷ 5 ∷ 6 ∷ 7 ∷ 8
    ∷ 1 ∷ 2 ∷ 3 ∷ 4 ∷ 5 ∷ 6 ∷ 7 ∷ 8 ∷ []

abbrev long_enough : List ℕ → Option (List ℕ)
long_enough s = if length s == 32 then some s else none

long_enough-length : (kp s : List ℕ) → long_enough kp ≡ some s → length s ≡ 32
long_enough-length kp s h = ground arith

long_enough-some : (kp s : List ℕ) → long_enough kp ≡ some s → some s ≡ some kp
long_enough-some kp s h = ground arith

abbrev keys : Ed25519 (List ℕ)
keys = record {
  secret_of = long_enough;
  ed25519_from_bytes = some;
  sized = long_enough-length;
  recovered = long_enough-some;
}

abbrev disk : Creation
disk = record {
  no_read = false;
  no_write = false;
  creatable = true;
  stored = λ b. (b, true);
  whole = λ b h. refl;
}

-- The new file stands at the one path.
abbrev host : Host (List ℕ) ℕ (List ℕ)
host = record {
  generated = [];
  key_file = λ path. (keygen keys disk secret none).0;
  variable = λ name. none;
  decode_trimmed = some;
  assembled = true;
  listens = λ addr. true;
  now = 0;
}

keygen-build_example :
    (node : Built (List ℕ) (List ℕ) ℕ) × (build keys nat_eq host
        (builder host NodeMode.guard (some 0))
      ≡ ok node)
    × (node.keypair ≡ secret)
    × (node.mode ≡ NodeMode.guard)
unfolding keygen save_to_file create
keygen-build_example =
    keygen-build keys nat_eq disk secret host NodeMode.guard 0 refl refl refl refl

-- ===== src/Cli/Keygen.antt =====
-- crates/nux-cli/src/main.rs, the command `keygen`, and a node that is started with its file.
mod Tests
use nux_auth.Prelude.{
  ◌≡◌, ◌∙◌, ap, true, false, Option, none, some, arith, Eq, ok, Result-cases, inl, inr,
}
use nux_auth.Error.{NuxResult}
use nux_auth.Identity.{Ed25519, KeyFile, Creation, from_file, save_to_file}
use nux_auth.Identity.Keys.{from_file-save}
use nux_auth.Node.{NodeMode}
use nux_auth.Builder.{Host, Built, build, resolve_identity, listen_all}
use nux_auth.Cli.Start.{builder}

module _ {Keypair : Type 0} (keys : Ed25519 Keypair) where
  -- `generated` is the key of `identity::generate`. What is at the path afterwards, and the answer.
  unfoldable pub keygen :
      Creation → Keypair → Option KeyFile → Option KeyFile × NuxResult (Unit {0})
  keygen c generated file = save_to_file keys c generated file

  -- A node of either kind, as `builder` sets it up from the path of a key, that is started with the file
  -- that `keygen` has written, where that file can be read and a node can be assembled at all, has the
  -- key that `keygen` has made.
  pub keygen-build :
      {File Multiaddr Ip : Type 0} (ip : Eq Ip) (c : Creation) (generated : Keypair)
      (host : Host Keypair File Multiaddr) (mode : NodeMode) (path : File)
      → c.no_read ≡ false
      → (keygen c generated none).1 ≡ ok tt
      → host.key_file path ≡ (keygen c generated none).0
      → host.assembled ≡ true
      → (node : Built Keypair Multiaddr Ip) × (build keys ip host (builder host mode (some path))
          ≡ ok node)
        × (node.keypair ≡ generated)
        × (node.mode ≡ mode)
  unfolding keygen build builder resolve_identity listen_all
  keygen-build ip c generated host mode path readable written found up =
      let saved = from_file-save keys c generated readable written in
      let loaded : from_file keys (host.key_file path) ≡ ok generated =
        ap (from_file keys) found ∙ saved in
      elim (Result-cases (build keys ip host (builder host mode (some path)))) [
        | inl (node, built) ↦
            (node, built, ground (arith, built, loaded, up), ground (arith, built, loaded, up))
        | inr (x, failed) ↦ absurd (ground (arith, failed, loaded, up))
      ]

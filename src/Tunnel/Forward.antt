-- ===== src/Tunnel/Forward.antt =====
-- crates/nux-core/src/tunnel/mod.rs, `forward_listener`, `forward_unix_listener` and
-- `bind_forward_socket`: the local ports that a client forwards.
use nux_auth.Prelude.{
  ℕ, ◌≡◌, refl, Bool, true, false, List, [], ◌∷◌, Option, none, some, arith, keep, any, ◌==◌,
  if◌then◌else◌, ok, err, is_some,
}
use nux_auth.Error.{IoError, IoResult}

-- What wakes the loop: a connection, a failed `accept`, or the cancelled token.
pub data Wake (Conn : Type 0) : Type 0 where
  accepted : Conn → Wake Conn
  failed : Wake Conn
  cancelled : Wake Conn

-- `peer_uid_authorized`: the credentials come from the kernel, or cannot be read.
unfoldable pub peer_uid_authorized : Option ℕ → List ℕ → Bool
peer_uid_authorized none allowed_uids = false
peer_uid_authorized (some uid) allowed_uids = any (λ u. u == uid) allowed_uids

module _ {Conn : Type 0} where
  -- The connections that are handed to a relay, in order. A failed `accept` is only slept over.
  unfoldable pub forward_listener : List (Wake Conn) → List Conn
  forward_listener [] = []
  forward_listener (cancelled ∷ wakes) = []
  forward_listener (failed ∷ wakes) = forward_listener wakes
  forward_listener (accepted local ∷ wakes) = local ∷ forward_listener wakes

  unfoldable pub forward_unix_listener : (Conn → Option ℕ) → List ℕ → List (Wake Conn) → List Conn
  forward_unix_listener peer_cred allowed_uids [] = []
  forward_unix_listener peer_cred allowed_uids (cancelled ∷ wakes) = []
  forward_unix_listener peer_cred allowed_uids (failed ∷ wakes) =
      forward_unix_listener peer_cred allowed_uids wakes
  forward_unix_listener peer_cred allowed_uids (accepted local ∷ wakes) =
      let rest = forward_unix_listener peer_cred allowed_uids wakes in
      if peer_uid_authorized (peer_cred local) allowed_uids then local ∷ rest else rest

  -- The Unix socket relays what the TCP port would, less the connections whose kernel credentials
  -- name no allowed user: those are dropped, and neither they nor a failed `accept` stop the loop.
  pub forward_unix_listener-keep :
      (peer_cred : Conn → Option ℕ) (allowed_uids : List ℕ) (wakes : List (Wake Conn))
      → forward_unix_listener peer_cred allowed_uids wakes
        ≡ keep (λ c. peer_uid_authorized (peer_cred c) allowed_uids) (forward_listener wakes)
  unfolding forward_unix_listener forward_listener
  forward_unix_listener-keep peer_cred allowed_uids [] = refl
  forward_unix_listener-keep peer_cred allowed_uids (cancelled ∷ wakes) = refl
  forward_unix_listener-keep peer_cred allowed_uids (failed ∷ wakes) =
      forward_unix_listener-keep peer_cred allowed_uids wakes
  forward_unix_listener-keep peer_cred allowed_uids (accepted local ∷ wakes) =
      ground (arith, forward_unix_listener-keep peer_cred allowed_uids wakes)

-- What stands at the path of the socket.
pub data FileKind : Type 0 where
  socket regular symlink directory : FileKind

pub record Entry : Type 0 where
  pub kind : FileKind
  pub mode : ℕ

-- The entry at the path, before and after; `bind` fails where something is left, or where the
-- system refuses it, and a fresh socket has the mode that the umask gives.
pub record Paths : Type 0 where
  pub entry : Option Entry
  pub removable : Bool
  pub binds : Bool
  pub umask_mode : ℕ
  pub chmods : Bool

abbrev pub is_socket : Option Entry → Bool
is_socket none = false
is_socket (some e) = elim e.kind [ socket ↦ true | _ ↦ false ]

unfoldable pub remove_stale : Paths → Option Entry
remove_stale p = if is_socket p.entry then (if p.removable then none else p.entry) else p.entry

unfoldable pub bind_forward_socket : Paths → Option Entry × IoResult (Unit {0})
unfolding remove_stale
bind_forward_socket p =
    if is_some (remove_stale p)
    then (remove_stale p, err IoError.other)
    else if p.binds
    then if p.chmods
      then (some (record { kind = socket; mode = 0o600 }), ok tt)
      else (some (record { kind = socket; mode = p.umask_mode }), err IoError.other)
    else (none, err IoError.other)

-- A file at the path that is no socket stays as it is, and the call fails.
pub bind_forward_socket-keeps :
    (p : Paths) (e : Entry)
    → p.entry ≡ some e
    → is_socket (some e) ≡ false
    → bind_forward_socket p ≡ (some e, err IoError.other)
unfolding bind_forward_socket
bind_forward_socket-keeps p e at plain = ground arith

-- A call that succeeds leaves a socket at the path that only its owner may use.
pub bind_forward_socket-private :
    (p : Paths)
    → (bind_forward_socket p).1 ≡ ok tt
    → (bind_forward_socket p).0 ≡ some (record { kind = socket; mode = 0o600 })
unfolding bind_forward_socket
bind_forward_socket-private p done = ground arith

-- ===== src/Node/Reload.antt =====
-- crates/nux-core/src/node.rs, `ReloadWhitelist`: what becomes of each session.
use nux_auth.Prelude.{
  ◌≡◌, ◌∙◌, ap, refl, List, [], ◌∷◌, none, arith, All, keep, if◌then◌else◌, Option-cases, inl, inr,
  is_some, is_none,
}
use nux_auth.Prelude.Assoc.{lookup, Distinct, lookup-remove}
use nux_auth.Auth
use nux_auth.Auth.{GuardAuthenticator, session_roles, revoke}
use nux_auth.Net.{Net}
use nux_auth.Whitelist
use nux_auth.Whitelist.{Whitelist}
use nux_auth.Whitelist.Laws.{roles-revoke, revoke-Distinct}
use nux_auth.Node.Loop.{GuardLoop, cut_off, cut_off_all, reload}

module _ {Peer Key : Type 0} (net : Net Peer Key) where
  -- A peer that the whitelist does not name.
  abbrev pub Unlisted : Whitelist Peer → Peer → Type 0
  Unlisted w p = Whitelist.roles net w p ≡ none

  Unlisted-revoke :
      (w : Whitelist Peer) (q : Peer) (ps : List Peer)
      → Distinct net.peer w
      → All (Unlisted w) ps
      → All (Unlisted (Whitelist.revoke net q w)) ps
  Unlisted-revoke w q [] d h = tt
  Unlisted-revoke w q (p ∷ ps) d h =
      (ground (arith, roles-revoke net w q p d, h.0), Unlisted-revoke w q ps d h.1)

  -- To revoke a peer that is not listed changes nobody's roles.
  revoke-same :
      (a : GuardAuthenticator Peer) (q p : Peer)
      → Distinct net.peer a.whitelist
      → Unlisted a.whitelist q
      → session_roles net (revoke net a q).0 p ≡ session_roles net a p
  unfolding session_roles revoke
  revoke-same a q p d h = ground (
    arith,
    roles-revoke net a.whitelist q p d,
    lookup-remove net.peer q p a.sessions,
    h,
    net.peer.beq_iff q p,
  )

  keep-Unlisted :
      (w : Whitelist Peer) (ps : List Peer)
      → All (Unlisted w) (keep (λ p. is_none (Whitelist.roles net w p)) ps)
  keep-Unlisted w [] = tt
  keep-Unlisted w (p ∷ ps) = elim (Option-cases (Whitelist.roles net w p)) [
    | inl gone ↦ rw gone (gone, keep-Unlisted w ps)
    | inr (r, known) ↦ rw known (keep-Unlisted w ps)
  ]

  cut_off-authenticator :
      (g : GuardLoop Peer) (p : Peer)
      → (cut_off net g p).0.node.authenticator ≡ (revoke net g.node.authenticator p).0
  unfolding cut_off
  cut_off-authenticator g p = ground arith

  cut_off_all-same :
      (g : GuardLoop Peer) (ps : List Peer) (p : Peer)
      → Distinct net.peer g.node.authenticator.whitelist
      → All (Unlisted g.node.authenticator.whitelist) ps
      → session_roles net (cut_off_all net g ps).0.node.authenticator p
        ≡ session_roles net g.node.authenticator p
  unfolding cut_off_all revoke
  cut_off_all-same g [] p d h = refl
  cut_off_all-same g (q ∷ ps) p d h =
      let a = g.node.authenticator in
      let after = cut_off-authenticator g q in
      let d' : Distinct net.peer (cut_off net g q).0.node.authenticator.whitelist =
        rw after (revoke-Distinct net a.whitelist q d) in
      let h' : All (Unlisted (cut_off net g q).0.node.authenticator.whitelist) ps =
        rw after (Unlisted-revoke a.whitelist q ps d h.1) in
      cut_off_all-same (cut_off net g q).0 ps p d' h'
      ∙ ap (λ b. session_roles net b p) after
      ∙ revoke-same a q p d h.0

  session_roles_if :
      (a : GuardAuthenticator Peer) (p : Peer)
      → session_roles net a p ≡ (
          if is_some (lookup net.peer p a.sessions)
          then Whitelist.roles net a.whitelist p
          else none)
  unfolding session_roles
  session_roles_if a p = ground arith

  -- After a reload every peer has the roles of the new list if it had a session, and none if it had
  -- not: who is not on the new list has lost them at once.
  pub reload-session_roles :
      (g : GuardLoop Peer) (entries : Whitelist Peer) (p : Peer)
      → Distinct net.peer entries
      → session_roles net (reload net g entries).0.node.authenticator p ≡ (
          if is_some (lookup net.peer p g.node.authenticator.sessions)
          then Whitelist.roles net entries p
          else none)
  unfolding reload
  reload-session_roles g entries p d =
      let g1 : GuardLoop Peer = record g {
        node = record g.node {
          authenticator = record (g.node.authenticator) { whitelist = entries };
        };
      } in
      let ps =
        keep (λ q. is_none (Whitelist.roles net entries q))
          (Auth.authenticated_peers net g.node.authenticator) in
      cut_off_all-same g1 ps p d (keep-Unlisted entries _)
      ∙ session_roles_if g1.node.authenticator p

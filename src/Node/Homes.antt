-- ===== src/Node/Homes.antt =====
-- crates/nux-core/src/node.rs, `run_guard_loop`: the semaphore of one peer, and what leaves it alone.
use nux_auth.Prelude.{
  ℕ, zero, suc, ◌≤◌, ◌≡◌, refl, ◌∙◌, ap, Bool, true, false, List, [], ◌∷◌, Option, none, some,
  arith, ==_iff, ◌&&◌, not, count, any, keep, is_some, Bool-cases, inl, inr,
}
use nux_auth.Prelude.Assoc.{lookup, lookup-remove}
use nux_auth.Whitelist
use nux_auth.Net.{Net}
use nux_auth.Node.{connection_closed, Chance, GuardControl}
use nux_auth.Node.Loop.{Task, GuardLoop, Wake, swarm, command, remove_at, cut_off, cut_off_all}
use nux_auth.Node.Permits.{holds}

module _ {Peer Key : Type 0} (net : Net Peer Key) (p : Peer) where
  abbrev pub is_of : Task Peer → Bool
  is_of t = net.peer.beq t.peer p

  -- Every tunnel of the peer holds a permit of the semaphore that the table has for it.
  abbrev pub OnEntry : Option ℕ → List (Task Peer) → Type 0
  OnEntry entry [] = Unit {0}
  OnEntry entry (t ∷ ts) = (is_of t ≡ true → entry ≡ some (t.semaphore)) × OnEntry entry ts

  abbrev pub Homed : GuardLoop Peer → Type 0
  Homed g = OnEntry (lookup net.peer p g.per_peer) g.tasks

  pub OnEntry-none :
      (entry : Option ℕ) (ts : List (Task Peer)) → count is_of ts ≡ 0 → OnEntry entry ts
  OnEntry-none entry [] h = tt
  OnEntry-none entry (t ∷ ts) h =
      (λ own. absurd (ground (arith, own, h)), OnEntry-none entry ts (ground (arith, h)))

  pub OnEntry-count :
      (s : ℕ) (ts : List (Task Peer)) → OnEntry (some s) ts → count is_of ts ≤ count (holds s) ts
  OnEntry-count s [] o = omega arith
  OnEntry-count s (t ∷ ts) (o, os) =
      let rest = OnEntry-count s ts os in
      elim (Bool-cases (is_of t)) [
        | inl own ↦ ground (arith, own, rest, o own, ==_iff t.semaphore s)
        | inr away ↦ ground (arith, away, rest)
      ]

  pub OnEntry-absent : (ts : List (Task Peer)) → OnEntry none ts → count is_of ts ≡ 0
  OnEntry-absent [] o = refl
  OnEntry-absent (t ∷ ts) (o, os) =
      let rest = OnEntry-absent ts os in
      elim (Bool-cases (is_of t)) [
        | inl own ↦ absurd (ground (arith, o own))
        | inr away ↦ ground (arith, away, rest)
      ]

  pub OnEntry-remove_at :
      (entry : Option ℕ) (i : ℕ) (ts : List (Task Peer))
      → OnEntry entry ts
      → OnEntry entry (remove_at i ts)
  unfolding remove_at
  OnEntry-remove_at entry i [] o = tt
  OnEntry-remove_at entry zero (t ∷ ts) (o, os) = os
  OnEntry-remove_at entry (suc i) (t ∷ ts) (o, os) = (o, OnEntry-remove_at entry i ts os)

  -- A wake behind which the peer still has its connection.
  abbrev pub stays : Wake Peer → Bool
  stays (swarm (connection_closed q zero)) = not (net.peer.beq q p)
  stays (command (some (GuardControl.revoke q)) now) = not (net.peer.beq q p)
  stays (command (some (GuardControl.reload_whitelist entries)) now) =
      is_some (Whitelist.roles net entries p)
  stays _ = true

  abbrev pub stays_all : List (Wake Peer × Chance) → Bool
  stays_all [] = true
  stays_all ((w, c) ∷ ws) = stays w && stays_all ws

  -- A turn that leaves the tunnels and the peer's entry alone.
  pub record SameEntry (g g' : GuardLoop Peer) : Type 0 where
    pub entry : lookup net.peer p g'.per_peer ≡ lookup net.peer p g.per_peer
    pub tasks : g'.tasks ≡ g.tasks

  pub SameEntry-Homed : {g g' : GuardLoop Peer} → SameEntry g g' → Homed g → Homed g'
  SameEntry-Homed {g} {g'} s h = rw (s.entry, s.tasks) h

  pub cut_off-SameEntry :
      (g : GuardLoop Peer) (q : Peer) → net.peer.beq q p ≡ false → SameEntry g (cut_off net g q).0
  unfolding cut_off
  cut_off-SameEntry g q away =
      let kept = lookup-remove net.peer q p g.per_peer in
      record { entry = ground (arith, kept); tasks = ground arith }

  SameEntry-trans : {g h k : GuardLoop Peer} → SameEntry g h → SameEntry h k → SameEntry g k
  SameEntry-trans a b = record { entry = b.entry ∙ a.entry; tasks = b.tasks ∙ a.tasks }

  pub cut_off_all-SameEntry :
      (g : GuardLoop Peer) (qs : List Peer)
      → any (λ q. net.peer.beq q p) qs ≡ false
      → SameEntry g (cut_off_all net g qs).0
  unfolding cut_off_all
  cut_off_all-SameEntry g [] away = record { entry = refl; tasks = refl }
  cut_off_all-SameEntry g (q ∷ qs) away =
      SameEntry-trans (cut_off-SameEntry g q (ground (arith, away)))
        (cut_off_all-SameEntry (cut_off net g q).0 qs (ground (arith, away)))

  pub keep-spares :
      (unlisted : Peer → Bool) (qs : List Peer)
      → unlisted p ≡ false
      → any (λ q. net.peer.beq q p) (keep unlisted qs) ≡ false
  keep-spares unlisted [] h = refl
  keep-spares unlisted (q ∷ qs) h =
      let rest = keep-spares unlisted qs h in
      elim (Bool-cases (net.peer.beq q p)) [
        | inl same ↦
            let gone : unlisted q ≡ false = ap unlisted ((net.peer.beq_iff q p).0 same) ∙ h in
            ground (arith, gone, rest)
        | inr away ↦ ground (arith, away, rest)
      ]

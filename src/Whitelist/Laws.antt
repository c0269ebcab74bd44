-- ===== src/Whitelist/Laws.antt =====
-- The walk in constant time answers as a plain lookup, and what `allow` and `revoke` do to it.
use nux_auth.Prelude.{
  ℕ, suc, ◌+◌, ◌≡◌, ◌⊎◌, inl, inr, refl, ap, [], ◌∷◌, Option, none, some, arith, get_elem?,
  if◌then◌else◌, Bool-cases,
}
use nux_auth.Prelude.Assoc.{
  lookup, Distinct, insert, remove, lookup-insert, lookup-remove, insert-Distinct, remove-Distinct,
}
use nux_auth.Net.{Net}
use nux_auth.Whitelist.{Whitelist, Roles, allow, revoke, same_bytes, scan, roles}

module _ {Peer Key : Type 0} (net : Net Peer Key) where
  -- Comparing bytes is comparing identities.
  pub same_bytes-peer :
      (p q : Peer) → same_bytes net (net.to_bytes p) (net.to_bytes q) ≡ net.peer.beq p q
  unfolding same_bytes
  same_bytes-peer p q =
      let bytes : p ≡ q → net.to_bytes p ≡ net.to_bytes q = λ e. ap net.to_bytes e in
      ground (
        arith,
        net.peer.beq_iff p q,
        net.constant_time_eq_iff (net.to_bytes p) (net.to_bytes q),
        net.to_bytes_inj p q,
        bytes,
      )

  -- The walk from `index` on: it keeps `found`, or ends at the entry of the peer.
  abbrev ScanEnds : Peer → ℕ → Whitelist Peer → Option ℕ → Type 0
  ScanEnds p index entries found =
      ((lookup net.peer p entries ≡ none) × (scan net (net.to_bytes p) index entries found ≡ found))
      ⊎ ((k : ℕ) × (r : Roles) × (lookup net.peer p entries ≡ some r)
          × (scan net (net.to_bytes p) index entries found ≡ some (index + k))
          × (q : Peer) × (get_elem? entries k ≡ some (q, r)))

  scan-ScanEnds :
      (p : Peer) (index : ℕ) (entries : Whitelist Peer) (found : Option ℕ)
      → Distinct net.peer entries
      → ScanEnds p index entries found
  unfolding lookup scan
  scan-ScanEnds p index [] found d = inl (refl, refl)
  scan-ScanEnds p index ((q, r) ∷ entries) found d = elim (Bool-cases (net.peer.beq q p)) [
    | inl here ↦ elim (scan-ScanEnds p (suc index) entries (some index) d.1) [
      | inl (gone, kept) ↦ inr (0, r, ground arith, ground (arith, same_bytes-peer q p), q, refl)
      | inr (k, r', twice, _, _, _) ↦ absurd (ground (arith, net.peer.beq_iff q p, d.0))
    ]
    | inr there ↦ elim (scan-ScanEnds p (suc index) entries found d.1) [
      | inl (gone, kept) ↦ inl (ground arith, ground (arith, same_bytes-peer q p))
      | inr (k, r', known, ends, q', at) ↦
          inr (suc k, r', ground arith, ground (arith, same_bytes-peer q p), q', at)
    ]
  ]

  -- On a list that names each peer once, the walk over every entry in constant time finds what a
  -- plain lookup finds, and the entry that it indexes is there.
  pub roles-lookup :
      (entries : Whitelist Peer) (p : Peer)
      → Distinct net.peer entries
      → roles net entries p ≡ lookup net.peer p entries
  unfolding roles
  roles-lookup entries p d = elim (scan-ScanEnds p 0 entries none d) [
    | inl (gone, kept) ↦ rw (kept, roles, gone)
    | inr (k, r, known, ends, q, at) ↦ ground arith
  ]

  -- The index that the walk ends with is always one of the list, so that indexing does not panic.
  pub scan_in_range :
      (entries : Whitelist Peer) (p : Peer) (i : ℕ)
      → Distinct net.peer entries
      → scan net (net.to_bytes p) 0 entries none ≡ some i
      → (entry : Peer × Roles) × (get_elem? entries i ≡ some entry)
  scan_in_range entries p i d h = elim (scan-ScanEnds p 0 entries none d) [
    | inl (gone, kept) ↦ absurd (cc)
    | inr (k, r, known, ends, q, at) ↦ ((q, r), ground arith)
  ]

  -- After `allow` a peer has the new roles, and every other peer the roles that it had.
  pub roles-allow :
      (entries : Whitelist Peer) (p q : Peer) (r : Roles)
      → Distinct net.peer entries
      → roles net (allow net p r entries) q
        ≡ (if net.peer.beq p q then some r else roles net entries q)
  unfolding allow
  roles-allow entries p q r d =
      rw
        (
          roles-lookup (insert net.peer p r entries) q (insert-Distinct net.peer p r entries d),
          roles-lookup entries q d,
        )
        (lookup-insert net.peer p q r entries)

  -- After `revoke` a peer has no roles, and every other peer the roles that it had.
  pub roles-revoke :
      (entries : Whitelist Peer) (p q : Peer)
      → Distinct net.peer entries
      → roles net (revoke net p entries) q
        ≡ (if net.peer.beq p q then none else roles net entries q)
  unfolding revoke
  roles-revoke entries p q d =
      rw
        (
          roles-lookup (remove net.peer p entries) q (remove-Distinct net.peer p entries d),
          roles-lookup entries q d,
        )
        (lookup-remove net.peer p q entries)

  pub allow-Distinct :
      (entries : Whitelist Peer) (p : Peer) (r : Roles)
      → Distinct net.peer entries
      → Distinct net.peer (allow net p r entries)
  unfolding allow
  allow-Distinct entries p r d = insert-Distinct net.peer p r entries d

  pub revoke-Distinct :
      (entries : Whitelist Peer) (p : Peer)
      → Distinct net.peer entries
      → Distinct net.peer (revoke net p entries)
  unfolding revoke
  revoke-Distinct entries p d = remove-Distinct net.peer p entries d

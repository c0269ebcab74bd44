-- ===== src/Client/Rendezvous.antt =====
-- crates/nux-core/src/node.rs: a node that registers its name at a rendezvous point, and a client
-- that finds a Guard there.
use nux_auth.Prelude.{
  ℕ, zero, suc, ◌≡◌, ◌≤◌, refl, Bool, true, false, ◌&&◌, List, [], ◌∷◌, ◌++◌, Option, none, some,
  arith, length, get_elem?, if◌then◌else◌, Eq, ok, err, Option-cases, Bool-cases, Result-cases, inl,
  inr,
}
use nux_auth.Error.{NuxError, NuxResult}
use nux_auth.Client.{ClientEvent, wait_for_peer}

-- The events of the rendezvous behaviour; `other` stands for all else.
pub data RendezvousEvent (Peer Name Addr : Type 0) : Type 0 where
  registered : Peer → Name → RendezvousEvent Peer Name Addr
  register_failed : Peer → Name → RendezvousEvent Peer Name Addr
  discovered : Peer → List (Peer × List Addr) → RendezvousEvent Peer Name Addr
  discover_failed : Peer → RendezvousEvent Peer Name Addr
  unrelated : RendezvousEvent Peer Name Addr

-- What comes of one address: whether the swarm takes the call, and the events that come while the
-- client waits, which is ten seconds at most; a wait that they do not end has timed out.
pub record Attempt (Peer : Type 0) : Type 0 where
  pub redialled : Bool
  pub events : List (ClientEvent Peer)

module _ {Peer : Type 0} (e : Eq Peer) where
  unfoldable pub reached : Peer → Attempt Peer → Bool
  reached peer a =
      a.redialled && (elim (wait_for_peer e peer a.events) [ some (ok left) ↦ true | _ ↦ false ])

module _ {Peer Name Addr : Type 0} (e : Eq Peer) (names : Eq Name) where
  unfoldable pub await_registered :
      Peer → Name → List (RendezvousEvent Peer Name Addr) → Option (NuxResult (Unit {0}))
  await_registered node namespace [] = none
  await_registered node namespace (registered rz ns ∷ events) =
      let rest = await_registered node namespace events in
      if e.beq rz node && names.beq ns namespace then some (ok tt) else rest
  await_registered node namespace (register_failed rz ns ∷ events) =
      let rest = await_registered node namespace events in
      if e.beq rz node && names.beq ns namespace then some (err NuxError.network) else rest
  await_registered node namespace (_ ∷ events) = await_registered node namespace events

  -- `accepted` is what the behaviour's own `register` answers.
  unfoldable pub register_namespace :
      Bool → Peer → Name → List (RendezvousEvent Peer Name Addr) → Option (NuxResult (Unit {0}))
  unfolding await_registered
  register_namespace accepted node namespace events =
      if accepted then await_registered node namespace events else some (err NuxError.network)

  unfoldable pub await_registrations :
      Peer → List (RendezvousEvent Peer Name Addr) → Option (NuxResult (List (Peer × List Addr)))
  await_registrations node [] = none
  await_registrations node (discovered rz registrations ∷ events) =
      let rest = await_registrations node events in
      if e.beq rz node then some (ok registrations) else rest
  await_registrations node (discover_failed rz ∷ events) =
      let rest = await_registrations node events in
      if e.beq rz node then some (err NuxError.network) else rest
  await_registrations node (_ ∷ events) = await_registrations node events

  -- The peers and addresses of the two nested loops, in their order.
  unfoldable pub with_peer : Peer → List Addr → List (Peer × Addr)
  with_peer peer [] = []
  with_peer peer (addr ∷ addrs) = (peer, addr) ∷ with_peer peer addrs

  unfoldable pub candidates : List (Peer × List Addr) → List (Peer × Addr)
  unfolding with_peer
  candidates [] = []
  candidates ((peer, addrs) ∷ rest) = with_peer peer addrs ++ candidates rest

  -- One attempt for each address, until one is reached; `none` where the client still waits.
  unfoldable pub dial_each :
      List (Peer × Addr) → List (Attempt Peer) → Option (NuxResult (Peer × Addr))
  unfolding reached
  dial_each [] attempts = some (err NuxError.network)
  dial_each (c ∷ cs) [] = none
  dial_each (c ∷ cs) (a ∷ attempts) =
      let rest = dial_each cs attempts in if reached e c.0 a then some (ok c) else rest

  unfoldable pub discover_and_dial :
      Peer
      → List (RendezvousEvent Peer Name Addr)
      → List (Attempt Peer)
      → Option (NuxResult (Peer × Addr))
  unfolding await_registrations candidates dial_each
  discover_and_dial node events attempts = elim (await_registrations node events) [
    | none ↦ none
    | some (err x) ↦ some (err x)
    | some (ok []) ↦ some (err NuxError.network)
    | some (ok (r ∷ rs)) ↦ dial_each (candidates (r ∷ rs)) attempts
  ]

  -- The address at place `i` is the first that an attempt reached.
  pub record FirstReached (cs : List (Peer × Addr)) (attempts : List (Attempt Peer))
      (found : Peer × Addr) : Type 0 where
    pub place : ℕ
    pub attempt : Attempt Peer
    pub listed : get_elem? cs place ≡ some found
    pub tried : get_elem? attempts place ≡ some attempt
    pub answered : reached e found.0 attempt ≡ true
    pub earlier :
        (j : ℕ) (c : Peer × Addr) (a : Attempt Peer)
        → suc j ≤ place
        → get_elem? cs j ≡ some c
        → get_elem? attempts j ≡ some a
        → reached e c.0 a ≡ false

  earlier_on :
      (c : Peer × Addr) (a : Attempt Peer) (cs : List (Peer × Addr))
      (attempts : List (Attempt Peer)) (place : ℕ)
      → reached e c.0 a ≡ false
      → ((j : ℕ) (d : Peer × Addr) (b : Attempt Peer)
          → suc j ≤ place
          → get_elem? cs j ≡ some d
          → get_elem? attempts j ≡ some b
          → reached e d.0 b ≡ false)
      → (j : ℕ) (d : Peer × Addr) (b : Attempt Peer) → suc j ≤ suc place
      → get_elem? (c ∷ cs) j ≡ some d
      → get_elem? (a ∷ attempts) j ≡ some b
      → reached e d.0 b ≡ false
  earlier_on c a cs attempts place miss h zero d b less at tried = ground (arith, miss, at, tried)
  earlier_on c a cs attempts place miss h (suc j) d b less at tried =
      h j d b (omega (arith, less)) at tried

  dial_each-FirstReached :
      (cs : List (Peer × Addr)) (attempts : List (Attempt Peer)) (found : Peer × Addr)
      → dial_each cs attempts ≡ some (ok found)
      → FirstReached cs attempts found
  unfolding dial_each
  dial_each-FirstReached [] attempts found h = absurd (cc)
  dial_each-FirstReached (c ∷ cs) [] found h = absurd (cc)
  dial_each-FirstReached (c ∷ cs) (a ∷ attempts) found h = elim (Bool-cases (reached e c.0 a)) [
    | inl hit ↦ record {
      place = zero;
      attempt = a;
      listed = ground arith;
      tried = refl;
      answered = ground (arith, hit);
      earlier = λ j d b less. absurd (omega (arith, less));
    }
    | inr miss ↦
        let r = dial_each-FirstReached cs attempts found (ground (arith, miss)) in
        record {
          place = suc r.place;
          attempt = r.attempt;
          listed = r.listed;
          tried = r.tried;
          answered = r.answered;
          earlier = earlier_on c a cs attempts r.place miss r.earlier;
        }
  ]

  -- What `discover_and_dial` finds is a peer and an address of a list that the very rendezvous point
  -- answered, and the first one, in the order of that list, whose dialling succeeded.
  pub discover_and_dial-FirstReached :
      (node : Peer) (events : List (RendezvousEvent Peer Name Addr))
      (attempts : List (Attempt Peer)) (found : Peer × Addr)
      → discover_and_dial node events attempts ≡ some (ok found)
      → (registrations : List (Peer × List Addr)) × (await_registrations node events
          ≡ some (ok registrations))
        × FirstReached (candidates registrations) attempts found
  unfolding discover_and_dial
  discover_and_dial-FirstReached node events attempts found h =
      elim (Option-cases (await_registrations node events)) [
        | inl waiting ↦ absurd (ground arith)
        | inr (r, came) ↦ elim (Result-cases r) [
          | inr (x, bad) ↦ absurd (ground arith)
          | inl (rs, good) ↦ (
            rs,
            ground arith,
            dial_each-FirstReached (candidates rs) attempts found (ground arith),
          )
        ]
      ]

  -- With an attempt for each address there is a result.
  pub dial_each-decides :
      (cs : List (Peer × Addr)) (attempts : List (Attempt Peer))
      → length cs ≤ length attempts
      → (found : NuxResult (Peer × Addr)) × (dial_each cs attempts ≡ some found)
  unfolding dial_each
  dial_each-decides [] attempts h = (err NuxError.network, refl)
  dial_each-decides (c ∷ cs) [] h = absurd (omega (arith, h))
  dial_each-decides (c ∷ cs) (a ∷ attempts) h = elim (Bool-cases (reached e c.0 a)) [
    | inl hit ↦ (ok c, ground arith)
    | inr miss ↦
        let (found, ends) = dial_each-decides cs attempts (omega (arith, h)) in
        (found, ground (arith, ends))
  ]

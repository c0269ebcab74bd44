-- ===== src/Attestation/Agree.antt =====
-- All the answers of a process about its own binary are the same.
use nux_auth.Prelude.{
  ℕ, zero, suc, ◌≡◌, refl, sym, ◌∙◌, subst, List, [], ◌∷◌, Option, none, some, ok, err,
}
use mathlib.Core.List.{Memᴰ}
use mathlib.Core.List.Memᴰ.{head, tail}
use nux_auth.Attestation.{
  Call, called, missed, hashed, answered, Process, started, advance, resume, Event, calls_it,
  goes_on, happen, run,
}

module _ (digest : List ℕ → List ℕ) (Deployed : List ℕ → Type 0) where
  -- Every content that the executable is read with is a deployed one.
  abbrev pub Reads : List (Event) → Type 0
  Reads [] = Unit {0}
  Reads (calls_it ∷ events) = Reads events
  Reads (goes_on none n ∷ events) = Reads events
  Reads (goes_on (some bytes) n ∷ events) = Deployed bytes × Reads events

  -- A fingerprint of a deployed binary.
  abbrev pub IsFingerprint : List ℕ → Type 0
  IsFingerprint hash = (bytes : List ℕ) × Deployed bytes × (hash ≡ digest bytes)

  -- A call whose answer is the cell's, and whose digest is of a deployed binary.
  abbrev Agrees : Option (List ℕ) → Call → Type 0
  Agrees cell called = Unit {0}
  Agrees cell missed = Unit {0}
  Agrees cell (hashed hash) = IsFingerprint hash
  Agrees cell (answered (ok hash)) = cell ≡ some hash
  Agrees cell (answered (err x)) = Unit {0}

  abbrev Kept : Option (List ℕ) → Type 0
  Kept none = Unit {0}
  Kept (some hash) = IsFingerprint hash

  abbrev All : Option (List ℕ) → List Call → Type 0
  All cell [] = Unit {0}
  All cell (call ∷ calls) = Agrees cell call × All cell calls

  -- The cell keeps what it holds.
  abbrev Grows : Option (List ℕ) → Option (List ℕ) → Type 0
  Grows cell cell' = (hash : List ℕ) → cell ≡ some hash → cell' ≡ some hash

  abbrev Readable : Option (List ℕ) → Type 0
  Readable none = Unit {0}
  Readable (some bytes) = Deployed bytes

  Agrees-Grows :
      (cell cell' : Option (List ℕ)) (call : Call)
      → Grows cell cell'
      → Agrees cell call
      → Agrees cell' call
  Agrees-Grows cell cell' called g a = tt
  Agrees-Grows cell cell' missed g a = tt
  Agrees-Grows cell cell' (hashed hash) g a = a
  Agrees-Grows cell cell' (answered (ok hash)) g a = g hash a
  Agrees-Grows cell cell' (answered (err x)) g a = tt

  All-Grows :
      (cell cell' : Option (List ℕ)) (calls : List Call)
      → Grows cell cell'
      → All cell calls
      → All cell' calls
  All-Grows cell cell' [] g a = tt
  All-Grows cell cell' (call ∷ calls) g (a, rest) =
      (Agrees-Grows cell cell' call g a, All-Grows cell cell' calls g rest)

  advance-Agrees :
      (exe cell : Option (List ℕ)) (call : Call)
      → Readable exe
      → Kept cell
      → Agrees cell call
      → let r = advance digest exe cell call in Grows cell r.0 × Kept r.0 × Agrees r.0 r.1
  unfolding advance
  advance-Agrees exe none called d k a = (λ hash h. h, tt, tt)
  advance-Agrees exe (some first) called d k a = (λ hash h. h, k, refl)
  advance-Agrees none none missed d k a = (λ hash h. h, tt, tt)
  advance-Agrees none (some first) missed d k a = (λ hash h. h, k, tt)
  advance-Agrees (some bytes) none missed d k a = (λ hash h. h, tt, (bytes, d, refl))
  advance-Agrees (some bytes) (some first) missed d k a = (λ hash h. h, k, (bytes, d, refl))
  advance-Agrees exe none (hashed hash) d k a = (λ other h. absurd (cc), a, refl)
  advance-Agrees exe (some first) (hashed hash) d k a = (λ other h. h, k, refl)
  advance-Agrees exe none (answered r) d k a = (λ hash h. h, k, a)
  advance-Agrees exe (some first) (answered r) d k a = (λ hash h. h, k, a)

  resume-All :
      (exe : Option (List ℕ)) (n : ℕ) (cell : Option (List ℕ)) (calls : List Call)
      → Readable exe
      → Kept cell
      → All cell calls
      → let r = resume digest exe n cell calls in Grows cell r.0 × Kept r.0 × All r.0 r.1
  unfolding resume
  resume-All exe n cell [] d k a = (λ hash h. h, k, tt)
  resume-All exe zero cell (call ∷ calls) d k (a, rest) =
      let (grows, kept, agrees) = advance-Agrees exe cell call d k a in
      (grows, kept, (agrees, All-Grows cell _ calls grows rest))
  resume-All exe (suc n) cell (call ∷ calls) d k (a, rest) =
      let (grows, kept, all) = resume-All exe n cell calls d k rest in
      (grows, kept, (Agrees-Grows cell _ call grows a, all))

  abbrev IsConsistent : Process → Type 0
  IsConsistent p = Kept p.cell × All p.cell p.calls

  run-IsConsistent :
      (p : Process) (events : List Event)
      → Reads events
      → IsConsistent p
      → IsConsistent (run digest p events)
  unfolding run happen
  run-IsConsistent p [] d c = c
  run-IsConsistent p (calls_it ∷ events) d (k, a) =
      run-IsConsistent (happen digest p calls_it) events d (k, (tt, a))
  run-IsConsistent p (goes_on none n ∷ events) d (k, a) =
      let (_, kept, all) = resume-All none n p.cell p.calls tt k a in
      run-IsConsistent (happen digest p (goes_on none n)) events d (kept, all)
  run-IsConsistent p (goes_on (some bytes) n ∷ events) (now, d) (k, a) =
      let (_, kept, all) = resume-All (some bytes) n p.cell p.calls now k a in
      run-IsConsistent (happen digest p (goes_on (some bytes) n)) events d (kept, all)

  some_inj : (a b : List ℕ) → some a ≡ some b → a ≡ b
  some_inj a b h = cc

  Kept-found :
      (cell : Option (List ℕ)) (hash : List ℕ) → cell ≡ some hash → Kept cell → IsFingerprint hash
  Kept-found cell hash e k = subst Kept e k

  All-answered :
      (cell : Option (List ℕ)) (calls : List Call) (hash : List ℕ)
      → Memᴰ (answered (ok hash)) calls
      → All cell calls
      → cell ≡ some hash
  All-answered cell [] hash m a = elim m [ ]
  All-answered cell (_ ∷ calls) hash (head same) (a, rest) = subst (Agrees cell) (sym same) a
  All-answered cell (_ ∷ calls) hash (tail m) (a, rest) = All-answered cell calls hash m rest

  -- However the calls of a process interleave, and whatever stands in the place of its executable when
  -- it is read, all the calls that answer with a fingerprint answer with the same, which is that of a
  -- content that was read.
  pub run-answered :
      (events : List Event) (first second : List ℕ)
      → Reads events
      → Memᴰ (answered (ok first)) (run digest started events).calls
      → Memᴰ (answered (ok second)) (run digest started events).calls
      → (first ≡ second) × IsFingerprint first
  run-answered events first second d m n =
      let (kept, all) = run-IsConsistent started events d (tt, tt) in
      let one = All-answered _ _ first m all in
      let two = All-answered _ _ second n all in
      (some_inj first second (sym one ∙ two), Kept-found _ first one kept)

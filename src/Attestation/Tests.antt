-- ===== src/Attestation/Tests.antt =====
-- Two calls that interleave while the executable is replaced.
use nux_auth.Prelude.{ℕ, ◌≡◌, refl, List, [], ◌∷◌, none, some, ok, ◌⊎◌, inl, inr}
use mathlib.Core.List.Memᴰ.{head, tail}
use nux_auth.Attestation.{answered, started, advance, resume, Event, calls_it, goes_on, happen, run}
use nux_auth.Attestation.Agree.{IsFingerprint, run-answered}

abbrev toy_digest : List ℕ → List ℕ
toy_digest bytes = 0 ∷ bytes

-- The files 7 and 8, one after the other.
abbrev Deployed : List ℕ → Type 0
Deployed bytes = (bytes ≡ 7 ∷ []) ⊎ (bytes ≡ 8 ∷ [])

abbrev kept : List ℕ
kept = 0 ∷ 8 ∷ []

-- Both calls find the cell empty, each reads another file, and the one that read last answers first.
abbrev events : List Event
events =
    calls_it
    ∷ calls_it
    ∷ goes_on none 0
    ∷ goes_on none 1
    ∷ goes_on (some (7 ∷ [])) 0
    ∷ goes_on (some (8 ∷ [])) 1
    ∷ goes_on none 1
    ∷ goes_on none 0
    ∷ []

both :
    (run toy_digest started events).calls
    ≡ answered (ok (0 ∷ 8 ∷ [])) ∷ answered (ok (0 ∷ 8 ∷ [])) ∷ []
unfolding run happen resume advance
both = refl

run-answered_example : (kept ≡ kept) × IsFingerprint toy_digest Deployed kept
unfolding run happen resume advance
run-answered_example =
    run-answered toy_digest Deployed events kept kept (inl refl, (inr refl, tt)) (head refl)
      (tail (head refl))

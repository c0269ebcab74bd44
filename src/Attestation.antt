-- ===== src/Attestation.antt =====
-- crates/nux-core/src/attestation.rs: the fingerprint of the running binary, kept in a cell that is
-- written once. Calls of several threads interleave; the file may be replaced between two of them.
pub mod Agree
mod Tests
use nux_auth.Prelude.{ℕ, suc, zero, List, [], ◌∷◌, Option, none, some, ok, err}
use nux_auth.Error.{NuxError, NuxResult, IoError}

-- Where a call stands: before `get`, behind a `get` that found nothing, before `get_or_init`, over.
pub data Call : Type 0 where
  called : Call
  missed : Call
  hashed : List ℕ → Call
  answered : NuxResult (List ℕ) → Call

-- `BINARY_SHA256`, and the calls that the process has made.
pub record Process : Type 0 where
  pub cell : Option (List ℕ)
  pub calls : List Call

abbrev pub started : Process
started = record { cell = none; calls = [] }

-- What happens: a thread calls, or the n-th of the calls goes on, where the executable reads so.
pub data Event : Type 0 where
  calls_it : Event
  goes_on : Option (List ℕ) → ℕ → Event

-- The digest is `Sha256::digest`.
module _ (digest : List ℕ → List ℕ) where
  -- One stretch of `current_binary_sha256`; `exe` is what `current_exe` and `read` find then.
  unfoldable pub advance : Option (List ℕ) → Option (List ℕ) → Call → Option (List ℕ) × Call
  advance exe (some hash) called = (some hash, answered (ok hash))
  advance exe none called = (none, missed)
  advance none cell missed = (cell, answered (err (NuxError.io IoError.other)))
  advance (some bytes) cell missed = (cell, hashed (digest bytes))
  advance exe none (hashed hash) = (some hash, answered (ok hash))
  advance exe (some first) (hashed hash) = (some first, answered (ok first))
  advance exe cell (answered r) = (cell, answered r)

  -- The n-th of the calls goes on.
  unfoldable pub resume :
      Option (List ℕ) → ℕ → Option (List ℕ) → List Call → Option (List ℕ) × List Call
  unfolding advance
  resume exe n cell [] = (cell, [])
  resume exe zero cell (call ∷ calls) =
      let (cell', call') = advance exe cell call in (cell', call' ∷ calls)
  resume exe (suc n) cell (call ∷ calls) =
      let (cell', calls') = resume exe n cell calls in (cell', call ∷ calls')

  unfoldable pub happen : Process → Event → Process
  unfolding resume
  happen p calls_it = record p { calls = called ∷ p.calls }
  happen p (goes_on exe n) =
      let (cell, calls) = resume exe n p.cell p.calls in record { cell = cell; calls = calls }

  unfoldable pub run : Process → List Event → Process
  unfolding happen
  run p [] = p
  run p (event ∷ events) = run (happen p event) events

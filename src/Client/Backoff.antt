-- ===== src/Client/Backoff.antt =====
-- crates/nux-core/src/node.rs, `reauthenticate`: the pauses between the attempts of a client to
-- reach its Guard again, in seconds.
use nux_auth.Prelude.{
  ℕ, zero, suc, ◌+◌, ◌*◌, ◌^◌, ◌≡◌, refl, ap, ◌∙◌, List, [], ◌∷◌, some, arith, min, get_elem?, Bool,
  true, false,
}
use native.Mathlib.Numerals.{unary_clauses}

abbrev pub initial_backoff : ℕ
initial_backoff = 1

abbrev pub max_backoff : ℕ
max_backoff = 30

-- The attempts, with whether each succeeded, and the pauses slept so far; the second part tells
-- whether the call has returned.
unfoldable pub attempt_from : ℕ → List Bool → List ℕ × Bool
attempt_from backoff [] = ([], false)
attempt_from backoff (true ∷ outcomes) = ([], true)
attempt_from backoff (false ∷ outcomes) =
    let rest = attempt_from (min (backoff * 2) max_backoff) outcomes in (backoff ∷ rest.0, rest.1)

unfoldable pub reauthenticate : List Bool → List ℕ × Bool
unfolding attempt_from
reauthenticate outcomes = attempt_from initial_backoff outcomes

doubled :
    (backoff k : ℕ)
    → backoff ≡ min (2 ^ k) max_backoff
    → min (backoff * 2) max_backoff ≡ min (2 ^ suc k) max_backoff
doubled backoff k b = simp unary_clauses (omega (arith, b))

zero_right : (k : ℕ) → k + 0 ≡ k
zero_right k = omega arith

zero_left : (i : ℕ) → 0 + i ≡ i
zero_left i = omega arith

add_suc : (k i : ℕ) → k + suc i ≡ suc k + i
add_suc k i = omega arith

attempt_from-pause :
    (backoff k i : ℕ) (outcomes : List Bool) (pause : ℕ)
    → backoff ≡ min (2 ^ k) max_backoff
    → get_elem? (attempt_from backoff outcomes).0 i ≡ some pause
    → pause ≡ min (2 ^ (k + i)) max_backoff
unfolding attempt_from
attempt_from-pause backoff k i [] pause b h = absurd (ground arith)
attempt_from-pause backoff k i (true ∷ outcomes) pause b h = absurd (ground arith)
attempt_from-pause backoff k zero (false ∷ outcomes) pause b h =
    rw (zero_right k) (ground (arith, b))
attempt_from-pause backoff k (suc i) (false ∷ outcomes) pause b h =
    let next =
      attempt_from-pause (min (backoff * 2) max_backoff) (suc k) i outcomes pause
        (doubled backoff k b) h in
    rw (add_suc k i) next

-- The pause after the attempt number `i`, counted from 0, is `2 ^ i` seconds and at most thirty.
pub reauthenticate_pauses :
    (outcomes : List Bool) (i pause : ℕ)
    → get_elem? (reauthenticate outcomes).0 i ≡ some pause
    → pause ≡ min (2 ^ i) max_backoff
unfolding reauthenticate
reauthenticate_pauses outcomes i pause h =
    attempt_from-pause initial_backoff 0 i outcomes pause refl h
    ∙ ap (λ n. min (2 ^ n) max_backoff) (zero_left i)

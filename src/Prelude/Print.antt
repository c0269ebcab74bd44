-- ===== src/Prelude/Print.antt =====
-- The decimal print of an unsigned integer of at most 64 bits, as `Display` writes it, and the read
-- of it.
use Prim.Native.Nat.{ℕ, zero, suc, ◌+◌, ◌*◌, ◌/◌, ◌%◌, ◌^◌, ◌≤◌, ◌<◌}
use mathlib.Core.Path.{◌≡◌, refl, ◌∙◌}
use mathlib.Core.Bool.{Bool, true, false}
use mathlib.Core.Option.{some}
use mathlib.Core.List.{List, [], ◌∷◌}
use mathlib.Core.Logic.{inl, inr}
use native.Mathlib.Omega.{arith}
use nux_auth.Prelude.Tests.{ltb, ◌==◌, if◌then◌else◌, Bool-cases}
use nux_auth.Prelude.Lists.{All}
use nux_auth.Prelude.Decimal.{is_digit, digits, parse_uint}

-- As many digits as are left are written in front of `out`.
unfoldable pub show : ℕ → ℕ → List ℕ → List ℕ
show zero n out = out
show (suc left) n out =
    let rest = show left (n / 10) ((48 + n % 10) ∷ out) in if ltb n 10 then (48 + n) ∷ out else rest

-- Twenty digits are enough for 2^64 - 1.
unfoldable pub print : ℕ → List ℕ
unfolding show
print n = show 20 n []

abbrev pub ten_to : ℕ → ℕ
ten_to zero = 1
ten_to (suc left) = 10 * ten_to left

digits-show :
    (left n : ℕ) (out : List ℕ)
    → n < ten_to left
    → 0 < left
    → digits 0 (show left n out) ≡ digits n out
unfolding show
digits-show zero n out fits some_left = absurd (omega arith)
digits-show (suc zero) n out fits some_left = ground arith
digits-show (suc (suc left)) n out fits some_left =
    let d = 48 + n % 10 in
    let later = digits-show (suc left) (n / 10) (d ∷ out) (omega arith) (omega arith) in
    elim (Bool-cases (ltb n 10)) [
      | inl last ↦ ground arith
      | inr more ↦ rw more (later ∙ ground arith)
    ]

abbrev pub IsDigits : List ℕ → Type 0
IsDigits = All (λ c. is_digit c ≡ true)

-- Something is written, and only digits.
show-IsDigits : (left n : ℕ) (out : List ℕ) → IsDigits out → IsDigits (show left n out)
unfolding show
show-IsDigits zero n out d = d
show-IsDigits (suc left) n out d =
    let later = show-IsDigits left (n / 10) ((48 + n % 10) ∷ out) (ground arith, d) in
    elim (Bool-cases (ltb n 10)) [ inl last ↦ rw last (ground arith, d) | inr more ↦ rw more later ]

abbrev is_blank : List ℕ → Bool
is_blank [] = true
is_blank (c ∷ cs) = false

show-written : (left n c : ℕ) (out : List ℕ) → is_blank (show left n (c ∷ out)) ≡ false
unfolding show
show-written zero n c out = refl
show-written (suc left) n c out = ground (arith, show-written left (n / 10) (48 + n % 10) (c ∷ out))

digits-print : (n : ℕ) → n < 2 ^ 64 → digits 0 (print n) ≡ some n
unfolding print
digits-print n word = digits-show 20 n [] (omega arith) (omega arith)

pub print-IsDigits : (n : ℕ) → IsDigits (print n)
unfolding print
print-IsDigits n = show-IsDigits 20 n [] tt

print-written : (n : ℕ) → is_blank (print n) ≡ false
unfolding print show
print-written n = ground (arith, show-written 19 (n / 10) (48 + n % 10) [])

parse_uint-digits :
    (largest n : ℕ) (text : List ℕ)
    → IsDigits text
    → is_blank text ≡ false
    → digits 0 text ≡ some n
    → n ≤ largest
    → parse_uint largest text ≡ some n
unfolding parse_uint
parse_uint-digits largest n [] d written h fits = absurd (ground arith)
parse_uint-digits largest n (c ∷ cs) d written h fits =
    let plain : (c == 43) ≡ false = ground (arith, d.0) in ground (arith, plain, h)

-- What is printed is read back.
pub parse_uint-print :
    (largest n : ℕ) → n ≤ largest → n < 2 ^ 64 → parse_uint largest (print n) ≡ some n
parse_uint-print largest n fits word =
    parse_uint-digits largest n (print n) (print-IsDigits n) (print-written n) (digits-print n word)
      fits

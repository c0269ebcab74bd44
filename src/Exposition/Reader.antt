-- ===== src/Exposition/Reader.antt =====
-- How the text format is read, said without the code: a line of comment starts with a number sign,
-- every other line is a name, a space and a number.
use nux_auth.Prelude.{
  ℕ, ◌≡◌, ◌<◌, ◌-◌, ◌^◌, refl, ◌∙◌, ap, arith, Bool, true, false, ◌||◌, List, [], ◌∷◌, ◌++◌, Option,
  none, some, any, ◌==◌, ◌&&◌, not, if◌then◌else◌, parse_uint,
}
use nux_auth.Prelude.Print.{print, IsDigits, print-IsDigits, parse_uint-print}
use nux_auth.Exposition.{codes, newline, metric}

abbrev pub Sample : Type 0
Sample = List ℕ × ℕ

abbrev onto_first : ℕ → List (List ℕ) → List (List ℕ)
onto_first c [] = (c ∷ []) ∷ []
onto_first c (l ∷ ls) = (c ∷ l) ∷ ls

-- The lines of a text, each without its newline.
unfoldable pub lines : List ℕ → List (List ℕ)
lines [] = []
lines (c ∷ cs) = let rest = lines cs in if c == newline then [] ∷ rest else onto_first c rest

-- The name before the first space, and what is behind it.
unfoldable pub at_space : List ℕ → Option (List ℕ × List ℕ)
at_space [] = none
at_space (c ∷ cs) =
    let rest = at_space cs in
    if c == 32
    then some ([], cs)
    else elim rest [ none ↦ none | some parts ↦ some (c ∷ parts.0, parts.1) ]

abbrev is_comment : List ℕ → Bool
is_comment [] = true
is_comment (c ∷ cs) = c == 35

abbrev pub largest : ℕ
largest = 2 ^ 64 - 1

unfoldable pub sample : List ℕ → Option Sample
unfolding at_space
sample line = elim (at_space line) [
  | none ↦ none
  | some parts ↦ elim (parse_uint largest parts.1) [ none ↦ none | some n ↦ some (parts.0, n) ]
]

abbrev pub with_sample : Option Sample → Option (List Sample) → Option (List Sample)
with_sample none samples = none
with_sample (some s) none = none
with_sample (some s) (some samples) = some (s ∷ samples)

unfoldable pub read_lines : List (List ℕ) → Option (List Sample)
unfolding sample
read_lines [] = some []
read_lines (l ∷ ls) =
    let rest = read_lines ls in if is_comment l then rest else with_sample (sample l) rest

-- Every sample of a text, in its order.
unfoldable pub samples : List ℕ → Option (List Sample)
unfolding lines read_lines
samples text = read_lines (lines text)

abbrev pub Without : ℕ → List ℕ → Type 0
Without c text = any (λ d. d == c) text ≡ false

lines-line : (l rest : List ℕ) → Without newline l → lines (l ++ newline ∷ rest) ≡ l ∷ lines rest
unfolding lines
lines-line [] rest free = refl
lines-line (c ∷ cs) rest free =
    let other : (c == newline) ≡ false = ground arith in
    let later = lines-line cs rest (ground arith) in rw (other, later) refl

any-append : (p : ℕ → Bool) (a b : List ℕ) → any p (a ++ b) ≡ (any p a || any p b)
any-append p [] b = refl
any-append p (x ∷ a) b = ground (arith, any-append p a b)

digits-Without : (c : ℕ) (text : List ℕ) → c < 48 → IsDigits text → Without c text
digits-Without c [] low d = refl
digits-Without c (x ∷ xs) low d = ground (arith, digits-Without c xs low d.1, d.0)

at_space-name :
    (name rest : List ℕ) → Without 32 name → at_space (name ++ (32 ∷ rest)) ≡ some (name, rest)
unfolding at_space
at_space-name [] rest free = refl
at_space-name (c ∷ cs) rest free = let later = at_space-name cs rest (ground arith) in ground arith

-- A name that a metric may have.
pub record IsName (name : List ℕ) : Type 0 where
  pub one_line : Without newline name
  pub no_space : Without 32 name
  pub no_comment : is_comment name ≡ false

sample-print :
    (name : List ℕ) (value : ℕ)
    → IsName name
    → value < 2 ^ 64
    → sample (name ++ (32 ∷ print value)) ≡ some (name, value)
unfolding sample
sample-print name value n word =
    let cut = at_space-name name (print value) n.no_space in
    let back = parse_uint-print largest value (omega arith) word in ground (arith, cut, back)

is_comment-name : (name rest : List ℕ) → is_comment name ≡ false → is_comment (name ++ rest) ≡ false
is_comment-name [] rest h = absurd (ground arith)
is_comment-name (c ∷ cs) rest h = h

-- The lines of a metric: two comments and a sample.
pub samples-metric :
    (name help kind rest : List ℕ) (value : ℕ)
    → IsName name
    → Without newline help
    → Without newline kind
    → value < 2 ^ 64
    → samples (metric name help kind value rest) ≡ with_sample (some (name, value)) (samples rest)
unfolding samples metric read_lines
samples-metric name help kind rest value n one_help one_kind word =
    let help_line : Without newline (codes "# HELP " ++ (name ++ (32 ∷ help))) =
      ground (arith, any-append (λ d. d == newline) name (32 ∷ help), n.one_line, one_help) in
    let type_line : Without newline (codes "# TYPE " ++ (name ++ (32 ∷ kind))) =
      ground (arith, any-append (λ d. d == newline) name (32 ∷ kind), n.one_line, one_kind) in
    let sample_line : Without newline (name ++ (32 ∷ print value)) = ground (
      arith,
      any-append (λ d. d == newline) name (32 ∷ print value),
      n.one_line,
      digits-Without newline (print value) (omega arith) (print-IsDigits value),
    ) in
    rw
      (
        lines-line (codes "# HELP " ++ (name ++ (32 ∷ help))) _ help_line,
        lines-line (codes "# TYPE " ++ (name ++ (32 ∷ kind))) _ type_line,
        lines-line (name ++ (32 ∷ print value)) rest sample_line,
        is_comment-name name (32 ∷ print value) n.no_comment,
        sample-print name value n word,
      )
      refl

pub samples-nil : samples [] ≡ some []
unfolding samples
samples-nil = refl

abbrev pub is_plain : List ℕ → List ℕ → List ℕ → Bool
is_plain name help kind =
    not (any (λ d. d == newline || d == 32) name || is_comment name)
    && (not (any (λ d. d == newline) help) && not (any (λ d. d == newline) kind))

any-either :
    (name : List ℕ)
    → any (λ d. d == newline || d == 32) name ≡ false
    → Without newline name × Without 32 name
any-either [] h = (refl, refl)
any-either (c ∷ cs) h =
    let later = any-either cs (ground arith) in (ground (arith, later.0), ground (arith, later.1))

-- One metric more, whose names are checked by evaluation.
pub more :
    (name help kind rest : List ℕ) (value : ℕ) {found : List Sample}
    → is_plain name help kind ≡ true
    → value < 2 ^ 64
    → samples rest ≡ some found
    → samples (metric name help kind value rest) ≡ some ((name, value) ∷ found)
more name help kind rest value plain word h =
    let (line, space) = any-either name (ground arith) in
    let n : IsName name = record { one_line = line; no_space = space; no_comment = ground arith } in
    samples-metric name help kind rest value n (ground arith) (ground arith) word
    ∙ ap (with_sample (some (name, value))) h

-- ===== src/Exposition/Tests.antt =====
-- A text that is written in two pieces.
use nux_auth.Prelude.{◌≡◌, ◌⊎◌, refl, sym, ap, arith, List, [], ◌∷◌, none, some, ℕ}
use mathlib.Core.List.{append-nil}
use nux_auth.Prelude.Print.{print}
use nux_auth.Metrics.{Metrics, record_auth_granted}
use nux_auth.Metrics as Metrics
use nux_auth.Exposition.{codes, to_prometheus_text}
use nux_auth.Exposition.Reader.{samples}
use nux_auth.Exposition.Guards.{IsWords, samples_of}
use nux_auth.Exposition.Writer.{
  Writer, idle, writing, written, counted, opened, wrote, complete, renamed, Reach, here, next,
  Counting, Loads, granted, scrape_sees,
}

printed : print 1234567890 ≡ codes "1234567890"
unfolding print
printed = refl

abbrev begun : Writer Metrics
begun = record { metrics = Metrics.default; phase = idle; tmp = some (1 ∷ []); dest = none }

abbrev Run : Writer Metrics → Type 0
Run = Reach to_prometheus_text Counting Loads Metrics.default begun

abbrev text : List ℕ
text = to_prometheus_text Metrics.default

zeros : IsWords Metrics.default
zeros = omega arith

-- The tick, the write, another count meanwhile, and the rename.
abbrev count : Metrics → Writer Metrics
count m = record { metrics = m; phase = writing text; tmp = some []; dest = none }

abbrev m1 : Metrics
m1 = record_auth_granted Metrics.default

published : Run (record { metrics = m1; phase = idle; tmp = none; dest = some text })
published =
    next
      (next
        (next
          (next (next here (opened begun Metrics.default refl zeros))
            (counted (count Metrics.default) m1 (granted Metrics.default)))
          (wrote (count m1) [] text [] (ap writing (sym (append-nil text))) refl))
        (complete (record { metrics = m1; phase = writing []; tmp = some text; dest = none }) refl))
      (renamed (record { metrics = m1; phase = written; tmp = some text; dest = none }) text refl
        refl)

scrape_sees_example :
    (some text ≡ none)
    ⊎ ((t : List ℕ) × (n : Metrics) × (some text ≡ some t)
        × IsWords n
        × (samples t ≡ some (samples_of n)))
scrape_sees_example = scrape_sees Metrics.default (some (1 ∷ [])) none zeros published

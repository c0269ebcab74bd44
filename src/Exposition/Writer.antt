-- ===== src/Exposition/Writer.antt =====
-- crates/nux-cli/src/main.rs and nodes_relay/src/main.rs, `spawn_metrics_writer`: the file that the
-- collector reads. The writes go to another file, piece by piece, and a rename puts that in its
-- place; a reader may look between any two steps, and the process may end and start again there.
use nux_auth.Prelude.{
  ℕ, ◌≡◌, ◌⊎◌, inl, inr, refl, sym, subst, ◌∙◌, ap, arith, List, [], ◌++◌, Option, none, some,
}
use mathlib.Core.List.{append_assoc, append-nil}
use nux_auth.Metrics.{
  Metrics, TunnelOutcome, denied, served, record_auth_granted, record_auth_denied,
  record_tunnel_denied, record_tunnel_started, record_tunnel_finished,
}
use nux_auth.Metrics as Metrics
use nux_auth.Exposition.{to_prometheus_text}
use nux_auth.Exposition.Reader.{samples}
use nux_auth.Exposition.Guards.{IsWords, samples_of, samples-to_prometheus_text}

-- Where the task stands: waiting for the tick, with this much left to write, or before the rename.
pub data Phase : Type 0 where
  idle : Phase
  writing : List ℕ → Phase
  written : Phase

pub record Writer (M : Type 0) : Type 0 where
  pub metrics : M
  pub phase : Phase
  pub tmp : Option (List ℕ)
  pub dest : Option (List ℕ)

-- `Counting` is what the rest of the process does to the counters, `Loads` what a turn of the task
-- reads of them, one after the other, and `fresh` what a start gives.
module _ {M : Type 0} (to_text : M → List ℕ) (Counting Loads : M → M → Type 0) (fresh : M) where
  pub data Step : Writer M → Writer M → Type 0 where
    counted : (s : Writer M) (m : M) → Counting s.metrics m → Step s (record s { metrics = m })
    opened :
        (s : Writer M) (m : M)
        → s.phase ≡ idle
        → Loads s.metrics m
        → Step s (record s { phase = writing (to_text m); tmp = some [] })
    wrote :
        (s : Writer M) (before piece left : List ℕ)
        → s.phase ≡ writing (piece ++ left)
        → s.tmp ≡ some before
        → Step s (record s { phase = writing left; tmp = some (before ++ piece) })
    -- The write is an error, and there is no rename.
    failed :
        (s : Writer M) (left : List ℕ) → s.phase ≡ writing left → Step s (record s { phase = idle })
    complete : (s : Writer M) → s.phase ≡ writing [] → Step s (record s { phase = written })
    renamed :
        (s : Writer M) (text : List ℕ)
        → s.phase ≡ written
        → s.tmp ≡ some text
        → Step s (record s { phase = idle; tmp = none; dest = some text })
    not_renamed : (s : Writer M) → s.phase ≡ written → Step s (record s { phase = idle })
    restarted : (s : Writer M) → Step s (record s { metrics = fresh; phase = idle })

  pub data Reach (s : Writer M) : Writer M → Type 0 where
    here : Reach s s
    next : {t u : Writer M} → Reach s t → Step t u → Reach s u

  module _ (P : M → Type 0) (start : Option (List ℕ)) where
    -- A file holds a whole snapshot of counters.
    pub record IsSnapshot (file : Option (List ℕ)) : Type 0 where
      pub metrics : M
      pub counted : P metrics
      pub whole : file ≡ some (to_text metrics)

    record IsPart (left : List ℕ) (file : Option (List ℕ)) : Type 0 where
      metrics : M
      counted : P metrics
      before : List ℕ
      there : file ≡ some before
      whole : before ++ left ≡ to_text metrics

    abbrev InPhase : Phase → Option (List ℕ) → Type 0
    InPhase idle tmp = Unit {0}
    InPhase (writing left) tmp = IsPart left tmp
    InPhase written tmp = IsSnapshot tmp

    abbrev pub Shown : Option (List ℕ) → Type 0
    Shown dest = (dest ≡ start) ⊎ IsSnapshot dest

    record IsConsistent (s : Writer M) : Type 0 where
      counters : P s.metrics
      phase : InPhase s.phase s.tmp
      dest : Shown s.dest

    some_inj : (a b : List ℕ) → some a ≡ some b → a ≡ b
    some_inj a b h = cc

    module _ (keeps : (m n : M) → Counting m n → P m → P n)
        (loads : (m n : M) → Loads m n → P m → P n) (begins : P fresh) where
      Step-IsConsistent : {s t : Writer M} → Step s t → IsConsistent s → IsConsistent t
      Step-IsConsistent (counted s m c) v = record {
        counters = keeps s.metrics m c v.counters;
        phase = v.phase;
        dest = v.dest;
      }
      Step-IsConsistent (opened s m e l) v = record {
        counters = v.counters;
        phase = record {
          metrics = m;
          counted = loads s.metrics m l v.counters;
          before = [];
          there = refl;
          whole = refl;
        };
        dest = v.dest;
      }
      Step-IsConsistent (wrote s before piece left e f) v =
          let part : IsPart (piece ++ left) s.tmp = subst (λ p. InPhase p s.tmp) e v.phase in
          let same : part.before ≡ before = some_inj _ _ (sym part.there ∙ f) in
          record {
            counters = v.counters;
            phase = record {
              metrics = part.metrics;
              counted = part.counted;
              before = before ++ piece;
              there = refl;
              whole =
                  append_assoc before piece left
                  ∙ ap (λ b. b ++ (piece ++ left)) (sym same)
                  ∙ part.whole;
            };
            dest = v.dest;
          }
      Step-IsConsistent (failed s left e) v = record {
        counters = v.counters;
        phase = tt;
        dest = v.dest;
      }
      Step-IsConsistent (complete s e) v =
          let part : IsPart [] s.tmp = subst (λ p. InPhase p s.tmp) e v.phase in
          record {
            counters = v.counters;
            phase = record {
              metrics = part.metrics;
              counted = part.counted;
              whole = part.there ∙ ap some (sym (append-nil part.before) ∙ part.whole);
            };
            dest = v.dest;
          }
      Step-IsConsistent (renamed s text e f) v =
          let full : IsSnapshot s.tmp = subst (λ p. InPhase p s.tmp) e v.phase in
          record {
            counters = v.counters;
            phase = tt;
            dest = inr (record {
              metrics = full.metrics;
              counted = full.counted;
              whole = sym f ∙ full.whole;
            });
          }
      Step-IsConsistent (not_renamed s e) v = record {
        counters = v.counters;
        phase = tt;
        dest = v.dest;
      }
      Step-IsConsistent (restarted s) v = record { counters = begins; phase = tt; dest = v.dest }

      Reach-IsConsistent : {s t : Writer M} → Reach s t → IsConsistent s → IsConsistent t
      Reach-IsConsistent here v = v
      Reach-IsConsistent (next r st) v = Step-IsConsistent st (Reach-IsConsistent r v)

      -- Whenever a reader looks, the file is as it was before the task or is a whole snapshot.
      pub Reach-Shown :
          {t : Writer M} (m : M) (tmp : Option (List ℕ))
          → P m
          → Reach (record { metrics = m; phase = idle; tmp = tmp; dest = start }) t
          → Shown t.dest
      Reach-Shown m tmp p r =
          (Reach-IsConsistent r (record { counters = p; phase = tt; dest = inl refl })).dest

-- What a node does to its counters.
pub data Counting : Metrics → Metrics → Type 0 where
  granted : (m : Metrics) → Counting m (record_auth_granted m)
  refused : (m : Metrics) → Counting m (record_auth_denied m)
  turned_away : (m : Metrics) → Counting m (record_tunnel_denied m)
  started : (m : Metrics) → Counting m (record_tunnel_started m)
  finished : (m : Metrics) (outcome : TunnelOutcome) → Counting m (record_tunnel_finished m outcome)

Counting-IsWords : {m n : Metrics} → Counting m n → IsWords m → IsWords n
unfolding record_auth_granted record_auth_denied record_tunnel_denied record_tunnel_started
    record_tunnel_finished
Counting-IsWords (granted m) w = ground arith
Counting-IsWords (refused m) w = ground arith
Counting-IsWords (turned_away m) w = ground arith
Counting-IsWords (started m) w = ground arith
Counting-IsWords (finished m (served a b)) w = ground arith
Counting-IsWords (finished m denied) w = ground arith

-- The counters are loaded one by one while the node counts on, so what is read is seven words, of
-- which each is a value of its counter.
abbrev pub Loads : Metrics → Metrics → Type 0
Loads m n = IsWords n

-- A scrape at any moment, also while the file is being written, after a write that failed or a
-- process that ended in the middle, finds the file as it was before the node, or one number of 64
-- bits for each of the seven counters, and nothing else.
pub scrape_sees :
    {t : Writer Metrics} (m : Metrics) (tmp start : Option (List ℕ))
    → IsWords m
    → Reach to_prometheus_text Counting Loads Metrics.default
        (record { metrics = m; phase = idle; tmp = tmp; dest = start })
        t
    → (t.dest ≡ start)
      ⊎ ((text : List ℕ) × (n : Metrics) × (t.dest ≡ some text)
          × IsWords n
          × (samples text ≡ some (samples_of n)))
scrape_sees m tmp start w r =
    elim (Reach-Shown to_prometheus_text Counting Loads Metrics.default IsWords start
      (λ m' n c. Counting-IsWords c) (λ m' n loaded words. loaded) (omega arith) m tmp w r) [
        | inl old ↦ inl old
        | inr snapshot ↦ inr (
          to_prometheus_text snapshot.metrics,
          snapshot.metrics,
          snapshot.whole,
          snapshot.counted,
          samples-to_prometheus_text snapshot.metrics snapshot.counted,
        )
      ]

-- ===== src/Gateway/Sample.antt =====
-- A concrete encoding in the place of JSON, for the tests: every text ends with a zero, behind its
-- bytes plus one.
use nux_auth.Prelude.{ℕ, zero, suc, ◌≡◌, refl, ap, ◌∙◌, List, [], ◌∷◌, Option, none, some}
use nux_auth.Gateway.{Text, RateLimit, Allow, CheckSum}
use nux_auth.Gateway.Configs.{Json}

abbrev pub onto : Text → Text → Text
onto [] rest = 0 ∷ rest
onto (x ∷ t) rest = suc x ∷ onto t rest

abbrev pub join : List Text → Text
join [] = []
join (t ∷ ts) = onto t (join ts)

abbrev pub grow : ℕ → List Text → List Text
grow x [] = (x ∷ []) ∷ []
grow x (t ∷ ts) = (x ∷ t) ∷ ts

abbrev pub split : Text → List Text
split [] = []
split (zero ∷ r) = [] ∷ split r
split (suc x ∷ r) = grow x (split r)

pub split-onto : (t rest : Text) → split (onto t rest) ≡ t ∷ split rest
split-onto [] rest = refl
split-onto (x ∷ t) rest = ap (grow x) (split-onto t rest)

pub split-join : (ts : List Text) → split (join ts) ≡ ts
split-join [] = refl
split-join (t ∷ ts) = split-onto t (join ts) ∙ ap (λ us. t ∷ us) (split-join ts)

abbrev pub limit_of : List Text → Option RateLimit
limit_of ((max ∷ []) ∷ (window ∷ []) ∷ exempt) =
    some (record { max = max; window_secs = window; exempt = exempt })
limit_of _ = none

abbrev pub limit_texts : RateLimit → List Text
limit_texts r = (r.max ∷ []) ∷ (r.window_secs ∷ []) ∷ r.exempt

abbrev pub allow_texts : List Allow → List Text
allow_texts [] = []
allow_texts (a ∷ as_) = a.peer ∷ join a.roles ∷ allow_texts as_

abbrev pub allows_of : List Text → List Allow
allows_of (peer ∷ roles ∷ ts) = record { peer = peer; roles = split roles } ∷ allows_of ts
allows_of _ = []

pub allows_of-allow_texts : (entries : List Allow) → allows_of (allow_texts entries) ≡ entries
allows_of-allow_texts [] = refl
allows_of-allow_texts (a ∷ entries) =
    rw (split-join a.roles) (ap (λ l. a ∷ l) (allows_of-allow_texts entries))

abbrev pub sum_texts : List CheckSum → List Text
sum_texts [] = []
sum_texts (c ∷ cs) = c.peer ∷ c.sha256 ∷ sum_texts cs

abbrev pub sums_of : List Text → List CheckSum
sums_of (peer ∷ sha256 ∷ ts) = record { peer = peer; sha256 = sha256 } ∷ sums_of ts
sums_of _ = []

pub sums_of-sum_texts : (entries : List CheckSum) → sums_of (sum_texts entries) ≡ entries
sums_of-sum_texts [] = refl
sums_of-sum_texts (c ∷ entries) = ap (λ l. c ∷ l) (sums_of-sum_texts entries)

abbrev pub sample_json : Json
sample_json = record {
  rate_limit = record {
    to_string = λ r. join (limit_texts r);
    from_str = λ t. limit_of (split t);
    reads_back = λ r. ap limit_of (split-join (limit_texts r));
  };
  allow = record {
    to_string = λ l. join (allow_texts l);
    from_str = λ t. some (allows_of (split t));
    reads_back = λ l.
        ap (λ ts. some (allows_of ts)) (split-join (allow_texts l))
        ∙ ap some (allows_of-allow_texts l);
  };
  check_sum = record {
    to_string = λ l. join (sum_texts l);
    from_str = λ t. some (sums_of (split t));
    reads_back = λ l.
        ap (λ ts. some (sums_of ts)) (split-join (sum_texts l)) ∙ ap some (sums_of-sum_texts l);
  };
}

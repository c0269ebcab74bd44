-- ===== src/Cli/Unserved/Tests.antt =====
-- Two polls of a gateway that knows the paths of its routers.
use nux_auth.Prelude.{
  ℕ, ◌≡◌, refl, arith, true, false, List, [], ◌∷◌, Option, none, some, any, ok, if◌then◌else◌, ◌∙◌,
  ap, sym, Bool-cases, inl, inr,
}
use nux_auth.Gateway.{Text}
use nux_auth.Gateway.Http.{
  Pattern, healthz, configs, node_state, device_code, device_status, public_pem, ActorKind, Answer,
  Axum,
}
use nux_auth.Gateway.Handlers.{World}
use nux_auth.Gateway.Routes.Sample.{table_axum, toy_deps, world}
use nux_auth.Cli.Args.{split}
use nux_auth.Cli.Remote.{RemoteConfig}
use nux_auth.Cli.Sync.{Companion, polls}
use nux_auth.Cli.Sample.{toy_toml, toy_disk}
use nux_auth.Cli.Unserved.{segments, fits, Visit, visits, polls-unserved}

abbrev first_fit : List Pattern → List Text → Option Pattern
first_fit [] ts = none
first_fit (p ∷ ps) ts = let rest = first_fit ps ts in if fits (segments p) ts then some p else rest

first_fit-fits :
    (ps : List Pattern) (ts : List Text) (p : Pattern)
    → first_fit ps ts ≡ some p
    → fits (segments p) ts ≡ true
first_fit-fits [] ts p h = absurd (cc)
first_fit-fits (q ∷ ps) ts p h = elim (Bool-cases (fits (segments q) ts)) [
  | inl fit ↦
      let same : q ≡ p = ground (arith, fit, h) in ap (λ r. fits (segments r) ts) (sym same) ∙ fit
  | inr unfit ↦ first_fit-fits ps ts p (ground (arith, unfit, h))
]

abbrev known : List Pattern
known = healthz ∷ configs ∷ node_state ∷ device_code ∷ device_status ∷ public_pem ∷ []

abbrev axum : Axum (World ℕ) Text
axum = table_axum (λ path. first_fit known (split 47 path))

-- No body is read.
abbrev json : Answer → Option RemoteConfig
json a = none

abbrev companion : Companion
companion = record { file = some (1 ∷ []); last_updated_at = none }

abbrev polled : List (Visit ℕ)
polled =
    record { tunnel = ActorKind.guard; now = 100; world = world; sighup = ok tt }
    ∷ record { tunnel = ActorKind.client; now = 160; world = world; sighup = ok tt }
    ∷ []

polls-unserved_example :
    ((polls toy_toml toy_disk (55 ∷ []) companion (visits axum toy_deps json polled)).0 ≡ companion)
    × (any
          (λ b. b)
          (polls toy_toml toy_disk (55 ∷ []) companion (visits axum toy_deps json polled)).1
        ≡ false)
polls-unserved_example =
    polls-unserved axum toy_deps json (λ path p h. first_fit-fits known (split 47 path) p h)
      (λ now w q. refl) toy_toml toy_disk (55 ∷ []) companion polled

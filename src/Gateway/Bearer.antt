-- ===== src/Gateway/Bearer.antt =====
-- nux_gateway/src/api/auth.rs: the token that the routes of the administrator ask for.
use nux_auth.Prelude.{
  ◌≡◌, ◌↔◌, Bool, true, ◌&&◌, [], ◌∷◌, ◌++◌, Option, none, some, arith, length, ◌==◌, if◌then◌else◌,
  ok, err, Option-cases, inl, inr,
}
use nux_auth.Gateway.{Text, AppError, AppResult}

-- "Bearer "
abbrev pub bearer : Text
bearer = 66 ∷ 101 ∷ 97 ∷ 114 ∷ 101 ∷ 114 ∷ 32 ∷ []

-- `str::strip_prefix`
unfoldable pub strip_prefix : Text → Text → Option Text
strip_prefix [] text = some text
strip_prefix (c ∷ prefix) [] = none
strip_prefix (c ∷ prefix) (d ∷ text) =
    let rest = strip_prefix prefix text in if c == d then rest else none

pub strip_prefix_iff :
    (prefix text rest : Text) → (strip_prefix prefix text ≡ some rest) ↔ (text ≡ prefix ++ rest)
unfolding strip_prefix
strip_prefix_iff [] text rest = ground arith
strip_prefix_iff (c ∷ prefix) [] rest = ground arith
strip_prefix_iff (c ∷ prefix) (d ∷ text) rest = ground (arith, strip_prefix_iff prefix text rest)

-- `to_str` of a header's value, and `constant_time_eq` on slices of one length.
module _ {Header : Type 0} (to_str : Header → Option Text)
    (constant_time_eq : Text → Text → Bool) where
  unfoldable pub presented : Option Header → Option Text
  presented none = none
  presented (some h) = elim (to_str h) [ none ↦ none | some v ↦ strip_prefix bearer v ]

  -- The answer of the route behind it stands for `next.run`.
  unfoldable pub require_bearer : {A : Type 0} → Text → Option Header → AppResult A → AppResult A
  unfolding presented
  require_bearer expected authorization next = elim (presented authorization) [
    | none ↦ err AppError.unauthorized
    | some token ↦
        if length token == length expected && constant_time_eq token expected
        then next
        else err AppError.unauthorized
  ]

  pub presented_iff :
      (h : Header) (token : Text)
      → (presented (some h) ≡ some token) ↔ (to_str h ≡ some (bearer ++ token))
  unfolding presented
  presented_iff h token = elim (Option-cases (to_str h)) [
    | inl bad ↦ ground arith
    | inr (v, good) ↦ ground (arith, strip_prefix_iff bearer v token)
  ]

  -- A request reaches the route behind the check exactly if it has the header and the header is the
  -- word Bearer, a space and the expected token; any other request is answered that it is
  -- unauthorized.
  pub require_bearer_iff :
      {A : Type 0} (expected : Text) (h : Header) (a : A)
      → ((x y : Text) → length x ≡ length y → (constant_time_eq x y ≡ true) ↔ (x ≡ y))
      → (require_bearer expected (some h) (ok a) ≡ ok a) ↔ (to_str h ≡ some (bearer ++ expected))
  unfolding require_bearer
  require_bearer_iff expected h a same = elim (Option-cases (presented (some h))) [
    | inl gone ↦ ground (arith, presented_iff h expected)
    | inr (token, shown) ↦
        ground (arith, presented_iff h token, presented_iff h expected, same token expected)
  ]

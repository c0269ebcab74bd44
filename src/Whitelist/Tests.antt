-- ===== src/Whitelist/Tests.antt =====
-- The whitelist on concrete lists.
use nux_auth.Prelude.{ℕ, ◌≡◌, refl, [], ◌∷◌}
use nux_auth.Prelude.Assoc.{lookup}
use nux_auth.Fixtures.{toy_net}
use nux_auth.Whitelist.{Whitelist, Roles, roles}
use nux_auth.Whitelist.Laws.{roles-lookup}

abbrev admin : Roles
admin = (97 ∷ []) ∷ []

abbrev two_peers : Whitelist ℕ
two_peers = (7, admin) ∷ (8, []) ∷ []

roles-lookup_example : roles toy_net two_peers 8 ≡ lookup toy_net.peer 8 two_peers
unfolding lookup
roles-lookup_example = roles-lookup toy_net two_peers 8 (refl, (refl, tt))

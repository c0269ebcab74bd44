-- ===== src/Tunnel/Access.antt =====
-- The role check in constant time asks whether the role is among those granted.
use nux_auth.Prelude.{
  ℕ, ◌≡◌, refl, Bool, true, false, ◌||◌, List, [], ◌∷◌, Option, none, some, arith, length, any,
  bytes_beq, bytes_beq_iff, if◌then◌else◌, ap,
}
use nux_auth.Net.{Net}
use nux_auth.Whitelist.{Roles, same_bytes}
use nux_auth.Tunnel.{role_loop, role_granted}

module _ {Peer Key : Type 0} (net : Net Peer Key) where
  pub same_bytes-bytes_beq : (a b : List ℕ) → same_bytes net a b ≡ bytes_beq a b
  unfolding same_bytes
  same_bytes-bytes_beq a b =
      let sized : a ≡ b → length a ≡ length b = λ e. ap length e in
      ground (arith, net.constant_time_eq_iff a b, bytes_beq_iff a b, sized)

  role_loop-any :
      (granted : Roles) (required : List ℕ) (authorized : Bool)
      → role_loop net granted required authorized
        ≡ (authorized || any (λ role. bytes_beq role required) granted)
  unfolding role_loop
  role_loop-any [] required authorized = ground arith
  role_loop-any (role ∷ granted) required authorized = ground (
    arith,
    same_bytes-bytes_beq role required,
    role_loop-any granted required (if same_bytes net role required then true else authorized),
  )

  -- A service without a required role is open to every role set; one with a required role is
  -- open exactly to those that hold that very text.
  pub role_granted-any :
      (granted : Roles) (required : Option (List ℕ))
      → role_granted net granted required
        ≡ elim required [ none ↦ true | some r ↦ any (λ role. bytes_beq role r) granted ]
  unfolding role_granted
  role_granted-any granted none = refl
  role_granted-any granted (some r) = role_loop-any granted r false

-- ===== src/Cli/Args/Discovery.antt =====
-- crates/nux-cli/src/main.rs: what `--dial discover:` is read as.
use nux_auth.Prelude.{◌≡◌, refl, ℕ, false, [], ◌∷◌, ◌++◌, Option, some, arith, any, ◌==◌}
use nux_auth.Gateway.{Text}
use nux_auth.Gateway.Bearer.{strip_prefix}
use nux_auth.Cli.Args.{split_once, parse_dial_target, discover, discover_prefix, at_sign, is_empty}

split_once-joined :
    (sep : ℕ) (left right : Text)
    → any (λ c. c == sep) left ≡ false
    → split_once sep (left ++ sep ∷ right) ≡ some (left, right)
unfolding split_once
split_once-joined sep [] right free = ground arith
split_once-joined sep (c ∷ cs) right free =
    let later = split_once-joined sep cs right (ground arith) in ground arith

-- `discover:`, a name that is not empty and has no `@`, an `@`, and the text of an address is read as
-- the discovery of that name at that address.
pub parse_dial_target-discover :
    {Multiaddr : Type 0} (multiaddr : Text → Option Multiaddr) (name text : Text) (addr : Multiaddr)
    → is_empty name ≡ false
    → any (λ c. c == at_sign) name ≡ false
    → multiaddr text ≡ some addr
    → parse_dial_target multiaddr (discover_prefix ++ name ++ at_sign ∷ text)
      ≡ some (discover name addr)
unfolding parse_dial_target strip_prefix
parse_dial_target-discover multiaddr name text addr nonempty free parsed =
    rw (split_once-joined at_sign name text free, nonempty, parsed) refl

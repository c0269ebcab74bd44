-- ===== src/Cli/Args.antt =====
-- crates/nux-cli/src/main.rs: the arguments `--forward`, `--forward-unix` and `--dial`. A text is
-- the list of its characters, as their code points. The texts of the errors are left out.
pub mod Discovery
use nux_auth.Prelude.{
  ℕ, Bool, true, false, ◌&&◌, ◌||◌, not, List, [], ◌∷◌, Option, none, some, leb, ◌==◌,
  if◌then◌else◌, parse_uint,
}
use nux_auth.Prelude.Optional.{◌>>=◌, ◌>>◌, guard}
use nux_auth.Gateway.{Text}
use nux_auth.Gateway.Bearer.{strip_prefix}

-- `char::is_whitespace`
abbrev pub is_whitespace : ℕ → Bool
is_whitespace c =
    (leb 9 c && leb c 13)
    || c == 32
    || c == 133
    || c == 160
    || c == 5760
    || (leb 8192 c && leb c 8202)
    || c == 8232
    || c == 8233
    || c == 8239
    || c == 8287
    || c == 12288

unfoldable pub trim_start : Text → Text
trim_start [] = []
trim_start (c ∷ cs) = let rest = trim_start cs in if is_whitespace c then rest else c ∷ cs

unfoldable pub trim_end : Text → Text
trim_end [] = []
trim_end (c ∷ cs) = elim (trim_end cs) [
  | [] ↦ if is_whitespace c then [] else c ∷ []
  | d ∷ ds ↦ c ∷ d ∷ ds
]

unfoldable pub trim : Text → Text
unfolding trim_start trim_end
trim text = trim_end (trim_start text)

abbrev pub is_empty : Text → Bool
is_empty [] = true
is_empty (c ∷ cs) = false

-- The text before the first separator and the text behind it.
unfoldable pub split_once : ℕ → Text → Option (Text × Text)
split_once sep [] = none
split_once sep (c ∷ cs) =
    let rest = split_once sep cs in
    if c == sep
    then some ([], cs)
    else elim rest [ none ↦ none | some parts ↦ some (c ∷ parts.0, parts.1) ]

abbrev pub onto_first : ℕ → List Text → List Text
onto_first c [] = (c ∷ []) ∷ []
onto_first c (t ∷ ts) = (c ∷ t) ∷ ts

-- `str::split`, which always has a part.
unfoldable pub split : ℕ → Text → List Text
split sep [] = [] ∷ []
split sep (c ∷ cs) = let rest = split sep cs in if c == sep then [] ∷ rest else onto_first c rest

abbrev colon : ℕ
colon = 58

abbrev comma : ℕ
comma = 44

abbrev pub at_sign : ℕ
at_sign = 64

abbrev u16_max : ℕ
u16_max = 65535

abbrev u32_max : ℕ
u32_max = 4294967295

unfoldable pub parse_forward : Text → Option (ℕ × Text)
unfolding split_once trim
parse_forward value = do
  parts ← split_once colon value
  port ← parse_uint u16_max (trim parts.0)
  guard (not (is_empty (trim parts.1)))
  some (port, trim parts.1)

-- The parts of the list of identities: trimmed, the empty ones left out, and every other parsed.
unfoldable pub parse_uids : List Text → Option (List ℕ)
unfolding trim
parse_uids [] = some []
parse_uids (u ∷ us) =
    let rest = parse_uids us in
    if is_empty (trim u) then rest else elim (parse_uint u32_max (trim u)) [
      | none ↦ none
      | some uid ↦ elim rest [ none ↦ none | some uids ↦ some (uid ∷ uids) ]
    ]

abbrev pub is_nil : List ℕ → Bool
is_nil [] = true
is_nil (u ∷ us) = false

unfoldable pub parse_forward_unix : Text → Option (Text × (Text × List ℕ))
unfolding split_once split trim parse_uids
parse_forward_unix value = do
  first ← split_once colon value
  guard (not (is_empty (trim first.0)))
  second ← split_once colon first.1
  guard (not (is_empty (trim second.0)))
  uids ← parse_uids (split comma second.1)
  guard (not (is_nil uids))
  some (trim first.0, (trim second.0, uids))

pub data DialTarget (Multiaddr : Type 0) : Type 0 where
  address : Multiaddr → DialTarget Multiaddr
  discover : Text → Multiaddr → DialTarget Multiaddr

-- "discover:"
abbrev pub discover_prefix : Text
discover_prefix = 100 ∷ 105 ∷ 115 ∷ 99 ∷ 111 ∷ 118 ∷ 101 ∷ 114 ∷ 58 ∷ []

unfoldable pub parse_dial_target :
    {Multiaddr : Type 0} → (Text → Option Multiaddr) → Text → Option (DialTarget Multiaddr)
unfolding strip_prefix split_once
parse_dial_target multiaddr value = elim (strip_prefix discover_prefix value) [
  | some rest ↦ do
    parts ← split_once at_sign rest
    guard (not (is_empty parts.0))
    rendezvous ← multiaddr parts.1
    some (discover parts.0 rendezvous)
  | none ↦ do addr ← multiaddr value; some (address addr)
]

-- A part of a `Multiaddr`; `elsewhere` stands for every part that names no peer.
pub data Protocol (Peer : Type 0) : Type 0 where
  p2p : Peer → Protocol Peer
  elsewhere : Protocol Peer

unfoldable pub target_peer_id : {Peer : Type 0} → List (Protocol Peer) → Option Peer
target_peer_id [] = none
target_peer_id (p2p peer ∷ parts) = elim (target_peer_id parts) [
  | none ↦ some peer
  | some later ↦ some later
]
target_peer_id (elsewhere ∷ parts) = target_peer_id parts

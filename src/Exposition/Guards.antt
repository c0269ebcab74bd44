-- ===== src/Exposition/Guards.antt =====
-- crates/nux-core/src/metrics.rs: what is read of the text of a node's counters.
use nux_auth.Prelude.{◌≡◌, ◌<◌, ◌^◌, refl, List, [], ◌∷◌, some}
use nux_auth.Metrics.{Metrics}
use nux_auth.Exposition.{
  codes, counter, gauge, to_prometheus_text, auth_granted_help, auth_denied_help,
  tunnels_opened_help, tunnels_denied_help, tunnels_active_help, bytes_from_peer_help,
  bytes_to_peer_help,
}
use nux_auth.Exposition.Reader.{Sample, samples, samples-nil, more}

-- Every counter is a word of 64 bits.
pub record IsWords (m : Metrics) : Type 0 where
  pub granted : m.auth_granted < 2 ^ 64
  pub denied : m.auth_denied < 2 ^ 64
  pub opened : m.tunnels_opened < 2 ^ 64
  pub tunnels_denied : m.tunnels_denied < 2 ^ 64
  pub active : m.tunnels_active < 2 ^ 64
  pub from_peer : m.bytes_from_peer < 2 ^ 64
  pub to_peer : m.bytes_to_peer < 2 ^ 64

abbrev pub samples_of : Metrics → List Sample
samples_of m =
    (codes "nux_auth_granted_total", m.auth_granted)
    ∷ (codes "nux_auth_denied_total", m.auth_denied)
    ∷ (codes "nux_tunnels_opened_total", m.tunnels_opened)
    ∷ (codes "nux_tunnels_denied_total", m.tunnels_denied)
    ∷ (codes "nux_tunnels_active", m.tunnels_active)
    ∷ (codes "nux_bytes_from_peer_total", m.bytes_from_peer)
    ∷ (codes "nux_bytes_to_peer_total", m.bytes_to_peer)
    ∷ []

-- A reader of the text finds exactly the seven counters of the node, each with its value, and
-- nothing else.
pub samples-to_prometheus_text :
    (m : Metrics) → IsWords m → samples (to_prometheus_text m) ≡ some (samples_of m)
unfolding to_prometheus_text
samples-to_prometheus_text m w =
    more (codes "nux_auth_granted_total") auth_granted_help counter _ m.auth_granted refl w.granted
      (more (codes "nux_auth_denied_total") auth_denied_help counter _ m.auth_denied refl w.denied (
        more (codes "nux_tunnels_opened_total") tunnels_opened_help counter _ m.tunnels_opened refl
          w.opened
          (more (codes "nux_tunnels_denied_total") tunnels_denied_help counter _ m.tunnels_denied
            refl w.tunnels_denied
            (more (codes "nux_tunnels_active") tunnels_active_help gauge _ m.tunnels_active refl
              w.active
              (more (codes "nux_bytes_from_peer_total") bytes_from_peer_help counter _
                m.bytes_from_peer refl w.from_peer
                (more (codes "nux_bytes_to_peer_total") bytes_to_peer_help counter _ m.bytes_to_peer
                  refl w.to_peer samples-nil))))))

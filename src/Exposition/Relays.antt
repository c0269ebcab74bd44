-- ===== src/Exposition/Relays.antt =====
-- nodes_relay/src/metrics.rs: what is read of the text of the relay's counters.
use nux_auth.Prelude.{◌≡◌, ◌<◌, ◌^◌, refl, List, [], ◌∷◌, some}
use nux_auth.Relay.{Metrics}
use nux_auth.Exposition.{
  codes, counter, gauge, relay_prometheus_text, reservations_help, reservations_denied_help,
  reservations_expired_help, circuits_opened_help, circuits_active_help,
}
use nux_auth.Exposition.Reader.{Sample, samples, samples-nil, more}

pub record IsWords (m : Metrics) : Type 0 where
  pub reservations : m.reservations_total < 2 ^ 64
  pub denied : m.reservations_denied_total < 2 ^ 64
  pub expired : m.reservations_expired_total < 2 ^ 64
  pub opened : m.circuits_opened_total < 2 ^ 64
  pub active : m.circuits_active < 2 ^ 64

abbrev pub samples_of : Metrics → List Sample
samples_of m =
    (codes "nux_relay_reservations_total", m.reservations_total)
    ∷ (codes "nux_relay_reservations_denied_total", m.reservations_denied_total)
    ∷ (codes "nux_relay_reservations_expired_total", m.reservations_expired_total)
    ∷ (codes "nux_relay_circuits_opened_total", m.circuits_opened_total)
    ∷ (codes "nux_relay_circuits_active", m.circuits_active)
    ∷ []

-- A reader of the relay's text finds exactly its five counters, each with its value, and nothing
-- else.
pub samples-relay_prometheus_text :
    (m : Metrics) → IsWords m → samples (relay_prometheus_text m) ≡ some (samples_of m)
unfolding relay_prometheus_text
samples-relay_prometheus_text m w =
    more (codes "nux_relay_reservations_total") reservations_help counter _ m.reservations_total
      refl w.reservations
      (more (codes "nux_relay_reservations_denied_total") reservations_denied_help counter _
        m.reservations_denied_total refl w.denied
        (more (codes "nux_relay_reservations_expired_total") reservations_expired_help counter _
          m.reservations_expired_total refl w.expired
          (more (codes "nux_relay_circuits_opened_total") circuits_opened_help counter _
            m.circuits_opened_total refl w.opened
            (more (codes "nux_relay_circuits_active") circuits_active_help gauge _ m.circuits_active
              refl w.active samples-nil))))

-- ===== src/Exposition.antt =====
-- crates/nux-core/src/metrics.rs and nodes_relay/src/metrics.rs, `to_prometheus_text`: the counters
-- in the text format of Prometheus. A text is the list of its characters, as their code points.
pub mod Reader
pub mod Guards
pub mod Relays
pub mod Writer
mod Tests
use Prim.Native.Char.{code}
use Prim.Native.String.{String}
use nux_auth.Prelude.{ℕ, List, [], ◌∷◌, ◌++◌}
use nux_auth.Prelude.Print.{print}
use nux_auth.Metrics.{Metrics}
use nux_auth.Relay as Relay

abbrev pub codes : String → List ℕ
codes String.[] = []
codes (String.◌∷◌ c s) = code c ∷ codes s

abbrev pub newline : ℕ
newline = 10

-- The three lines of one metric in the format string, with the value in the place of `{}`.
unfoldable pub metric : List ℕ → List ℕ → List ℕ → ℕ → List ℕ → List ℕ
metric name help kind value rest =
    (codes "# HELP " ++ (name ++ (32 ∷ help)))
    ++ (newline
        ∷ ((codes "# TYPE " ++ (name ++ (32 ∷ kind)))
            ++ (newline ∷ ((name ++ (32 ∷ print value)) ++ (newline ∷ rest)))))

abbrev pub counter : List ℕ
counter = codes "counter"

abbrev pub gauge : List ℕ
gauge = codes "gauge"

-- The lines of help.
abbrev pub auth_granted_help : List ℕ
auth_granted_help = codes "Authentifications réussies."

abbrev pub auth_denied_help : List ℕ
auth_denied_help =
    codes "Authentifications refusées (pair inconnu, signature invalide, arrêt en cours)."

abbrev pub tunnels_opened_help : List ℕ
tunnels_opened_help = codes "Tunnels établis avec succès (acquittement envoyé)."

abbrev pub tunnels_denied_help : List ℕ
tunnels_denied_help = codes "Flux tunnel abandonnés avant établissement (silence radio)."

abbrev pub tunnels_active_help : List ℕ
tunnels_active_help = codes "Tunnels actuellement en cours de relais."

abbrev pub bytes_from_peer_help : List ℕ
bytes_from_peer_help = codes "Octets reçus du pair et relayés vers le service local."

abbrev pub bytes_to_peer_help : List ℕ
bytes_to_peer_help = codes "Octets reçus du service local et relayés vers le pair."

abbrev pub reservations_help : List ℕ
reservations_help = codes "Réservations de circuit acceptées."

abbrev pub reservations_denied_help : List ℕ
reservations_denied_help = codes "Réservations de circuit refusées."

abbrev pub reservations_expired_help : List ℕ
reservations_expired_help = codes "Réservations de circuit expirées."

abbrev pub circuits_opened_help : List ℕ
circuits_opened_help = codes "Circuits relayés établis avec succès."

abbrev pub circuits_active_help : List ℕ
circuits_active_help = codes "Circuits relayés actuellement ouverts."

unfoldable pub to_prometheus_text : Metrics → List ℕ
unfolding metric
to_prometheus_text m =
    metric (codes "nux_auth_granted_total") auth_granted_help counter m.auth_granted (
      metric (codes "nux_auth_denied_total") auth_denied_help counter m.auth_denied (
        metric (codes "nux_tunnels_opened_total") tunnels_opened_help counter m.tunnels_opened (
          metric (codes "nux_tunnels_denied_total") tunnels_denied_help counter m.tunnels_denied (
            metric (codes "nux_tunnels_active") tunnels_active_help gauge m.tunnels_active (
              metric (codes "nux_bytes_from_peer_total") bytes_from_peer_help counter
                m.bytes_from_peer
                (metric (codes "nux_bytes_to_peer_total") bytes_to_peer_help counter m.bytes_to_peer
                  []))))))

unfoldable pub relay_prometheus_text : Relay.Metrics → List ℕ
unfolding metric
relay_prometheus_text m =
    metric (codes "nux_relay_reservations_total") reservations_help counter m.reservations_total (
      metric (codes "nux_relay_reservations_denied_total") reservations_denied_help counter
        m.reservations_denied_total
        (metric (codes "nux_relay_reservations_expired_total") reservations_expired_help counter
          m.reservations_expired_total
          (metric (codes "nux_relay_circuits_opened_total") circuits_opened_help counter
            m.circuits_opened_total
            (metric (codes "nux_relay_circuits_active") circuits_active_help gauge m.circuits_active
              []))))

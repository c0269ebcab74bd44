-- ===== src/Relay.antt =====
-- nodes_relay/src: the relay's counters and the loop that keeps them (metrics.rs, main.rs). The
-- circuits and the rendezvous are libp2p's; its events are the input.
pub mod Key
pub mod Counts
pub mod Start
mod Tests
use nux_auth.Prelude.{ℕ, List, [], ◌∷◌}
use nux_auth.Metrics.{fetch_add, fetch_sub}

pub record Metrics : Type 0 where
  pub reservations_total : ℕ
  pub reservations_denied_total : ℕ
  pub reservations_expired_total : ℕ
  pub circuits_opened_total : ℕ
  pub circuits_active : ℕ

abbrev pub default : Metrics
default = record {
  reservations_total = 0;
  reservations_denied_total = 0;
  reservations_expired_total = 0;
  circuits_opened_total = 0;
  circuits_active = 0;
}

-- The events of the relay that are counted; `printed` stands for all others.
pub data Event : Type 0 where
  reservation_req_accepted reservation_req_denied reservation_timed_out : Event
  circuit_req_accepted circuit_closed printed : Event

unfoldable pub record_reservation_accepted : Metrics → Metrics
record_reservation_accepted m = record m { reservations_total = fetch_add m.reservations_total 1 }

unfoldable pub record_reservation_denied : Metrics → Metrics
record_reservation_denied m = record m {
  reservations_denied_total = fetch_add m.reservations_denied_total 1;
}

unfoldable pub record_reservation_expired : Metrics → Metrics
record_reservation_expired m = record m {
  reservations_expired_total = fetch_add m.reservations_expired_total 1;
}

unfoldable pub record_circuit_opened : Metrics → Metrics
record_circuit_opened m = record m {
  circuits_opened_total = fetch_add m.circuits_opened_total 1;
  circuits_active = fetch_add m.circuits_active 1;
}

unfoldable pub record_circuit_closed : Metrics → Metrics
record_circuit_closed m = record m { circuits_active = fetch_sub m.circuits_active 1 }

-- One turn of the loop.
unfoldable pub on_event : Metrics → Event → Metrics
unfolding record_reservation_accepted record_reservation_denied record_reservation_expired
    record_circuit_opened record_circuit_closed
on_event m reservation_req_accepted = record_reservation_accepted m
on_event m reservation_req_denied = record_reservation_denied m
on_event m reservation_timed_out = record_reservation_expired m
on_event m circuit_req_accepted = record_circuit_opened m
on_event m circuit_closed = record_circuit_closed m
on_event m printed = m

unfoldable pub event_loop : Metrics → List Event → Metrics
unfolding on_event
event_loop m [] = m
event_loop m (e ∷ es) = event_loop (on_event m e) es

-- ===== src/Relay/Counts.antt =====
-- The relay's counters after any sequence of events, wrapped as they are.
use nux_auth.Prelude.{ℕ, ◌+◌, ◌%◌, ◌≤◌, ◌<◌, ◌≡◌, List, [], ◌∷◌, arith}
use nux_auth.Metrics.{u64_mod}
use nux_auth.Relay.{
  Metrics, default, Event, reservation_req_accepted, reservation_req_denied, reservation_timed_out,
  circuit_req_accepted, circuit_closed, printed, on_event, event_loop, record_reservation_accepted,
  record_reservation_denied, record_reservation_expired, record_circuit_opened,
  record_circuit_closed,
}

-- What an event adds to a count that does not wrap.
abbrev pub accepted : Event → ℕ
accepted reservation_req_accepted = 1
accepted _ = 0

abbrev pub refused : Event → ℕ
refused reservation_req_denied = 1
refused _ = 0

abbrev pub expired : Event → ℕ
expired reservation_timed_out = 1
expired _ = 0

abbrev pub opened : Event → ℕ
opened circuit_req_accepted = 1
opened _ = 0

abbrev pub closed : Event → ℕ
closed circuit_closed = 1
closed _ = 0

abbrev pub total : (Event → ℕ) → List Event → ℕ
total f [] = 0
total f (e ∷ es) = f e + total f es

-- Every counter below the point where it wraps.
record Fits (m : Metrics) : Type 0 where
  accepted_fits : m.reservations_total < u64_mod
  refused_fits : m.reservations_denied_total < u64_mod
  expired_fits : m.reservations_expired_total < u64_mod
  opened_fits : m.circuits_opened_total < u64_mod
  active_fits : m.circuits_active < u64_mod

-- The counters of `m'` are those of `m` with what the events add, up to the wrapping.
record Counted (m m' : Metrics) (es : List Event) : Type 0 where
  accepted_count :
      m'.reservations_total % u64_mod ≡ (m.reservations_total + total accepted es) % u64_mod
  refused_count :
      m'.reservations_denied_total % u64_mod
      ≡ (m.reservations_denied_total + total refused es) % u64_mod
  expired_count :
      m'.reservations_expired_total % u64_mod
      ≡ (m.reservations_expired_total + total expired es) % u64_mod
  opened_count :
      m'.circuits_opened_total % u64_mod ≡ (m.circuits_opened_total + total opened es) % u64_mod
  active_count :
      (m'.circuits_active + total closed es) % u64_mod
      ≡ (m.circuits_active + total opened es) % u64_mod

on_event-Fits : (m : Metrics) (e : Event) → Fits m → Fits (on_event m e)
unfolding on_event record_reservation_accepted record_reservation_denied record_reservation_expired
    record_circuit_opened record_circuit_closed
on_event-Fits m reservation_req_accepted f = record {
  accepted_fits = omega (arith, f.accepted_fits);
  refused_fits = omega (arith, f.refused_fits);
  expired_fits = omega (arith, f.expired_fits);
  opened_fits = omega (arith, f.opened_fits);
  active_fits = omega (arith, f.active_fits);
}
on_event-Fits m reservation_req_denied f = record {
  accepted_fits = omega (arith, f.accepted_fits);
  refused_fits = omega (arith, f.refused_fits);
  expired_fits = omega (arith, f.expired_fits);
  opened_fits = omega (arith, f.opened_fits);
  active_fits = omega (arith, f.active_fits);
}
on_event-Fits m reservation_timed_out f = record {
  accepted_fits = omega (arith, f.accepted_fits);
  refused_fits = omega (arith, f.refused_fits);
  expired_fits = omega (arith, f.expired_fits);
  opened_fits = omega (arith, f.opened_fits);
  active_fits = omega (arith, f.active_fits);
}
on_event-Fits m circuit_req_accepted f = record {
  accepted_fits = omega (arith, f.accepted_fits);
  refused_fits = omega (arith, f.refused_fits);
  expired_fits = omega (arith, f.expired_fits);
  opened_fits = omega (arith, f.opened_fits);
  active_fits = omega (arith, f.active_fits);
}
on_event-Fits m circuit_closed f = record {
  accepted_fits = omega (arith, f.accepted_fits);
  refused_fits = omega (arith, f.refused_fits);
  expired_fits = omega (arith, f.expired_fits);
  opened_fits = omega (arith, f.opened_fits);
  active_fits = omega (arith, f.active_fits);
}
on_event-Fits m printed f = record {
  accepted_fits = omega (arith, f.accepted_fits);
  refused_fits = omega (arith, f.refused_fits);
  expired_fits = omega (arith, f.expired_fits);
  opened_fits = omega (arith, f.opened_fits);
  active_fits = omega (arith, f.active_fits);
}

event_loop-Fits : (m : Metrics) (es : List Event) → Fits m → Fits (event_loop m es)
unfolding event_loop
event_loop-Fits m [] f = f
event_loop-Fits m (e ∷ es) f = event_loop-Fits (on_event m e) es (on_event-Fits m e f)

on_event-Counted : (m : Metrics) (e : Event) → Counted m (on_event m e) (e ∷ [])
unfolding on_event record_reservation_accepted record_reservation_denied record_reservation_expired
    record_circuit_opened record_circuit_closed
on_event-Counted m reservation_req_accepted = record {
  accepted_count = omega arith;
  refused_count = omega arith;
  expired_count = omega arith;
  opened_count = omega arith;
  active_count = omega arith;
}
on_event-Counted m reservation_req_denied = record {
  accepted_count = omega arith;
  refused_count = omega arith;
  expired_count = omega arith;
  opened_count = omega arith;
  active_count = omega arith;
}
on_event-Counted m reservation_timed_out = record {
  accepted_count = omega arith;
  refused_count = omega arith;
  expired_count = omega arith;
  opened_count = omega arith;
  active_count = omega arith;
}
on_event-Counted m circuit_req_accepted = record {
  accepted_count = omega arith;
  refused_count = omega arith;
  expired_count = omega arith;
  opened_count = omega arith;
  active_count = omega arith;
}
on_event-Counted m circuit_closed = record {
  accepted_count = omega arith;
  refused_count = omega arith;
  expired_count = omega arith;
  opened_count = omega arith;
  active_count = omega arith;
}
on_event-Counted m printed = record {
  accepted_count = omega arith;
  refused_count = omega arith;
  expired_count = omega arith;
  opened_count = omega arith;
  active_count = omega arith;
}

event_loop-Counted : (m : Metrics) (es : List Event) → Counted m (event_loop m es) es
unfolding event_loop
event_loop-Counted m [] = record {
  accepted_count = omega arith;
  refused_count = omega arith;
  expired_count = omega arith;
  opened_count = omega arith;
  active_count = omega arith;
}
event_loop-Counted m (e ∷ es) =
    let once = on_event-Counted m e in
    let rest = event_loop-Counted (on_event m e) es in
    record {
      accepted_count = omega (arith, once.accepted_count, rest.accepted_count);
      refused_count = omega (arith, once.refused_count, rest.refused_count);
      expired_count = omega (arith, once.expired_count, rest.expired_count);
      opened_count = omega (arith, once.opened_count, rest.opened_count);
      active_count = omega (arith, once.active_count, rest.active_count);
    }

-- Fewer than 2^64 events leave the relay's counters exact: where no more circuits have closed than
-- opened, the gauge is the number of circuits that are open, in whatever order the events came, and
-- the totals count the circuits opened and the reservations accepted, refused and expired.
pub event_loop_exact :
    (es : List Event)
    → total closed es ≤ total opened es
    → total opened es < u64_mod
    → total accepted es < u64_mod
    → total refused es < u64_mod
    → total expired es < u64_mod
    → let m = event_loop default es in
      (m.circuits_active + total closed es ≡ total opened es)
      × (m.circuits_opened_total ≡ total opened es)
      × (m.reservations_total ≡ total accepted es)
      × (m.reservations_denied_total ≡ total refused es)
      × (m.reservations_expired_total ≡ total expired es)
event_loop_exact es le o a r x =
    let fits = event_loop-Fits default es (record {
      accepted_fits = omega arith;
      refused_fits = omega arith;
      expired_fits = omega arith;
      opened_fits = omega arith;
      active_fits = omega arith;
    }) in
    let c = event_loop-Counted default es in
    (
      omega (arith, le, o, fits.active_fits, c.active_count),
      omega (arith, o, fits.opened_fits, c.opened_count),
      omega (arith, a, fits.accepted_fits, c.accepted_count),
      omega (arith, r, fits.refused_fits, c.refused_count),
      omega (arith, x, fits.expired_fits, c.expired_count),
    )

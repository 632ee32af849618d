-- ===== src/BookingService/Create.antt =====
-- What `Create` of the bookings service has done when it answers.
use high_concurrency_ticketi.Prelude.{suc, pos, ◌≤ℤ◌, ◌≡◌, false, some, List, length, ltb}
use high_concurrency_ticketi.Schema.{Text, Event}
use high_concurrency_ticketi.Sql.{first_where}
use high_concurrency_ticketi.World.{World, Env}
use high_concurrency_ticketi.World.Ensures.{Ensures}
use high_concurrency_ticketi.Tables.{has_event_id}
use high_concurrency_ticketi.Events

-- The event exists, has not ended and allows as many tickets.
abbrev pub Admitted : Text → List Text → Env → World → Type 0
Admitted event seats env w =
    (e : Event) × (first_where (has_event_id event) w.db.events ≡ some e)
    × (ltb e.end_time (env.moment (suc w.calls)).now ≡ false)
    × (pos (length seats) ≤ℤ e.maximum_tickets_per_booking)

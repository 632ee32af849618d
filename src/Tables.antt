-- ===== src/Tables.antt =====
-- The UPDATE statements that several repositories of internal/store share, on the whole database.
-- The trigger of each table sets `updated_at` on every updated row.
use high_concurrency_ticketi.Prelude.{ℕ, ℤ, ◌+ℤ◌, Bool, ◌&&◌, none, some, List, [], ◌∷◌, ⊤, ◌==◌}
use high_concurrency_ticketi.Schema.{Text, Db, BookingRow, SeatStatus, Seat, Event}
use high_concurrency_ticketi.Sql.{update_where, count_where}
use high_concurrency_ticketi.World.{Moment, Action, Error, Result, ok, pure, ◌>>=◌, exec}

-- One UPDATE of the bookings; the result is the rows affected.
abbrev pub update_bookings :
    (BookingRow → Bool) → (BookingRow → BookingRow) → Moment → Db → Result Error ℕ × Db
update_bookings p f m db = (
  ok (count_where p db.bookings),
  record db {
    bookings = update_where p (λ r. let s = f r in record s { updated_at = m.now }) db.bookings;
  },
)

-- `WHERE event_id = $1 AND seat_label = $2`
abbrev pub is_seat : Text → Text → Seat → Bool
is_seat e label s = (s.event_id == e) && (s.seat_label == label)

abbrev pub update_seat_rows : (Seat → Bool) → (Seat → Seat) → Moment → Db → Result Error ℕ × Db
update_seat_rows p f m db = (
  ok (count_where p db.seats),
  record db {
    seats = update_where p (λ s. let t = f s in record t { updated_at = m.now }) db.seats;
  },
)

abbrev pub free_seat : Seat → Seat
free_seat s = record s { status = SeatStatus.available; held_by_booking = none; held_until = none }

abbrev pub book_seat : Text → Seat → Seat
book_seat b s = record s { status = SeatStatus.booked; held_by_booking = some b; held_until = none }

-- The loop over the labels of one UPDATE each.
unfoldable pub update_each : Text → (Seat → Seat) → List Text → Action Error ⊤
unfolding exec
update_each event f [] = pure tt
update_each event f (label ∷ rest) =
    exec (update_seat_rows (is_seat event label) f) >>= λ _. update_each event f rest

-- `UPDATE events SET reserved = … WHERE id = $1`
abbrev pub update_events : (Event → Bool) → (Event → Event) → Moment → Db → Result Error ℕ × Db
update_events p f m db = (
  ok (count_where p db.events),
  record db {
    events = update_where p (λ e. let d = f e in record d { updated_at = m.now }) db.events;
  },
)

abbrev pub has_event_id : Text → Event → Bool
has_event_id id e = e.id == id

abbrev pub add_reserved : ℤ → Event → Event
add_reserved n e = record e { reserved = e.reserved +ℤ n }

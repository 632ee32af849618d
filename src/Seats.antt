-- ===== src/Seats.antt =====
-- The repository of seats: internal/store/seats/seats.go. The table lets an event have several seats
-- of one label.
pub mod Moves
use high_concurrency_ticketi.Prelude.{
  ℕ, Bool, ◌&&◌, Option, none, some, List, [], ◌∷◌, ◌++◌, map, ⊤, ◌==◌, leb, negate, if◌then◌else◌,
}
use high_concurrency_ticketi.Schema.{Text, Time, Db, Seat, SeatStatus, is_available, is_held}
use high_concurrency_ticketi.Sql.{select_where, count_where, order_by}
use high_concurrency_ticketi.World.{
  Moment, Action, Error, Result, ok, err, pure, ◌>>=◌, exec, query, require_rows, with_tx,
  foreign_key_violation,
}
use high_concurrency_ticketi.Tables.{is_seat, update_seat_rows, free_seat, book_seat, update_each}

abbrev pub new_seat : Moment → Text → Text → Seat
new_seat m event label = record {
  id = m.fresh;
  event_id = event;
  seat_label = label;
  status = SeatStatus.available;
  held_until = none;
  held_by_booking = none;
  created_at = m.now;
  updated_at = m.now;
}

-- INSERT INTO seats, under the foreign key to events.
unfoldable pub insert_seat : Text → Text → Moment → Db → Result Error ⊤ × Db
insert_seat event label m db =
    if count_where (λ e. e.id == event) db.events == 0
    then (err foreign_key_violation, db)
    else (ok tt, record db { seats = db.seats ++ (new_seat m event label ∷ []) })

-- The loop of `CreateSeats`.
unfoldable pub insert_each : Text → List Text → Action Error ⊤
unfolding exec insert_seat
insert_each event [] = pure tt
insert_each event (label ∷ rest) = exec (insert_seat event label) >>= λ _. insert_each event rest

unfoldable pub create_seats : Text → List Text → Action Error ⊤
unfolding with_tx insert_each
create_seats event seat_labels = with_tx (insert_each event seat_labels)

-- `ORDER BY seat_label`
abbrev by_label : Seat → Seat → Bool
by_label x y = leb x.seat_label y.seat_label

unfoldable pub get_seats_by_event : Text → Action Error (List Seat)
unfolding query
get_seats_by_event event =
    query λ m db. ok (order_by by_label (select_where (λ s. s.event_id == event) db.seats))

unfoldable pub update_seat_status :
    Text → Text → SeatStatus → Option Text → Option Time → Action Error ⊤
unfolding exec
update_seat_status event label status booking until = do
  n ← exec (
      update_seat_rows (is_seat event label)
        (λ s. record s { status = status; held_by_booking = booking; held_until = until }))
  require_rows n

unfoldable pub release_seats : Text → List Text → Action Error ⊤
unfolding with_tx update_each
release_seats event seat_labels = with_tx (update_each event free_seat seat_labels)

-- The loop over the labels of one UPDATE each, of the seats with a status that `from` accepts.
unfoldable pub update_each_from :
    Text → (SeatStatus → Bool) → (Seat → Seat) → List Text → Action Error ⊤
unfolding exec
update_each_from event from f [] = pure tt
update_each_from event from f (label ∷ rest) =
    exec (update_seat_rows (λ s. is_seat event label s && from s.status) f) >>= λ _.
    update_each_from event from f rest

abbrev pub hold_seat : Text → Time → Seat → Seat
hold_seat b until s = record s {
  status = SeatStatus.held;
  held_by_booking = some b;
  held_until = some until;
}

unfoldable pub book_seats : Text → List Text → Text → Action Error ⊤
unfolding with_tx update_each_from
book_seats event seat_labels booking =
    with_tx (update_each_from event is_held (book_seat booking) seat_labels)

unfoldable pub hold_seats : Text → List Text → Text → Time → Action Error ⊤
unfolding with_tx update_each_from
hold_seats event seat_labels booking until =
    with_tx (update_each_from event is_available (hold_seat booking until) seat_labels)

unfoldable pub get_available_seats : Text → Action Error (List Text)
unfolding query
get_available_seats event = query λ m db. ok (
    map (λ s. s.seat_label)
      (order_by by_label
        (select_where (λ s. (s.event_id == event) && is_available s.status) db.seats)))

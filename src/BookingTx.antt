-- ===== src/BookingTx.antt =====
-- The transactions on a booking, its seats and its event: `CancelBookingTx` and `FinalizeBooking` of
-- internal/store/bookings/bookings.go.
pub mod Outcome
pub mod Overcount
pub mod Effects
pub mod CancelEffect
pub mod Balance
pub mod Consistent
pub mod Kept
pub mod Fresh
use high_concurrency_ticketi.Prelude.{ℤ, pos, ◌-ℤ◌, Bool, ◌&&◌, ⊤, if◌then◌else◌}
use high_concurrency_ticketi.Money.{Money}
use high_concurrency_ticketi.Schema.{
  Text, Booking, BookingRow, BookingStatus, PaymentStatus, SeatsJson, is_pending, is_booked,
  unmarshal_seats,
}
use high_concurrency_ticketi.Sql.{first_where}
use high_concurrency_ticketi.World.{
  Action, Error, ok, pure, from_result, or_raise, ◌>>=◌, ◌>>◌, exec, query, with_tx, no_rows,
  bad_json,
}
use high_concurrency_ticketi.Tables.{
  update_bookings, update_events, free_seat, book_seat, update_each, has_event_id, add_reserved,
}
use high_concurrency_ticketi.Bookings.{has_id, scan_booking}

-- The part of `CancelBookingTx` under `if wasBooked`.
unfoldable pub release_booked : Booking → Action Error ⊤
unfolding exec update_each
release_booked b = do
  n ←
      exec
        (update_events (has_event_id b.event_id) (λ e. record e { reserved = e.reserved -ℤ pos 1 }))
  labels ← or_raise (unmarshal_seats b.seats) bad_json
  update_each b.event_id free_seat labels

unfoldable pub cancel_body : Text → Action Error (Booking × Bool)
unfolding exec query release_booked
cancel_body id = do
  row ← query (λ m db. ok (first_where (has_id id) db.bookings))
  found ← or_raise row no_rows
  b ← from_result (scan_booking found)
  n ← exec (update_bookings (has_id id) (λ r. record r { status = BookingStatus.cancelled }))
  (if is_booked b.status then release_booked b else pure tt)
  pure (record b { status = BookingStatus.cancelled }, is_booked b.status)

unfoldable pub cancel_booking_tx : Text → Action Error (Booking × Bool)
unfolding cancel_body with_tx
cancel_booking_tx id = with_tx (cancel_body id)

-- SET status = 'booked', seats = $1, amount_paid = $2, payment_status = 'paid'
abbrev pub book_row : SeatsJson → Money → BookingRow → BookingRow
book_row seats amount r = record r {
  status = BookingStatus.booked;
  seats = seats;
  amount_paid = amount;
  payment_status = PaymentStatus.paid;
}

unfoldable pub finalize_body : Text → SeatsJson → Money → Action Error ⊤
unfolding exec query update_each
finalize_body id seats amount = do
  row ← query (λ m db. ok (first_where (has_id id) db.bookings))
  found ← or_raise row no_rows
  n ← exec (update_bookings (λ r. has_id id r && is_pending r.status) (book_row seats amount))
  labels ← or_raise (unmarshal_seats seats) bad_json
  update_each found.event_id (book_seat id) labels
  k ← exec (update_events (has_event_id found.event_id) (add_reserved (pos 1)))
  pure tt

unfoldable pub finalize_booking : Text → SeatsJson → Money → Action Error ⊤
unfolding finalize_body with_tx
finalize_booking id seats amount = with_tx (finalize_body id seats amount)

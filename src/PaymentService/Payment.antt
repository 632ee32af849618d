-- ===== src/PaymentService/Payment.antt =====
-- What `ProcessBookingPayment` has checked and done when it reports success.
use high_concurrency_ticketi.Prelude.{
  inr, inl, Bool-cases, ap, ℕ, ◌≡◌, refl, ◌∙◌, Bool, true, false, ◌&&◌, negate, Option, none, some,
  List, arith,
}
use high_concurrency_ticketi.Money.{Money, Covers, Covers-below, below, is_storable}
use high_concurrency_ticketi.Bookings.{set_payment}
use high_concurrency_ticketi.Schema.{
  Text, Time, Db, Booking, BookingRow, BookingStatus, PaymentStatus, Event, labels, is_pending,
  marshal_seats,
}
use high_concurrency_ticketi.Sql.{first_where, update_where}
use high_concurrency_ticketi.Sql.Laws.{first_where-update_where, first_where_sound}
use high_concurrency_ticketi.World.{
  tick, World, Env, Moment, Error, Result, ok, raise_if, or_raise, exec, require_rows,
  booking_not_found, event_not_found, invalid_amount,
}
use high_concurrency_ticketi.World.Ensures.{
  Ensures, Ensures-bind, Ensures-weaken, Ensures-or_raise, Ensures-query, Ensures-exec,
}
use high_concurrency_ticketi.World.Services.{
  Ensures-require_rows, Ensures-raise_if, Ensures-CommitsOrFails,
}
use high_concurrency_ticketi.Tables.{has_event_id}
use high_concurrency_ticketi.Bookings.{
  get_by_id, has_id, scan_optional, scan_booking, update_payment_status,
}
use high_concurrency_ticketi.BookingTx.{book_row, finalize_booking}
use high_concurrency_ticketi.BookingTx.Balance.{stamp}
use high_concurrency_ticketi.BookingTx.Effects.{Finalized}
use high_concurrency_ticketi.BookingTx.CancelEffect.{Scanned, scan_booking-Scanned}
use high_concurrency_ticketi.BookingTx.Outcome.{finalize_booking-outcome}
use high_concurrency_ticketi.Events
use high_concurrency_ticketi.PaymentService.{
  PaymentRequest, expected_amount, paid_seats, process_booking_payment, settle,
  simulate_payment_processing, status_error,
}

-- The row of a booking that is read back.
pub scan_optional-row :
    (o : Option BookingRow) (b : Booking)
    → scan_optional o ≡ ok (some b)
    → (row : BookingRow) × (o ≡ some row) × Scanned row b
scan_optional-row none b h = cc
scan_optional-row (some row) b h =
    (row, refl, scan_booking-Scanned row b (scanned (scan_booking row) refl h))
  where
    scanned :
        (r : Result Error Booking)
        → scan_booking row ≡ r
        → scan_optional (some row) ≡ ok (some b)
        → scan_booking row ≡ ok b
    scanned r e h = ground (arith, e, h)

-- What `UpdatePaymentStatus` sets.
abbrev pub set_paid : PaymentRequest → BookingRow → BookingRow
set_paid req r = record r { payment_status = PaymentStatus.paid; amount_paid = req.amount }

pub get_by_id-Ensures :
    (id : Text) (env : Env) (w : World)
    → Ensures
        (get_by_id id env w)
        (λ o w'. (scan_optional (first_where (has_id id) w.db.bookings) ≡ ok o) × (w'.db ≡ w.db))
unfolding get_by_id
get_by_id-Ensures id env w =
    Ensures-query (λ m db. scan_optional (first_where (has_id id) db.bookings)) env w _
      (λ o e. (e, refl))

pub get_event-Ensures :
    (id : Text) (env : Env) (w : World)
    → Ensures
        (Events.get id env w)
        (λ o w'. (first_where (has_event_id id) w.db.events ≡ o) × (w'.db ≡ w.db))
unfolding Events.get
get_event-Ensures id env w = Ensures-query read env w _ (λ o e. (cc, refl))
  where
    read : Moment → Db → Result Error (Option Event)
    read m db = ok (first_where (has_event_id id) db.events)

-- The booking after the first write of a payment.
abbrev pub Noted : PaymentRequest → Db → Db → Type 0
Noted req before after =
    (t : Time) × (after.bookings
      ≡ update_where (has_id req.booking_id) (stamp t (set_paid req)) before.bookings)

pub update_payment_status-Noted :
    (req : PaymentRequest) (env : Env) (w : World)
    → Ensures
        (update_payment_status req.booking_id PaymentStatus.paid req.amount env w)
        (λ _ w'. Noted req w.db w'.db × is_storable req.amount ≡ true)
unfolding update_payment_status
update_payment_status-Noted req env w =
    Ensures-bind (exec note) require_rows env w (λ _. Done) (λ _. Done)
      (Ensures-exec note env w (λ _. Done) answered)
      (λ n w' q. Ensures-require_rows n env w' (λ _. Done) q)
  where
    note : Moment → Db → Result Error ℕ × Db
    note = set_payment req.booking_id PaymentStatus.paid req.amount

    Done : World → Type 0
    Done w' = Noted req w.db w'.db × is_storable req.amount ≡ true

    answered :
        (n : ℕ)
        → (note (env.moment w.calls) w.db).0 ≡ ok n
        → Done (record (tick w) { db = (note (env.moment w.calls) w.db).1 })
    answered n e = elim (Bool-cases (is_storable req.amount)) [
      | inl fits ↦ rw fits (((env.moment w.calls).now, refl), refl)
      | inr large ↦ ground (arith, rw large at e)
    ]

-- The booking's row after a payment: booked and paid, with the seats and the amount.
abbrev pub Settled : Text → List Text → Money → BookingRow → Db → Type 0
Settled id seats amount row after =
    (t : Time) × (first_where (has_id id) after.bookings
      ≡ some (stamp t (book_row (labels seats) amount) row))

pub settle-Settled :
    (req : PaymentRequest) (seats : List Text) (row : BookingRow) (env : Env) (w : World)
    → first_where (has_id req.booking_id) w.db.bookings ≡ some row
    → is_pending row.status ≡ true
    → Ensures (settle req seats env w) (λ resp w'.
      (resp ≡ record { success = true; booking_id = some req.booking_id })
      × (is_storable req.amount ≡ true)
      × Settled req.booking_id seats req.amount row w'.db)
unfolding settle
settle-Settled req seats row env w here waits =
    Ensures-bind (update_payment_status id PaymentStatus.paid req.amount) _ env w
      (λ _ w'. Noted req w.db w'.db × is_storable req.amount ≡ true) _
      (update_payment_status-Noted req env w)
      λ _ w1 (q1, fits).
        Ensures-bind (finalize_booking id (marshal_seats seats) req.amount) _ env w1
          (λ _ w'. Finalized id (marshal_seats seats) req.amount w1.db w'.db) _
          (Ensures-CommitsOrFails w1.db _ _
            (finalize_booking-outcome id (marshal_seats seats) req.amount env w1))
          λ _ w2 f. (
            refl,
            fits,
            (
              f.at,
              rw
                  (
                    f.rows,
                    first_where-update_where (has_id id) (λ r. has_id id r && is_pending r.status)
                        (stamp f.at (book_row (marshal_seats seats) req.amount)) w1.db.bookings
                        (λ r. refl),
                    q1.1,
                    first_where-update_where (has_id id) (has_id id) (stamp q1.0 (set_paid req))
                        w.db.bookings (λ r. refl),
                    here,
                    first_where_sound (has_id id) w.db.bookings row here,
                    waits,
                    first_where_sound (has_id id) w.db.bookings row here,
                  )
                  refl,
            ),
          )
  where
    id : Text
    id = req.booking_id

-- When a payment is reported as successful, the booking was there and still pending, its event exists,
-- the amount fits its column and is at least the price of its seats (of one seat, if it has none or
-- they cannot be parsed) unless the amount or the price is NaN, and the booking is now booked and
-- paid with those seats and that amount.
pub process_booking_payment-Settled :
    (seat1 : Text) (req : PaymentRequest) (env : Env) (w : World)
    → Ensures (process_booking_payment seat1 req env w) (λ resp w'.
      (resp ≡ record { success = true; booking_id = some req.booking_id })
      × (row : BookingRow) × (e : Event) × (first_where (has_id req.booking_id) w.db.bookings
          ≡ some row)
      × (is_pending row.status ≡ true)
      × (first_where (has_event_id row.event_id) w.db.events ≡ some e)
      × Covers req.amount (expected_amount e (paid_seats seat1 row.seats))
      × (is_storable req.amount ≡ true)
      × Settled req.booking_id (paid_seats seat1 row.seats) req.amount row w'.db)
unfolding process_booking_payment simulate_payment_processing
process_booking_payment-Settled seat1 req env w =
    Ensures-bind (get_by_id req.booking_id) _ env w
      (λ o w'.
        (scan_optional (first_where (has_id req.booking_id) w.db.bookings) ≡ ok o) × (w'.db ≡ w.db))
      _ (get_by_id-Ensures req.booking_id env w)
      λ o w1 q1.
        Ensures-bind (or_raise o booking_not_found) _ env w1 (λ b w'. (o ≡ some b) × (w' ≡ w1)) _
          (Ensures-or_raise o booking_not_found env w1 _ (λ b e. (e, refl)))
          λ b w2 q2.
            Ensures-bind (raise_if (negate (is_pending b.status)) (status_error b.status)) _ env w2
              (λ _ w'. (negate (is_pending b.status) ≡ false) × (w' ≡ w2)) _
              (Ensures-raise_if (negate (is_pending b.status)) (status_error b.status) env w2 _
                (λ h. (h, refl)))
              λ _ w3 q3.
                Ensures-bind (Events.get b.event_id) _ env w3
                  (λ p w'.
                    (first_where (has_event_id b.event_id) w3.db.events ≡ p) × (w'.db ≡ w3.db))
                  _ (get_event-Ensures b.event_id env w3)
                  λ p w4 q4.
                    Ensures-bind (or_raise p event_not_found) _ env w4
                      (λ e w'. (p ≡ some e) × (w' ≡ w4)) _
                      (Ensures-or_raise p event_not_found env w4 _ (λ e h. (h, refl)))
                      λ e w5 q5.
                        Ensures-bind (raise_if (short e b) invalid_amount) _ env w5
                          (λ _ w'. (short e b ≡ false) × (w' ≡ w5)) _
                          (Ensures-raise_if (short e b) invalid_amount env w5 _ (λ h. (h, refl)))
                          λ _ w6 q6.
                            let (row, here, copied) =
                              scan_optional-row (first_where (has_id req.booking_id) w.db.bookings)
                                b (q1.0 ∙ ap ok q2.0) in
                            let (_, _, event, status, chairs, _, _, _) = copied in
                            let waits : is_pending row.status ≡ true =
                              rw status at (is_waiting b.status q3.0) in
                            let same : w6.db ≡ w.db = rw (q6.1, q5.1, q4.1, q3.1, q2.1) q1.1 in
                            Ensures-weaken (settle req (paid_seats seat1 b.seats) env w6) _ _
                              (settle-Settled req (paid_seats seat1 b.seats) row env w6
                                (rw same here) waits)
                              (λ resp w7 (done, fits, settled). (
                                done,
                                row,
                                e,
                                here,
                                waits,
                                (rw (q3.1, q2.1, q1.1, event) at q4.0) ∙ q5.0,
                                rw chairs at (Covers-below req.amount _ q6.0),
                                fits,
                                rw chairs at settled,
                              ))
  where
    short : Event → Booking → Bool
    short e b = below req.amount (expected_amount e (paid_seats seat1 b.seats))

    is_waiting : (s : BookingStatus) → negate (is_pending s) ≡ false → is_pending s ≡ true
    is_waiting s h = ground arith

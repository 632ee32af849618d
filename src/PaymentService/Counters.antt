-- ===== src/PaymentService/Counters.antt =====
-- Payments and refunds keep the counters of the events.
use high_concurrency_ticketi.Prelude.{
  inr, inl, Bool-cases, ◌≡◌, refl, ◌∙◌, ap, Bool, true, false, negate, some, List, arith,
}
use high_concurrency_ticketi.Money.{below, is_storable, Money}
use high_concurrency_ticketi.Schema.{
  Db, Event, BookingStatus, Text, Booking, BookingRow, PaymentStatus, is_pending, is_paid,
  marshal_seats,
}
use high_concurrency_ticketi.Sql.{first_where}
use high_concurrency_ticketi.Sql.Laws.{first_where-update_where, first_where_sound}
use high_concurrency_ticketi.World.{
  Moment, World, Env, Error, Result, ok, raise_if, or_raise, exec, require_rows, booking_not_found,
  event_not_found, invalid_amount, booking_not_paid,
}
use high_concurrency_ticketi.World.Ensures.{Ensures-weaken, Ensures, Ensures-or_raise}
use high_concurrency_ticketi.World.Services.{Ensures-raise_if}
use high_concurrency_ticketi.World.Keeps.{
  Keeps, bind-kept, bind-keeps, bind-Keeps, exec-Keeps, or_raise-Keeps, raise_if-Keeps,
  require_rows-Keeps,
}
use high_concurrency_ticketi.Tables.{has_event_id}
use high_concurrency_ticketi.Bookings.{
  set_payment, get_by_id, has_id, scan_optional, update_payment_status,
}
use high_concurrency_ticketi.BookingTx.{finalize_booking}
use high_concurrency_ticketi.BookingTx.Balance.{stamp, IsConsistent}
use high_concurrency_ticketi.BookingTx.Consistent.{finalize_booking-IsConsistent}
use high_concurrency_ticketi.BookingTx.Kept.{update_bookings-IsConsistent}
use high_concurrency_ticketi.Reads.{get_booking-Keeps, get_event-Keeps}
use high_concurrency_ticketi.Events
use high_concurrency_ticketi.PaymentService.{
  PaymentRequest, expected_amount, paid_seats, process_booking_payment, settle,
  simulate_payment_processing, status_error, process_cancellation_refund,
  simulate_refund_processing, refund_amount,
}
use high_concurrency_ticketi.PaymentService.Payment.{
  get_event-Ensures, get_by_id-Ensures, scan_optional-row, set_paid, Noted,
  update_payment_status-Noted,
}

abbrev KeepsCounters : {A : Type 0} → (Env → World → Result Error A × World) → Type 0
KeepsCounters m = Keeps IsConsistent m

update_payment_status-Keeps :
    (id : Text) (s : PaymentStatus) (amount : Money)
    → KeepsCounters (update_payment_status id s amount)
unfolding update_payment_status
update_payment_status-Keeps id s amount =
    bind-Keeps IsConsistent (exec (set_payment id s amount)) require_rows
      (exec-Keeps IsConsistent (set_payment id s amount) kept) (require_rows-Keeps IsConsistent)
  where
    set : BookingRow → BookingRow
    set r = record r { payment_status = s; amount_paid = amount }

    kept : (m : Moment) (db : Db) → IsConsistent db → IsConsistent (set_payment id s amount m db).1
    kept m db c = elim (Bool-cases (is_storable amount)) [
      | inl fits ↦
          rw fits (update_bookings-IsConsistent (has_id id) set m db (λ r. (refl, refl, refl)) c)
      | inr large ↦ rw large c
    ]

-- Whatever the amount, a refund leaves the counters.
pub process_cancellation_refund-Keeps : (id : Text) → KeepsCounters (process_cancellation_refund id)
unfolding process_cancellation_refund simulate_refund_processing
process_cancellation_refund-Keeps id =
    bind-Keeps IsConsistent (get_by_id id) _ (get_booking-Keeps id IsConsistent) λ found.
      bind-Keeps IsConsistent (or_raise found booking_not_found) _
        (or_raise-Keeps IsConsistent found booking_not_found)
        λ b.
          bind-Keeps IsConsistent (raise_if (negate (is_paid b.payment_status)) booking_not_paid) _
            (raise_if-Keeps IsConsistent (negate (is_paid b.payment_status)) booking_not_paid)
            λ _.
              bind-Keeps IsConsistent (Events.get b.event_id) _
                (get_event-Keeps b.event_id IsConsistent)
                λ row.
                  bind-Keeps IsConsistent (or_raise row event_not_found) _
                    (or_raise-Keeps IsConsistent row event_not_found)
                    λ e.
                      bind-Keeps IsConsistent
                        (update_payment_status id PaymentStatus.refunded
                          (refund_amount b.amount_paid e.cancellation_fee))
                        _
                        (update_payment_status-Keeps id PaymentStatus.refunded
                          (refund_amount b.amount_paid e.cancellation_fee))
                        λ _ env w c. c

-- The two writes of a payment, for a booking that is still pending.
settle-keeps :
    (req : PaymentRequest) (seats : List Text) (row : BookingRow) (env : Env) (w : World)
    → IsConsistent w.db
    → first_where (has_id req.booking_id) w.db.bookings ≡ some row
    → is_pending row.status ≡ true
    → IsConsistent (settle req seats env w).1.db
unfolding settle
settle-keeps req seats row env w c here waits =
    bind-keeps IsConsistent (update_payment_status id PaymentStatus.paid req.amount) _ env w
      (λ _ w'. Noted req w.db w'.db × is_storable req.amount ≡ true)
      (update_payment_status-Keeps id PaymentStatus.paid req.amount env w c)
      (update_payment_status-Noted req env w)
      λ _ w1 ((t, noted), fits) c1.
        let here1 : first_where (has_id id) w1.db.bookings ≡ some (stamp t (set_paid req) row) =
          rw
            (
              noted,
              first_where-update_where (has_id id) (has_id id) (stamp t (set_paid req))
                  w.db.bookings (λ r. refl),
              here,
              first_where_sound (has_id id) w.db.bookings row here,
            )
            refl in
        bind-kept IsConsistent (finalize_booking id (marshal_seats seats) req.amount) _ env w1
          (finalize_booking-IsConsistent id (marshal_seats seats) req.amount env w1
            (stamp t (set_paid req) row) c1 here1 waits)
          (λ _ w2 c2. c2)
  where
    id : Text
    id = req.booking_id

-- A payment, however it ends.
pub process_booking_payment-Keeps :
    (seat1 : Text) (req : PaymentRequest) → KeepsCounters (process_booking_payment seat1 req)
unfolding process_booking_payment simulate_payment_processing
process_booking_payment-Keeps seat1 req env w c =
    bind-keeps IsConsistent (get_by_id req.booking_id) _ env w
      (λ o w'.
        (scan_optional (first_where (has_id req.booking_id) w.db.bookings) ≡ ok o) × (w'.db ≡ w.db))
      (get_booking-Keeps req.booking_id IsConsistent env w c)
      (get_by_id-Ensures req.booking_id env w)
      λ o w1 q1 c1.
        bind-keeps IsConsistent (or_raise o booking_not_found) _ env w1
          (λ b w'. (o ≡ some b) × (w' ≡ w1))
          (or_raise-Keeps IsConsistent o booking_not_found env w1 c1)
          (Ensures-or_raise o booking_not_found env w1 _ (λ b e. (e, refl)))
          λ b w2 q2 c2.
            bind-keeps IsConsistent
              (raise_if (negate (is_pending b.status)) (status_error b.status)) _ env w2
              (λ _ w'. (negate (is_pending b.status) ≡ false) × (w' ≡ w2)) c2
              (Ensures-raise_if (negate (is_pending b.status)) (status_error b.status) env w2 _
                (λ h. (h, refl)))
              λ _ w3 q3 c3.
                bind-keeps IsConsistent (Events.get b.event_id) _ env w3 (λ p w'. w'.db ≡ w3.db)
                  (get_event-Keeps b.event_id IsConsistent env w3 c3)
                  (get_event_reads b.event_id env w3)
                  λ p w4 q4 c4.
                    bind-keeps IsConsistent (or_raise p event_not_found) _ env w4 (λ e w'. w' ≡ w4)
                      (or_raise-Keeps IsConsistent p event_not_found env w4 c4)
                      (Ensures-or_raise p event_not_found env w4 _ (λ e h. refl))
                      λ e w5 q5 c5.
                        bind-keeps IsConsistent (raise_if (short e b) invalid_amount) _ env w5
                          (λ _ w'. w' ≡ w5) c5
                          (Ensures-raise_if (short e b) invalid_amount env w5 _ (λ h. refl))
                          λ _ w6 q6 c6.
                            let (row, here, copied) =
                              scan_optional-row (first_where (has_id req.booking_id) w.db.bookings)
                                b (q1.0 ∙ ap ok q2.0) in
                            let (_, _, _, status, _, _, _, _) = copied in
                            let waits : is_pending row.status ≡ true =
                              rw status at (is_waiting b.status q3.0) in
                            let same : w6.db ≡ w.db = rw (q6, q5, q4, q3.1, q2.1) q1.1 in
                            settle-keeps req (paid_seats seat1 b.seats) row env w6 c6 (rw same here)
                              waits
  where
    short : Event → Booking → Bool
    short e b = below req.amount (expected_amount e (paid_seats seat1 b.seats))

    is_waiting : (s : BookingStatus) → negate (is_pending s) ≡ false → is_pending s ≡ true
    is_waiting s h = ground arith

    get_event_reads :
        (id : Text) (env : Env) (w : World) → Ensures (Events.get id env w) (λ p w'. w'.db ≡ w.db)
    get_event_reads id env w =
        Ensures-weaken (Events.get id env w)
          (λ p w'. (first_where (has_event_id id) w.db.events ≡ p) × (w'.db ≡ w.db)) _
          (get_event-Ensures id env w) (λ p w' q. q.1)

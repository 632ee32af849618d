-- ===== src/PaymentService.antt =====
-- Payments and refunds: internal/service/payment/payment.go.
pub mod Payment
pub mod Counters
pub mod Refund
pub mod Unpriced
use high_concurrency_ticketi.Prelude.{
  ℤ, pos, ◌*ℤ◌, ◌-ℤ◌, Bool, true, false, Option, none, some, List, [], ◌∷◌, ⊤, ltb_ℤ, negate,
  if◌then◌else◌, length,
}
use high_concurrency_ticketi.Money.{Money, below, less, times, zero_cents}
use high_concurrency_ticketi.Schema.{
  Text, Booking, BookingStatus, PaymentStatus, Event, SeatsJson, is_pending, is_booked, is_paid,
  marshal_seats, unmarshal_seats,
}
use high_concurrency_ticketi.World.{
  Action, Error, pure, ignore, raise_if, or_raise, ◌>>=◌, ◌>>◌, booking_not_found, already_paid,
  wrong_status, event_not_found, invalid_amount, booking_not_paid,
}
use high_concurrency_ticketi.Bookings.{get_by_id, update_payment_status, list_by_event}
use high_concurrency_ticketi.BookingTx.{finalize_booking}
use high_concurrency_ticketi.Events

pub record PaymentRequest : Type 0 where
  pub booking_id : Text
  pub amount : Money
  pub payment_id : Text

pub record PaymentResponse : Type 0 where
  pub success : Bool
  pub booking_id : Option Text

-- The stub of a payment provider: it always succeeds.
unfoldable pub simulate_payment_processing : Text → Money → Bool
simulate_payment_processing payment_id amount = true

unfoldable pub simulate_refund_processing : Text → Money → Bool
simulate_refund_processing booking_id amount = true

-- The fallback is the one seat "seat1", whose label is the parameter.
abbrev or_seat1 : Text → List Text → List Text
or_seat1 seat1 [] = seat1 ∷ []
or_seat1 seat1 (x ∷ xs) = x ∷ xs

-- The seats that are paid for.
abbrev pub paid_seats : Text → SeatsJson → List Text
paid_seats seat1 s = elim (unmarshal_seats s) [ none ↦ seat1 ∷ [] | some xs ↦ or_seat1 seat1 xs ]

abbrev pub status_error : BookingStatus → Error
status_error s = if is_booked s then already_paid else wrong_status

abbrev pub expected_amount : Event → List Text → Money
expected_amount e seats = times e.ticket_price (pos (length seats))

-- The two writes of a payment, each with a transaction of its own.
unfoldable pub settle : PaymentRequest → List Text → Action Error PaymentResponse
unfolding update_payment_status finalize_booking
settle req seats = do
  update_payment_status req.booking_id PaymentStatus.paid req.amount
  finalize_booking req.booking_id (marshal_seats seats) req.amount
  pure (record { success = true; booking_id = some req.booking_id })

abbrev declined : PaymentResponse
declined = record { success = false; booking_id = none }

unfoldable pub process_booking_payment : Text → PaymentRequest → Action Error PaymentResponse
unfolding get_by_id Events.get simulate_payment_processing settle
process_booking_payment seat1 req = do
  found ← get_by_id req.booking_id
  b ← or_raise found booking_not_found
  raise_if (negate (is_pending b.status)) (status_error b.status)
  row ← Events.get b.event_id
  e ← or_raise row event_not_found
  raise_if (below req.amount (expected_amount e (paid_seats seat1 b.seats))) invalid_amount
  (if simulate_payment_processing req.payment_id req.amount
      then settle req (paid_seats seat1 b.seats)
      else pure declined)

-- The amount paid less the fee, and not below zero.
unfoldable pub refund_amount : Money → Money → Money
refund_amount paid fee =
    let rest = less paid fee in if below rest zero_cents then zero_cents else rest

unfoldable pub process_cancellation_refund : Text → Action Error PaymentResponse
unfolding get_by_id Events.get simulate_refund_processing refund_amount update_payment_status
process_cancellation_refund id = do
  found ← get_by_id id
  b ← or_raise found booking_not_found
  raise_if (negate (is_paid b.payment_status)) booking_not_paid
  row ← Events.get b.event_id
  e ← or_raise row event_not_found
  let amount = refund_amount b.amount_paid e.cancellation_fee
  (if simulate_refund_processing b.id amount
      then (update_payment_status id PaymentStatus.refunded amount
          >> pure (record { success = true; booking_id = some id }))
      else pure declined)

-- The loop over the bookings of an event; an error of one refund is logged.
unfoldable pub refund_each : List Booking → Action Error ⊤
unfolding simulate_refund_processing update_payment_status
refund_each [] = pure tt
refund_each (b ∷ bs) =
    (if is_paid b.payment_status
      then (if simulate_refund_processing b.id b.amount_paid
          then ignore (update_payment_status b.id PaymentStatus.refunded b.amount_paid)
          else pure tt)
      else pure tt)
    >>= λ _. refund_each bs

unfoldable pub process_event_cancellation_refund : Text → Action Error ⊤
unfolding list_by_event Events.get refund_each
process_event_cancellation_refund event = do
  bookings ← list_by_event event 1000 0
  row ← Events.get event
  e ← or_raise row event_not_found
  refund_each bookings

-- ===== src/FinalizeService.antt =====
-- The worker: internal/service/worker/finalize.go and internal/worker/finalizer.go.
pub mod Timeout
pub mod Counters
use high_concurrency_ticketi.Prelude.{
  ℤ, pos, ◌*ℤ◌, Bool, true, false, Option, none, some, List, ⊤, ◌==◌, if◌then◌else◌, length,
}
use high_concurrency_ticketi.Money.{Money, times}
use high_concurrency_ticketi.Schema.{Text, Event, is_pending, marshal_seats, empty_text}
use high_concurrency_ticketi.World.{
  Action, Error, Result, ok, err, panic, pure, raise, ignore, or_raise, deref, attempt, ◌>>=◌, ◌>>◌,
  FinalizePayload, booking_timeout, Mail, TimeoutMark, processing, processed, booking_not_found,
  event_not_found, mail_failed, user_not_found,
}
use high_concurrency_ticketi.Outside.{send}
use high_concurrency_ticketi.Bookings.{get_by_id, create_pending}
use high_concurrency_ticketi.BookingTx.{cancel_booking_tx}
use high_concurrency_ticketi.Tokens.{add_booking, get_booking, delete_booking}
use high_concurrency_ticketi.Events
use high_concurrency_ticketi.Users
use high_concurrency_ticketi.Waitlist

abbrev pub amount_due : Event → List Text → Money
amount_due e seats = times e.ticket_price (pos (length seats))

-- An error of the call becomes another one.
abbrev pub or_else_error : {A : Type 0} → Error → Result Error A → Action Error A
or_else_error e (ok a) = pure a
or_else_error e (err _) = raise e
or_else_error e panic = λ env w. (panic, w)

-- `HandleBookingFinalization`, up to the start of the goroutine of `scheduleBookingTimeout`.
unfoldable pub handle_booking_finalization : FinalizePayload → Action Error ⊤
unfolding get_by_id Events.get Users.get_by_id send
handle_booking_finalization p = do
  found ← get_by_id p.booking_id
  b ← or_raise found booking_not_found
  row ← Events.get p.event_id
  e ← or_raise row event_not_found
  user ← (attempt (Users.get_by_id p.user_id) >>= or_else_error user_not_found)
  u ← deref user
  mailed ← attempt (send (Mail.payment_request u.email e.name (amount_due e p.seats) p.booking_id))
  or_else_error mail_failed mailed

-- A booking of the seats of the payload for the user that was promoted; the result is its id.
unfoldable pub promote_from_timeout : FinalizePayload → Text → Event → Action Error Text
unfolding create_pending Users.get_by_id send
promote_from_timeout p user e = do
  b ← create_pending user p.event_id none (marshal_seats p.seats)
  row ← (attempt (Users.get_by_id p.user_id) >>= or_else_error user_not_found)
  u ← deref row
  ignore (send (Mail.waitlist_promotion u.email e.name))
  mailed ← attempt (send (Mail.payment_request u.email e.name (amount_due e p.seats) b.id))
  or_else_error mail_failed mailed
  pure b.id

-- The part after the check that the booking is still pending. The first result of `NextActive` is
-- bound to `userID`. The result is the booking for which a timeout is scheduled, if any.
unfoldable pub expire_booking : FinalizePayload → Action Error (Option (Text × Text))
unfolding cancel_booking_tx Events.get Waitlist.next_active promote_from_timeout
expire_booking p = do
  done ← cancel_booking_tx p.booking_id
  row ← Events.get p.event_id
  e ← or_raise row event_not_found
  next ← Waitlist.next_active p.event_id
  (if next.0 == empty_text
      then pure none
      else (promote_from_timeout p next.0 e >>= λ id. pure (some (id, next.0))))

unfoldable pub handle_booking_timeout : FinalizePayload → Action Error (Option (Text × Text))
unfolding get_by_id expire_booking
handle_booking_timeout p = do
  found ← get_by_id p.booking_id
  b ← or_raise found booking_not_found
  (if is_pending b.status then expire_booking p else pure none)

abbrev timeout_payload : Text → Text → Text → List Text → FinalizePayload
timeout_payload booking event user seats = record {
  type = booking_timeout;
  booking_id = booking;
  event_id = event;
  user_id = user;
  seats = seats;
  idempotency_key = none;
}

-- What the goroutine of `scheduleBookingTimeout` does before it sleeps.
unfoldable pub start_timeout : Text → Text → Action Error ⊤
unfolding add_booking
start_timeout event booking = ignore (add_booking event booking)

abbrev is_processed : Result Error TimeoutMark → Bool
is_processed (ok processed) = true
is_processed (ok processing) = false
is_processed (err _) = false
is_processed panic = false

-- What it does after 15 minutes; every error is logged. The result is the booking that was promoted
-- meanwhile, for which the goroutine of another timeout is started.
unfoldable pub finish_timeout : Text → Text → Text → List Text → Action Error (Option (Text × Text))
unfolding get_booking handle_booking_timeout delete_booking
finish_timeout booking event user seats = do
  mark ← attempt (get_booking event booking)
  next ←
      (if is_processed mark
        then pure none
        else (attempt (handle_booking_timeout (timeout_payload booking event user seats)) >>= λ r.
            elim r [ ok o ↦ pure o | err _ ↦ pure none | panic ↦ (λ env w. (panic, w)) ]))
  ignore (delete_booking event booking)
  pure next

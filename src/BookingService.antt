-- ===== src/BookingService.antt =====
-- Booking and cancelling: internal/service/bookings/bookings.go.
pub mod Steps
pub mod Create
pub mod Checks
pub mod Total
pub mod Cancel
pub mod Counters
pub mod CreateCounters
use high_concurrency_ticketi.Prelude.{
  ℕ, ℤ, pos, Option, none, some, List, ⊤, ◌==◌, ltb, ltb_ℤ, if◌then◌else◌, length,
}
use high_concurrency_ticketi.Money.{Money}
use high_concurrency_ticketi.Schema.{
  Text, Booking, BookingStatus, Event, EventStatus, marshal_seats, empty_text,
}
use high_concurrency_ticketi.World.{
  Action, Error, Result, ok, err, panic, pure, raise, ignore, raise_if, or_raise, deref, attempt,
  time_now, ◌>>=◌, ◌>>◌, FinalizePayload, PayloadType, Mail, event_not_found, event_expired,
  too_many_tickets,
}
use high_concurrency_ticketi.Outside.{Failure, failure, with_code, publish, send, seats_or_none}
use high_concurrency_ticketi.Bookings.{
  create_pending, get_by_idempotency, get_booking_status as stored_status, list_by_user,
}
use high_concurrency_ticketi.BookingTx.{cancel_booking_tx, finalize_booking as finalize_stored}
use high_concurrency_ticketi.Tokens.{reserve, release}
use high_concurrency_ticketi.Events
use high_concurrency_ticketi.Users
use high_concurrency_ticketi.Waitlist

pub record BookingResponse : Type 0 where
  pub booking_id : Text
  pub status : BookingStatus
  pub position : ℕ

-- The early return of an expired event, after its status was written.
unfoldable pub check_expired : Event → Text → Action Failure ⊤
unfolding Events.update_status
check_expired e event = do
  now ← time_now
  (if ltb e.end_time now
      then (ignore (Events.update_status event EventStatus.expired)
          >> raise (failure 400 event_expired))
      else pure tt)

abbrev found_booking : Result Error (Option Booking) → Option Booking
found_booking (ok b) = b
found_booking (err _) = none
found_booking panic = none

-- The booking of the idempotency key; a key that is nil or empty, and a read that fails, find none.
unfoldable pub find_replay : Option Text → Action Failure (Option Booking)
unfolding get_by_idempotency
find_replay none = pure none
find_replay (some key) =
    if key == empty_text
    then pure none
    else (attempt (get_by_idempotency key) >>= λ r. pure (found_booking r))

abbrev pub booking_payload : Booking → Text → Text → List Text → Option Text → FinalizePayload
booking_payload b event user seats key = record {
  type = PayloadType.finalize_booking;
  booking_id = b.id;
  event_id = event;
  user_id = user;
  seats = seats;
  idempotency_key = key;
}

-- `if ok { … }`: the tokens are reserved.
unfoldable pub accept : Text → Text → Option Text → List Text → Action Failure (BookingResponse × ℕ)
unfolding create_pending publish
accept event user key seats = do
  b ← with_code 500 (create_pending user event key (marshal_seats seats))
  ignore (publish (booking_payload b event user seats key))
  pure (record { booking_id = b.id; status = BookingStatus.pending; position = 0 }, 202)

-- The fallback when the tokens are short.
unfoldable pub join_waitlist : Text → Text → Action Failure (BookingResponse × ℕ)
unfolding Waitlist.add
join_waitlist event user = do
  position ← with_code 500 (Waitlist.add event user)
  pure (
    record { booking_id = empty_text; status = BookingStatus.waitlisted; position = position },
    200,
  )

unfoldable pub reserve_or_wait :
    Text → Text → Option Text → List Text → Action Failure (BookingResponse × ℕ)
unfolding reserve accept join_waitlist
reserve_or_wait event user key seats = do
  reserved ← with_code 500 (reserve event (pos (length seats)))
  (if reserved then accept event user key seats else join_waitlist event user)

abbrev replay : Booking → BookingResponse × ℕ
replay b = (record { booking_id = b.id; status = b.status; position = 0 }, 200)

-- `BookingsService.Create`; the result has the status code.
unfoldable pub create : Text → Text → Option Text → List Text → Action Failure (BookingResponse × ℕ)
unfolding Events.get check_expired find_replay reserve_or_wait
create event user key seats = do
  found ← with_code 500 (Events.get event)
  e ← or_raise found (failure 404 event_not_found)
  check_expired e event
  raise_if (ltb_ℤ e.maximum_tickets_per_booking (pos (length seats))) (failure 400 too_many_tickets)
  known ← find_replay key
  elim known [ some b ↦ pure (replay b) | none ↦ reserve_or_wait event user key seats ]

-- The seats that a cancellation gives back.
abbrev pub released_count : List Text → ℕ
released_count seats = if length seats == 0 then 1 else length seats

-- The body of the promotion, once a new booking could be made for the user.
unfoldable pub notify_promoted :
    Booking → Text → Text → Text → List Text → Option Event → Action Failure ⊤
unfolding publish Waitlist.remove Users.get_by_id send
notify_promoted pb event entry user seats found = do
  ignore (publish (booking_payload pb event user seats (some pb.idempotency_key)))
  ignore (Waitlist.remove entry)
  row ← with_code 409 (Users.get_by_id user)
  u ← deref row
  e ← deref found
  ignore (send (Mail.waitlist_promotion u.email e.name))

unfoldable pub promote_user : Text → Text → Text → List Text → Option Event → Action Failure ⊤
unfolding create_pending notify_promoted
promote_user event entry user seats found = do
  made ← attempt (create_pending user event none (marshal_seats seats))
  elim made [
    | ok pb ↦ notify_promoted pb event entry user seats found
    | err _ ↦ pure tt
    | panic ↦ pure tt
  ]

-- `if id, userID, _, err := s.wait.NextActive(…); err == nil && userID != "" { … }`
unfoldable pub promote : Text → List Text → Option Event → Action Failure ⊤
unfolding Waitlist.next_active promote_user
promote event seats found = do
  next ← attempt (Waitlist.next_active event)
  elim next [
    | ok (entry, user, position) ↦
        if user == empty_text then pure tt else promote_user event entry user seats found
    | err _ ↦ pure tt
    | panic ↦ pure tt
  ]

-- The part of `Cancel` under `if wasBooked`.
unfoldable pub after_cancel : Booking → Text → Action Failure ⊤
unfolding release Events.get Users.get_by_id send promote
after_cancel b id = do
  ignore (release b.event_id (pos (released_count (seats_or_none b.seats))))
  found ← with_code 409 (Events.get b.event_id)
  row ← with_code 409 (Users.get_by_id b.user_id)
  u ← deref row
  e ← deref found
  ignore (send (Mail.cancellation u.email e.cancellation_fee id))
  promote b.event_id (seats_or_none b.seats) found

-- `BookingsService.Cancel`; the answer is the id and the status.
unfoldable pub cancel : Text → Action Failure (Text × BookingStatus)
unfolding cancel_booking_tx after_cancel
cancel id = do
  done ← with_code 409 (cancel_booking_tx id)
  (if done.1 then after_cancel done.0 id else pure tt)
  pure (done.0.id, done.0.status)

unfoldable pub get_booking_status : Text → Action Error (Option BookingStatus)
unfolding stored_status
get_booking_status id = stored_status id

unfoldable pub get_available_seats : Text → Action Error (List Text)
unfolding Events.get_available_seats
get_available_seats event = Events.get_available_seats event

unfoldable pub list_user_bookings : Text → ℕ → ℕ → Action Error (List Booking)
unfolding list_by_user
list_user_bookings user limit offset = list_by_user user limit offset

unfoldable pub finalize_booking : Text → List Text → Money → Action Error ⊤
unfolding finalize_stored
finalize_booking id seats amount = finalize_stored id (marshal_seats seats) amount

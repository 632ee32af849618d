-- ===== src/Api/Bookings.antt =====
-- The routes of bookings: internal/api/bookings/bookings.go.
use high_concurrency_ticketi.Prelude.{ℕ, Option, none, some, List, false, ◌==◌, if◌then◌else◌}
use high_concurrency_ticketi.Schema.{Text, Booking, BookingStatus, empty_text}
use high_concurrency_ticketi.World.{Action, Error, Result, ok, err, panic, pure, random, ◌>>=◌}
use high_concurrency_ticketi.Outside.{Failure}
use high_concurrency_ticketi.Auth.{Crypto}
use high_concurrency_ticketi.Api.{
  Reply, failed, done, serve, always, with_body, Param, number_or, guarded,
}
use high_concurrency_ticketi.BookingService
use high_concurrency_ticketi.BookingService.{BookingResponse}

-- Every error of `Create` is answered with 409.
abbrev book_reply : Result Failure (BookingResponse × ℕ) → Reply BookingResponse
book_reply (ok (resp, code)) = done code resp
book_reply (err e) = failed 409
book_reply panic = failed 500

abbrev cancel_reply : Result Failure (Text × BookingStatus) → Reply (Text × BookingStatus)
cancel_reply (ok resp) = done 200 resp
cancel_reply (err e) = failed e.code
cancel_reply panic = failed 500

-- A call of the service, whose errors have codes.
abbrev attempt_coded : {A : Type 0} → Action Failure A → Action Error (Result Failure A)
attempt_coded m env w =
    let (r, w') = m env w in
    elim r [ ok a ↦ (ok (ok a), w') | err e ↦ (ok (err e), w') | panic ↦ (panic, w') ]

-- `book`, with a new idempotency key for each request.
unfoldable pub book : Text → Text → Option (List Text) → Action Error (Reply BookingResponse)
unfolding BookingService.create
book event user body = do
  key ← random
  with_body body λ seats.
      if user == empty_text
      then pure (failed 401)
      else (if event == empty_text
          then pure (failed 400)
          else (attempt_coded (BookingService.create event user (some key) seats) >>= λ r.
              pure (book_reply r)))

abbrev status_reply : Reply (Option BookingStatus) → Reply BookingStatus
status_reply r = elim r.body [
  | none ↦ failed r.code
  | some o ↦ elim o [ none ↦ failed 404 | some s ↦ done r.code s ]
]

unfoldable pub get_status : Text → Action Error (Reply BookingStatus)
unfolding BookingService.get_booking_status serve
get_status id = do
  r ← serve (always 500) 200 (BookingService.get_booking_status id)
  pure (status_reply r)

unfoldable pub list_user_bookings : Text → Param → Param → Action Error (Reply (List Booking))
unfolding BookingService.list_user_bookings serve
list_user_bookings user limit offset =
    serve (always 500) 200
      (BookingService.list_user_bookings user (number_or 50 limit) (number_or 0 offset))

unfoldable pub cancel : Text → Action Error (Reply (Text × BookingStatus))
unfolding BookingService.cancel
cancel id = attempt_coded (BookingService.cancel id) >>= λ r. pure (cancel_reply r)

-- The routes as `Register` wires them.
module _ {Token : Type 0} (c : Crypto Token) (secret : Text) (header : Option Token) where
  unfoldable pub book_route : Text → Option (List Text) → Action Error (Reply BookingResponse)
  unfolding book guarded
  book_route event body = guarded c secret false header (λ uid. book event uid body)

  unfoldable pub status_route : Text → Action Error (Reply BookingStatus)
  unfolding get_status guarded
  status_route id = guarded c secret false header (λ uid. get_status id)

  unfoldable pub cancel_route : Text → Action Error (Reply (Text × BookingStatus))
  unfolding cancel guarded
  cancel_route id = guarded c secret false header (λ uid. cancel id)

  unfoldable pub list_route : Param → Param → Action Error (Reply (List Booking))
  unfolding list_user_bookings guarded
  list_route limit offset =
      guarded c secret false header (λ uid. list_user_bookings uid limit offset)

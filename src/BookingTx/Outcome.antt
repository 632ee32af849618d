-- ===== src/BookingTx/Outcome.antt =====
-- What the two transactions do as a whole, and when they succeed.
use high_concurrency_ticketi.Prelude.{
  ℕ, pos, ◌≡◌, refl, ◌&&◌, Option, some, List, [], ◌∷◌, ⊤, arith, if◌then◌else◌, inl, inr,
  Bool-cases,
}
use high_concurrency_ticketi.Money.{Money}
use high_concurrency_ticketi.Schema.{
  Text, Db, Booking, BookingRow, SeatsJson, Seat, is_booked, is_pending, unmarshal_seats,
}
use high_concurrency_ticketi.Sql.{first_where}
use high_concurrency_ticketi.World.{
  World, Env, Error, Result, ok, exec, query, tick, Moment, or_raise, from_result, no_rows,
  bad_json, pure,
}
use high_concurrency_ticketi.World.Ensures.{CommitsOrFails, with_tx-CommitsOrFails, IsUp}
use high_concurrency_ticketi.World.Returns.{
  Returns, Returns-bind, Returns-exec, Returns-query, Returns-or_raise, Returns-from_result,
  Returns-with_tx, Returns-CommitsOrFails,
}
use high_concurrency_ticketi.Bookings.{has_id, scan_booking}
use high_concurrency_ticketi.Tables.{
  is_seat, update_seat_rows, update_bookings, update_events, free_seat, has_event_id, add_reserved,
  update_each, book_seat,
}
use high_concurrency_ticketi.BookingTx.{
  book_row, release_booked, finalize_body, finalize_booking, cancel_body, cancel_booking_tx,
}
use high_concurrency_ticketi.BookingTx.Balance.{cancel_row, lower_reserved}
use high_concurrency_ticketi.BookingTx.Effects.{Finalized, finalize_body-Finalized}
use high_concurrency_ticketi.BookingTx.CancelEffect.{Returned, cancel_body-Returned}

-- `FinalizeBooking` fails and changes nothing, whichever call fails, or the booking was found and
-- has been booked if it was pending, the seats of the labels are booked by it, every other seat is
-- as it was, and the counter of its event, and of no other one, is one higher.
pub finalize_booking-outcome :
    (id : Text) (seats : SeatsJson) (amount : Money) (env : Env) (w : World)
    → CommitsOrFails w.db
        (finalize_booking id seats amount env w)
        (λ _ after. Finalized id seats amount w.db after)
unfolding finalize_booking
finalize_booking-outcome id seats amount env w =
    with_tx-CommitsOrFails _ (finalize_body id seats amount) env w
      (finalize_body-Finalized id seats amount env (tick w))

-- `CancelBookingTx` fails and changes nothing, whichever call fails, or returns the booking that it
-- found, as cancelled, and whether it was booked; the booking is cancelled, and if it was booked, its
-- seats are free and the counter of its event is one lower; every other seat and counter is as it
-- was.
pub cancel_booking_tx-outcome :
    (id : Text) (env : Env) (w : World)
    → CommitsOrFails w.db (cancel_booking_tx id env w) (Returned id w.db)
unfolding cancel_booking_tx
cancel_booking_tx-outcome id env w =
    with_tx-CommitsOrFails _ (cancel_body id) env w (cancel_body-Returned id env (tick w))

update_each-Returns :
    (e : Text) (f : Seat → Seat) (ls : List Text) (env : Env) (w : World)
    → IsUp env
    → Returns (update_each e f ls env w) (λ _ _. ⊤)
unfolding update_each
update_each-Returns e f [] env w up = tt
update_each-Returns e f (l ∷ ls) env w up =
    Returns-bind (exec (update_seat_rows (is_seat e l) f)) _ env w (λ _ _. ⊤) (λ _ _. ⊤)
      (Returns-exec env up w _ (update_seat_rows (is_seat e l) f) _ refl tt)
      λ _ w' _. update_each-Returns e f ls env w' up

finalize_booking-Returns :
    (id : Text) (seats : SeatsJson) (amount : Money) (env : Env) (w : World) (found : BookingRow)
    (ls : List Text)
    → IsUp env
    → first_where (has_id id) w.db.bookings ≡ some found
    → unmarshal_seats seats ≡ some ls
    → Returns (finalize_booking id seats amount env w) (λ _ _. ⊤)
unfolding finalize_booking finalize_body
finalize_booking-Returns id seats amount env w found ls up here parsed =
    Returns-with_tx _ env up (finalize_body id seats amount) w (
      Returns-bind (query read) _ env (tick w) (λ row _. row ≡ some found) (λ _ _. ⊤)
        (Returns-query env up (tick w) _ read _ refl here)
        λ row w1 q1.
          Returns-bind (or_raise row no_rows) _ env w1 (λ _ _. ⊤) (λ _ _. ⊤)
            (Returns-or_raise env w1 _ row no_rows found q1 tt)
            λ r w2 _.
              Returns-bind (exec mark) _ env w2 (λ _ _. ⊤) (λ _ _. ⊤)
                (Returns-exec env up w2 _ mark _ refl tt)
                λ n w3 _.
                  Returns-bind (or_raise (unmarshal_seats seats) bad_json) _ env w3 (λ _ _. ⊤)
                    (λ _ _. ⊤)
                    (Returns-or_raise env w3 _ (unmarshal_seats seats) bad_json ls parsed tt)
                    λ xs w4 _.
                      Returns-bind (update_each r.event_id (book_seat id) xs) _ env w4 (λ _ _. ⊤)
                        (λ _ _. ⊤) (update_each-Returns r.event_id (book_seat id) xs env w4 up)
                        λ _ w5 _.
                          Returns-bind (exec (count r)) _ env w5 (λ _ _. ⊤) (λ _ _. ⊤)
                            (Returns-exec env up w5 _ (count r) _ refl tt) λ k w6 _. tt)
  where
    read : Moment → Db → Result Error (Option BookingRow)
    read m db = ok (first_where (has_id id) db.bookings)

    mark : Moment → Db → Result Error ℕ × Db
    mark = update_bookings (λ r. has_id id r && is_pending r.status) (book_row seats amount)

    count : BookingRow → Moment → Db → Result Error ℕ × Db
    count r = update_events (has_event_id r.event_id) (add_reserved (pos 1))

-- With every service up, finalizing any booking that is there, pending or not, commits: the booking
-- is booked if it was pending, its seats are booked and its event's counter is one higher.
pub finalize_booking_succeeds :
    (id : Text) (seats : SeatsJson) (amount : Money) (env : Env) (w : World) (found : BookingRow)
    (ls : List Text)
    → IsUp env
    → first_where (has_id id) w.db.bookings ≡ some found
    → unmarshal_seats seats ≡ some ls
    → Returns
        (finalize_booking id seats amount env w)
        (λ _ w'. Finalized id seats amount w.db w'.db)
finalize_booking_succeeds id seats amount env w found ls up here parsed =
    Returns-CommitsOrFails w.db _ (λ _ after. Finalized id seats amount w.db after)
      (finalize_booking-Returns id seats amount env w found ls up here parsed)
      (finalize_booking-outcome id seats amount env w)

release_booked-Returns :
    (b : Booking) (ls : List Text) (env : Env) (w : World)
    → IsUp env
    → unmarshal_seats b.seats ≡ some ls
    → Returns (release_booked b env w) (λ _ _. ⊤)
unfolding release_booked
release_booked-Returns b ls env w up parsed =
    Returns-bind (exec lower) _ env w (λ _ _. ⊤) (λ _ _. ⊤)
      (Returns-exec env up w _ lower _ refl tt)
      λ n w1 _.
        Returns-bind (or_raise (unmarshal_seats b.seats) bad_json) _ env w1 (λ _ _. ⊤) (λ _ _. ⊤)
          (Returns-or_raise env w1 _ (unmarshal_seats b.seats) bad_json ls parsed tt)
          λ xs w2 _. update_each-Returns b.event_id free_seat xs env w2 up
  where
    lower : Moment → Db → Result Error ℕ × Db
    lower = update_events (has_event_id b.event_id) lower_reserved

branch-Returns :
    (b : Booking) (ls : List Text) (env : Env) (w : World)
    → IsUp env
    → (if is_booked b.status then unmarshal_seats b.seats else some []) ≡ some ls
    → Returns ((if is_booked b.status then release_booked b else pure tt) env w) (λ _ _. ⊤)
branch-Returns b ls env w up parsed = elim (Bool-cases (is_booked b.status)) [
  | inl was ↦ rw was (release_booked-Returns b ls env w up (ground arith))
  | inr not ↦ rw not tt
]

cancel_booking_tx-Returns :
    (id : Text) (env : Env) (w : World) (found : BookingRow) (b : Booking) (ls : List Text)
    → IsUp env
    → first_where (has_id id) w.db.bookings ≡ some found
    → scan_booking found ≡ ok b
    → (if is_booked b.status then unmarshal_seats b.seats else some []) ≡ some ls
    → Returns (cancel_booking_tx id env w) (λ _ _. ⊤)
unfolding cancel_booking_tx cancel_body
cancel_booking_tx-Returns id env w found b ls up here scanned parsed =
    Returns-with_tx _ env up (cancel_body id) w (
      Returns-bind (query read) _ env (tick w) (λ row _. row ≡ some found) (λ _ _. ⊤)
        (Returns-query env up (tick w) _ read _ refl here)
        λ row w1 q1.
          Returns-bind (or_raise row no_rows) _ env w1 (λ r _. r ≡ found) (λ _ _. ⊤)
            (Returns-or_raise env w1 _ row no_rows found q1 refl)
            λ r w2 q2.
              Returns-bind (from_result (scan_booking r)) _ env w2 (λ c _. c ≡ b) (λ _ _. ⊤)
                (Returns-from_result env w2 _ (scan_booking r) b (rw q2 scanned) refl)
                λ c w3 q3.
                  Returns-bind (exec (update_bookings (has_id id) cancel_row)) _ env w3 (λ _ _. ⊤)
                    (λ _ _. ⊤)
                    (Returns-exec env up w3 _ (update_bookings (has_id id) cancel_row) _ refl tt)
                    λ n w4 _.
                      Returns-bind (if is_booked c.status then release_booked c else pure tt) _ env
                        w4 (λ _ _. ⊤) (λ _ _. ⊤) (branch-Returns c ls env w4 up (rw q3 parsed))
                        λ _ w5 _. tt)
  where
    read : Moment → Db → Result Error (Option BookingRow)
    read m db = ok (first_where (has_id id) db.bookings)

-- With every service up, cancelling a booking that can be read, and whose seats can be parsed if it
-- was booked, commits: the booking is cancelled, and if it was booked its seats are free and its
-- event's counter is one lower.
pub cancel_booking_tx_succeeds :
    (id : Text) (env : Env) (w : World) (found : BookingRow) (b : Booking) (ls : List Text)
    → IsUp env
    → first_where (has_id id) w.db.bookings ≡ some found
    → scan_booking found ≡ ok b
    → (if is_booked b.status then unmarshal_seats b.seats else some []) ≡ some ls
    → Returns (cancel_booking_tx id env w) (λ p w'. Returned id w.db p w'.db)
cancel_booking_tx_succeeds id env w found b ls up here scanned parsed =
    Returns-CommitsOrFails w.db _ (Returned id w.db)
      (cancel_booking_tx-Returns id env w found b ls up here scanned parsed)
      (cancel_booking_tx-outcome id env w)

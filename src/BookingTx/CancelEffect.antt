-- ===== src/BookingTx/CancelEffect.antt =====
-- What `CancelBookingTx` has done when it returns.
use high_concurrency_ticketi.Prelude.{
  ℕ, ◌≡◌, refl, ◌∙◌, Bool, Option, none, some, List, [], ⊤, arith, if◌then◌else◌, inl, inr,
  Bool-cases,
}
use high_concurrency_ticketi.Schema.{
  Text, Time, Db, Booking, BookingRow, BookingStatus, SeatsJson, SeatStatus, is_booked,
  unmarshal_seats,
}
use high_concurrency_ticketi.Sql.{first_where, update_where}
use high_concurrency_ticketi.World.{
  World, Env, Moment, Error, Result, ok, pure, exec, query, or_raise, from_result, bad_json,
  no_rows,
}
use high_concurrency_ticketi.World.Ensures.{
  Ensures, Ensures-bind, Ensures-weaken, Ensures-exec, Ensures-query, Ensures-or_raise,
  Ensures-from_result,
}
use high_concurrency_ticketi.Bookings.{has_id, scan_booking}
use high_concurrency_ticketi.Tables.{has_event_id, update_bookings, update_events, free_seat}
use high_concurrency_ticketi.BookingTx.{release_booked, cancel_body}
use high_concurrency_ticketi.BookingTx.Balance.{cancelled_rows, restamp, cancel_row, lower_reserved}
use high_concurrency_ticketi.BookingTx.Effects.{Marks, SameRows, update_each-Marks}

-- A booking, its seats and its event's counter after `CancelBookingTx` returned it. The counter and
-- the seats are touched only if it was booked.
pub record Cancelled (id : Text) (before after : Db) : Type 0 where
  pub found : BookingRow
  pub here : first_where (has_id id) before.bookings ≡ some found
  pub at : Time
  pub rows : after.bookings ≡ cancelled_rows id before.bookings at
  pub later : Time
  pub counters : after.events ≡ (
      if is_booked found.status
      then update_where (has_event_id found.event_id) (restamp later lower_reserved) before.events
      else before.events)
  pub freed : List Text
  pub parsed :
      (if is_booked found.status then unmarshal_seats found.seats else some []) ≡ some freed
  pub marked : Marks found.event_id freed (SeatStatus.available, none) before after

abbrev pub Returned : Text → Db → Booking × Bool → Db → Type 0
Returned id before (b, was) after =
    (c : Cancelled id before after) × (was ≡ is_booked c.found.status)
    × (b.id ≡ c.found.id)
    × (b.event_id ≡ c.found.event_id)
    × (b.seats ≡ c.found.seats)
    × (b.status ≡ BookingStatus.cancelled)
    × (some b.user_id ≡ c.found.user_id)

-- What the part under `if wasBooked` has done.
abbrev Released : Text → SeatsJson → Db → Db → Type 0
Released e seats before after =
    (t : Time) × (ls : List Text) × (after.bookings ≡ before.bookings)
    × (after.events ≡ update_where (has_event_id e) (restamp t lower_reserved) before.events)
    × (unmarshal_seats seats ≡ some ls)
    × Marks e ls (SeatStatus.available, none) before after

release_booked-Released :
    (b : Booking) (env : Env) (w : World)
    → Ensures (release_booked b env w) (λ _ w'. Released b.event_id b.seats w.db w'.db)
unfolding release_booked
release_booked-Released b env w =
    Ensures-bind (exec lower) _ env w (λ _ w'. Lowered w') Done
      (Ensures-exec lower env w _ (λ n e. ((env.moment w.calls).now, refl, refl, refl)))
      λ n w1 q1.
        Ensures-bind (or_raise (unmarshal_seats b.seats) bad_json) _ env w1
          (λ ls w'. (unmarshal_seats b.seats ≡ some ls) × Lowered w') Done
          (Ensures-or_raise (unmarshal_seats b.seats) bad_json env w1 _ (λ ls e. (e, q1)))
          λ ls w2 q2.
            Ensures-weaken _ _ Done
              (update_each-Marks b.event_id free_seat _ (λ s. refl) (λ s. (refl, refl)) ls env w2)
              λ _ w3 q3. finish ls w2 w3 q2.0 q2.1 q3
  where
    lower : Moment → Db → Result Error ℕ × Db
    lower = update_events (has_event_id b.event_id) lower_reserved

    Lowered : World → Type 0
    Lowered w' =
        (t : Time) × (w'.db.bookings ≡ w.db.bookings)
        × (w'.db.events
            ≡ update_where (has_event_id b.event_id) (restamp t lower_reserved) w.db.events)
        × (w'.db.seats ≡ w.db.seats)

    Done : ⊤ → World → Type 0
    Done _ w' = Released b.event_id b.seats w.db w'.db

    finish :
        (ls : List Text) (w2 w3 : World)
        → unmarshal_seats b.seats ≡ some ls
        → Lowered w2
        → SameRows w2.db w3.db × Marks b.event_id ls (SeatStatus.available, none) w2.db w3.db
        → Released b.event_id b.seats w.db w3.db
    finish ls w2 w3 parsed (t, rows, events, chairs) (same, marks) =
        (t, ls, same.0 ∙ rows, same.1 ∙ events, parsed, λ e' l. rw chairs at (marks e' l))

-- What a scan copies.
abbrev pub Scanned : BookingRow → Booking → Type 0
Scanned r b =
    (b.id ≡ r.id)
    × (r.user_id ≡ some b.user_id)
    × (b.event_id ≡ r.event_id)
    × (b.status ≡ r.status)
    × (b.seats ≡ r.seats)
    × (r.idempotency_key ≡ some b.idempotency_key)
    × (b.amount_paid ≡ r.amount_paid)
    × (b.payment_status ≡ r.payment_status)

pub scan_booking-Scanned : (r : BookingRow) (b : Booking) → scan_booking r ≡ ok b → Scanned r b
scan_booking-Scanned r b e = ground arith

-- What the branch on `wasBooked` has done, from the booking that was read.
abbrev Branched : Booking → Db → Db → Type 0
Branched b before after =
    (t : Time) × (ls : List Text) × (after.bookings ≡ before.bookings)
    × (after.events ≡ (
        if is_booked b.status
        then update_where (has_event_id b.event_id) (restamp t lower_reserved) before.events
        else before.events))
    × ((if is_booked b.status then unmarshal_seats b.seats else some []) ≡ some ls)
    × Marks b.event_id ls (SeatStatus.available, none) before after

branch-Branched :
    (b : Booking) (env : Env) (w : World)
    → Ensures
        ((if is_booked b.status then release_booked b else pure tt) env w)
        (λ _ w'. Branched b w.db w'.db)
branch-Branched b env w = elim (Bool-cases (is_booked b.status)) [
  | inl was ↦ rw was (release_booked-Released b env w)
  | inr not ↦ rw not (0, [], refl, refl, refl, λ e' l. ground arith)
]

pub cancel_body-Returned :
    (id : Text) (env : Env) (w : World)
    → Ensures (cancel_body id env w) (λ p w'. Returned id w.db p w'.db)
unfolding cancel_body
cancel_body-Returned id env w =
    Ensures-bind (query read) _ env w (λ row w'. (row ≡ read_row) × (w'.db ≡ w.db)) Done
      (Ensures-query read env w _ (λ a e. (cc, refl)))
      λ row w1 q1.
        Ensures-bind (or_raise row no_rows) _ env w1 (λ r w'. (read_row ≡ some r) × (w'.db ≡ w.db))
          Done (Ensures-or_raise row no_rows env w1 _ (λ r e. (cc, q1.1)))
          λ r w2 q2.
            Ensures-bind (from_result (scan_booking r)) _ env w2
              (λ b w'. Scanned r b × (w'.db ≡ w.db)) Done
              (Ensures-from_result (scan_booking r) env w2 _
                (λ b e. (scan_booking-Scanned r b e, q2.1)))
              λ b w3 q3.
                Ensures-bind (exec mark) _ env w3 (λ _. Marked) Done
                  (Ensures-exec mark env w3 _
                    (λ n e. ((env.moment w3.calls).now, rw q3.1, rw q3.1, rw q3.1)))
                  λ n w4 q4.
                    Ensures-bind (if is_booked b.status then release_booked b else pure tt) _ env w4
                      (λ _ w'. Branched b w4.db w'.db) Done (branch-Branched b env w4)
                      λ _ w5 q5. finish r b w4 w5 q2.0 q3.0 q4 q5
  where
    read_row : Option BookingRow
    read_row = first_where (has_id id) w.db.bookings

    read : Moment → Db → Result Error (Option BookingRow)
    read m db = ok (first_where (has_id id) db.bookings)

    mark : Moment → Db → Result Error ℕ × Db
    mark = update_bookings (has_id id) cancel_row

    Done : Booking × Bool → World → Type 0
    Done p w' = Returned id w.db p w'.db

    Marked : World → Type 0
    Marked w' =
        (t : Time) × (w'.db.bookings ≡ cancelled_rows id w.db.bookings t)
        × (w'.db.events ≡ w.db.events)
        × (w'.db.seats ≡ w.db.seats)

    finish :
        (r : BookingRow) (b : Booking) (w4 w5 : World)
        → read_row ≡ some r
        → Scanned r b
        → Marked w4
        → Branched b w4.db w5.db
        → Returned id w.db (record b { status = BookingStatus.cancelled }, is_booked b.status) w5.db
    finish r b w4 w5 here s (t, rows, events, chairs) (u, ls, same, counters, parsed, marks) = (
      record {
        found = r;
        here = here;
        at = t;
        rows = same ∙ rows;
        later = u;
        counters = rw (← s.2, ← s.3, ← events) counters;
        freed = ls;
        parsed = rw (← s.3, ← s.4) parsed;
        marked = λ e' l. rw (← s.2, ← chairs) (marks e' l);
      },
      rw s.3,
      s.0,
      s.2,
      s.4,
      refl,
      rw s.1,
    )

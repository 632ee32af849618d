-- ===== src/BookingTx/Consistent.antt =====
-- Finalizing, cancelling and creating a booking keep the counters of the events.
use high_concurrency_ticketi.Prelude.{
  pos, ◌≡◌, refl, Bool, true, false, some, List, arith, add-one_pos, sub-one_pos, inl, inr,
  Bool-cases,
}
use high_concurrency_ticketi.Money.{Money}
use high_concurrency_ticketi.Schema.{Text, Time, Db, BookingRow, SeatsJson, is_booked, is_pending}
use high_concurrency_ticketi.Sql.{first_where, update_where}
use high_concurrency_ticketi.Sql.Laws.{count_where-update_where_same, All-update_where, All-map}
use high_concurrency_ticketi.World.{World, Env, tick}
use high_concurrency_ticketi.World.Ensures.{Ensures-weaken, with_tx-keeps}
use high_concurrency_ticketi.Bookings.{has_id}
use high_concurrency_ticketi.Tables.{has_event_id, add_reserved}
use high_concurrency_ticketi.BookingTx.{
  finalize_body, finalize_booking, cancel_body, cancel_booking_tx,
}
use high_concurrency_ticketi.BookingTx.Effects.{Finalized, finalize_body-Finalized}
use high_concurrency_ticketi.BookingTx.CancelEffect.{Cancelled, cancel_body-Returned}
use high_concurrency_ticketi.BookingTx.Balance.{
  restamp, lower_reserved, booked_count, HasUniqueIds, IsBalanced, IsConsistent, booked_rows,
  cancelled_rows, booked_count-booked_rows, booked_count-cancelled_rows,
}

module _ (id : Text) (found : BookingRow) (db : Db) (t u : Time) where
  -- One more booked booking, and the counter of its event one higher.
  IsBalanced-book :
      (seats : SeatsJson) (amount : Money)
      → IsConsistent db
      → first_where (has_id id) db.bookings ≡ some found
      → is_pending found.status ≡ true
      → IsBalanced
          (booked_rows id db.bookings t seats amount)
          (update_where (has_event_id found.event_id) (restamp u (add_reserved (pos 1))) db.events)
  IsBalanced-book seats amount c here waits =
      All-update_where (λ ev. ev.reserved ≡ pos (booked_count ev.id db.bookings))
        (λ ev. ev.reserved ≡ pos (booked_count ev.id (booked_rows id db.bookings t seats amount)))
        (has_event_id found.event_id) (restamp u (add_reserved (pos 1))) db.events
        (λ ev h. ground (
          arith,
          booked_count-booked_rows id found db.bookings t seats amount ev.id (c.unique id) here
              waits,
          add-one_pos (booked_count ev.id db.bookings),
        ))
        c.balanced

  -- One booked booking fewer, and the counter of its event one lower.
  IsBalanced-cancel :
      IsConsistent db
      → first_where (has_id id) db.bookings ≡ some found
      → is_booked found.status ≡ true
      → IsBalanced
          (cancelled_rows id db.bookings t)
          (update_where (has_event_id found.event_id) (restamp u lower_reserved) db.events)
  IsBalanced-cancel c here was =
      All-update_where (λ ev. ev.reserved ≡ pos (booked_count ev.id db.bookings))
        (λ ev. ev.reserved ≡ pos (booked_count ev.id (cancelled_rows id db.bookings t)))
        (has_event_id found.event_id) (restamp u lower_reserved) db.events
        (λ ev h. ground (
          arith,
          booked_count-cancelled_rows id found db.bookings t ev.id (c.unique id) here,
          sub-one_pos (booked_count ev.id (cancelled_rows id db.bookings t)),
        ))
        c.balanced

  -- A booking that was not booked, cancelled.
  IsBalanced-drop :
      IsConsistent db
      → first_where (has_id id) db.bookings ≡ some found
      → is_booked found.status ≡ false
      → IsBalanced (cancelled_rows id db.bookings t) db.events
  IsBalanced-drop c here was =
      All-map (λ ev. ev.reserved ≡ pos (booked_count ev.id db.bookings))
        (λ ev. ev.reserved ≡ pos (booked_count ev.id (cancelled_rows id db.bookings t))) db.events
        (λ ev h.
          ground
            (arith, booked_count-cancelled_rows id found db.bookings t ev.id (c.unique id) here))
        c.balanced

unique_update :
    (p : BookingRow → Bool) (f : BookingRow → BookingRow) (rows : List BookingRow)
    → ((r : BookingRow) → (f r).id ≡ r.id)
    → HasUniqueIds rows
    → HasUniqueIds (update_where p f rows)
unique_update p f rows h u id =
    rw (count_where-update_where_same (has_id id) p f rows (λ r. rw (h r))) (u id)

Finalized-IsConsistent :
    (id : Text) (seats : SeatsJson) (amount : Money) (before after : Db)
    → IsConsistent before
    → (f : Finalized id seats amount before after) → is_pending f.found.status ≡ true
    → IsConsistent after
Finalized-IsConsistent id seats amount before after c f waits = record {
  unique = rw f.rows (unique_update _ _ before.bookings (λ r. refl) c.unique);
  balanced =
      rw (f.rows, f.counters)
        (IsBalanced-book id f.found before f.at f.later seats amount c f.here waits);
}

pub Cancelled-IsConsistent :
    (id : Text) (before after : Db)
    → IsConsistent before
    → Cancelled id before after
    → IsConsistent after
Cancelled-IsConsistent id before after c k = record {
  unique = rw k.rows (unique_update _ _ before.bookings (λ r. refl) c.unique);
  balanced = rw k.rows (elim (Bool-cases (is_booked k.found.status)) [
    | inl was ↦ rw (k.counters, was) (IsBalanced-cancel id k.found before k.at k.later c k.here was)
    | inr not ↦ rw (k.counters, not) (IsBalanced-drop id k.found before k.at k.later c k.here not)
  ]);
}

-- Finalizing a booking that is still pending keeps the ids unique and every event's counter equal
-- to the number of its booked bookings, whichever calls fail.
pub finalize_booking-IsConsistent :
    (id : Text) (seats : SeatsJson) (amount : Money) (env : Env) (w : World) (found : BookingRow)
    → IsConsistent w.db
    → first_where (has_id id) w.db.bookings ≡ some found
    → is_pending found.status ≡ true
    → IsConsistent (finalize_booking id seats amount env w).1.db
unfolding finalize_booking
finalize_booking-IsConsistent id seats amount env w found c here waits =
    with_tx-keeps IsConsistent (finalize_body id seats amount) env w c (
      Ensures-weaken _ _ _ (finalize_body-Finalized id seats amount env (tick w)) (λ _ w' f.
        Finalized-IsConsistent id seats amount w.db w'.db c f
          (ground (arith, here, f.here, waits))))

-- Cancelling any booking keeps the ids unique and every event's counter equal to the number of its
-- booked bookings, whatever the status of the booking and whichever calls fail.
pub cancel_booking_tx-IsConsistent :
    (id : Text) (env : Env) (w : World)
    → IsConsistent w.db
    → IsConsistent (cancel_booking_tx id env w).1.db
unfolding cancel_booking_tx
cancel_booking_tx-IsConsistent id env w c = with_tx-keeps IsConsistent (cancel_body id) env w c (
    Ensures-weaken _ _ _ (cancel_body-Returned id env (tick w))
      (λ p w' r. Cancelled-IsConsistent id w.db w'.db c r.0))

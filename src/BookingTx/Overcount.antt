-- ===== src/BookingTx/Overcount.antt =====
-- `FinalizeBooking` does not look at the rows that its UPDATE of the booking affected.
use high_concurrency_ticketi.Prelude.{
  ℕ, pos, ◌+ℤ◌, ◌≡◌, refl, false, ◌&&◌, some, List, arith, add-one_pos,
}
use high_concurrency_ticketi.Money.{Money}
use high_concurrency_ticketi.Schema.{
  Text, Db, BookingRow, Event, SeatsJson, is_pending, unmarshal_seats,
}
use high_concurrency_ticketi.Sql.{first_where}
use high_concurrency_ticketi.Sql.Laws.{
  count_where-update_one, first_where-update_where, first_where_sound, All-first_where,
}
use high_concurrency_ticketi.World.{World, Env, ok}
use high_concurrency_ticketi.World.Ensures.{IsUp}
use high_concurrency_ticketi.World.Returns.{Returns-ok}
use high_concurrency_ticketi.Bookings.{has_id}
use high_concurrency_ticketi.Tables.{has_event_id, add_reserved}
use high_concurrency_ticketi.BookingTx.{book_row, finalize_booking}
use high_concurrency_ticketi.BookingTx.Balance.{
  booked_of, booked_count, IsConsistent, HasUniqueIds, booked_rows, stamp, restamp,
}
use high_concurrency_ticketi.BookingTx.Effects.{Finalized}
use high_concurrency_ticketi.BookingTx.Outcome.{finalize_booking_succeeds}

-- The UPDATE matches no row, so no booking is booked.
booked_count_same :
    (id : Text) (seats : SeatsJson) (amount : Money) (rows : List BookingRow) (found : BookingRow)
    (t : ℕ) (e : Text)
    → HasUniqueIds rows
    → first_where (has_id id) rows ≡ some found
    → is_pending found.status ≡ false
    → booked_count e (booked_rows id rows t seats amount) ≡ booked_count e rows
booked_count_same id seats amount rows found t e unique here done = ground (
  arith,
  first_where_sound (has_id id) rows found here,
  count_where-update_one (has_id id) (λ r. has_id id r && is_pending r.status) (booked_of e)
      (stamp t (book_row seats amount)) found rows within (unique id) here,
)
  where
    within : (r : BookingRow) → has_id id r ≡ false → has_id id r && is_pending r.status ≡ false
    within r h = ground arith

Finalized-miscounts :
    (id : Text) (seats : SeatsJson) (amount : Money) (before after : Db) (ev : Event)
    → IsConsistent before
    → (f : Finalized id seats amount before after) → is_pending f.found.status ≡ false
    → first_where (has_event_id f.found.event_id) before.events ≡ some ev
    → ¬ IsConsistent after
Finalized-miscounts id seats amount before after ev c f done there c' = ground (
  arith,
  booked_count_same id seats amount before.bookings f.found f.at ev.id c.unique f.here done,
  add-one_pos (booked_count ev.id before.bookings),
  All-first_where (λ e. e.reserved ≡ pos (booked_count e.id before.bookings))
      (has_event_id f.found.event_id) before.events ev c.balanced there,
  counted,
)
  where
    raised : Event
    raised = restamp f.later (add_reserved (pos 1)) ev

    there_after : first_where (has_event_id f.found.event_id) after.events ≡ some raised
    there_after =
        rw
          (
            f.counters,
            first_where-update_where (has_event_id f.found.event_id) (has_event_id f.found.event_id)
                (restamp f.later (add_reserved (pos 1))) before.events (λ r. refl),
            there,
          )
          (ground (arith, first_where_sound (has_event_id f.found.event_id) before.events ev there))

    counted :
        ev.reserved +ℤ pos 1
        ≡ pos (booked_count ev.id (booked_rows id before.bookings f.at seats amount))
    counted = rw f.rows at (
        All-first_where (λ e. e.reserved ≡ pos (booked_count e.id after.bookings))
          (has_event_id f.found.event_id) after.events raised c'.balanced there_after)

-- Whenever `FinalizeBooking` reaches a booking that is no longer pending, as after a cancellation
-- or a timeout between payment and finalization, it still raises the counter of the event: with
-- every service up, a database whose counters were right has a wrong one afterwards.
pub finalize_booking_miscounts :
    (id : Text) (seats : SeatsJson) (amount : Money) (env : Env) (w : World) (found : BookingRow)
    (ls : List Text) (ev : Event)
    → IsUp env
    → IsConsistent w.db
    → first_where (has_id id) w.db.bookings ≡ some found
    → is_pending found.status ≡ false
    → first_where (has_event_id found.event_id) w.db.events ≡ some ev
    → unmarshal_seats seats ≡ some ls
    → ((finalize_booking id seats amount env w).0 ≡ ok tt)
      × ¬ IsConsistent (finalize_booking id seats amount env w).1.db
finalize_booking_miscounts id seats amount env w found ls ev up c here done there parsed =
    let (_, returned, f) =
      Returns-ok _ _ (finalize_booking_succeeds id seats amount env w found ls up here parsed) in
    let same : f.found ≡ found = ground (arith, f.here, here) in
    (returned, Finalized-miscounts id seats amount w.db _ ev c f (rw same done) (rw same there))

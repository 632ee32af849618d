-- ===== src/BookingTx/Balance.antt =====
-- The counter `events.reserved` counts the booked bookings of the event.
use high_concurrency_ticketi.Prelude.{
  ℕ, ◌+◌, ◌≤◌, pos, ◌-ℤ◌, ◌≡◌, Bool, true, false, ◌&&◌, some, List, arith, ◌==◌, All,
}
use high_concurrency_ticketi.Money.{Money}
use high_concurrency_ticketi.Schema.{
  Text, Time, Db, BookingRow, Event, BookingStatus, SeatsJson, is_booked, is_pending,
}
use high_concurrency_ticketi.Sql.{first_where, update_where, count_where}
use high_concurrency_ticketi.Sql.Laws.{indicator, count_where-update_one, first_where_sound}
use high_concurrency_ticketi.Bookings.{has_id, has_event}
use high_concurrency_ticketi.BookingTx.{book_row}

abbrev pub booked_of : Text → BookingRow → Bool
booked_of e r = has_event e r && is_booked r.status

-- How many bookings of an event are booked.
abbrev pub booked_count : Text → List BookingRow → ℕ
booked_count e rows = count_where (booked_of e) rows

-- The primary key of the bookings, over all partitions.
abbrev pub HasUniqueIds : List BookingRow → Type 0
HasUniqueIds rows = (id : Text) → count_where (has_id id) rows ≤ 1

-- Each event's counter is the number of its booked bookings.
abbrev pub IsBalanced : List BookingRow → List Event → Type 0
IsBalanced rows events = All (λ ev. ev.reserved ≡ pos (booked_count ev.id rows)) events

pub record IsConsistent (db : Db) : Type 0 where
  pub unique : HasUniqueIds db.bookings
  pub balanced : IsBalanced db.bookings db.events

-- What the trigger adds to an update of the bookings.
abbrev pub stamp : Time → (BookingRow → BookingRow) → BookingRow → BookingRow
stamp t f r = let s = f r in record s { updated_at = t }

abbrev pub restamp : Time → (Event → Event) → Event → Event
restamp t f e = let d = f e in record d { updated_at = t }

abbrev pub cancel_row : BookingRow → BookingRow
cancel_row r = record r { status = BookingStatus.cancelled }

abbrev pub lower_reserved : Event → Event
lower_reserved e = record e { reserved = e.reserved -ℤ pos 1 }

module _ (id : Text) (rows : List BookingRow) (t : Time) where
  abbrev pub booked_rows : SeatsJson → Money → List BookingRow
  booked_rows seats amount =
      update_where (λ r. has_id id r && is_pending r.status) (stamp t (book_row seats amount)) rows

  abbrev pub cancelled_rows : List BookingRow
  cancelled_rows = update_where (has_id id) (stamp t cancel_row) rows

module _ (id : Text) (found : BookingRow) (rows : List BookingRow) (t : Time) where
  pub booked_count-booked_rows :
      (seats : SeatsJson) (amount : Money) (e : Text)
      → count_where (has_id id) rows ≤ 1
      → first_where (has_id id) rows ≡ some found
      → is_pending found.status ≡ true
      → booked_count e (booked_rows id rows t seats amount)
        ≡ booked_count e rows + indicator (found.event_id == e)
  booked_count-booked_rows seats amount e one here waits = ground (
    arith,
    first_where_sound (has_id id) rows found here,
    count_where-update_one (has_id id) (λ r. has_id id r && is_pending r.status) (booked_of e)
        (stamp t (book_row seats amount)) found rows within one here,
  )
    where
      within : (r : BookingRow) → has_id id r ≡ false → has_id id r && is_pending r.status ≡ false
      within r h = ground arith

  pub booked_count-cancelled_rows :
      (e : Text)
      → count_where (has_id id) rows ≤ 1
      → first_where (has_id id) rows ≡ some found
      → booked_count e (cancelled_rows id rows t) + indicator (booked_of e found)
        ≡ booked_count e rows
  booked_count-cancelled_rows e one here = ground (
    arith,
    first_where_sound (has_id id) rows found here,
    count_where-update_one (has_id id) (has_id id) (booked_of e) (stamp t cancel_row) found rows
        (λ r h. h) one here,
  )

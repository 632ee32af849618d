-- ===== src/AdminStore/Reports.antt =====
-- The report of the administrator, and the update whose columns come from the request:
-- `GetSummary` and `UpdateEvent` of internal/store/admin/admin.go.
use high_concurrency_ticketi.Prelude.{
  negate, ℕ, ℤ, pos, ◌+ℤ◌, Bool, true, false, ◌&&◌, ◌||◌, Option, none, some, List, [], ◌∷◌, map, ⊤,
  ◌==◌, leb, ltb, leb_ℤ, ltb_ℤ, if◌then◌else◌,
}
use high_concurrency_ticketi.Money.{Money, is_storable}
use high_concurrency_ticketi.Schema.{
  empty_text, Text, Time, Db, Event, EventStatus, BookingRow, is_booked,
}
use high_concurrency_ticketi.Sql.{select_where, count_where, order_by, page}
use high_concurrency_ticketi.World.{
  Action, Error, ok, err, pure, ◌>>=◌, exec, query, require_rows, bad_statement,
}
use high_concurrency_ticketi.Bookings.{has_event}
use high_concurrency_ticketi.Tables.{update_events, has_event_id}

pub record PopularEvent : Type 0 where
  pub id : Text
  pub name : Text
  pub bookings : ℕ
  pub likes : ℤ

-- `capacity_utilization` is 100 times the quotient of the pair, and 0 for `none`.
pub record AnalyticsSummary : Type 0 where
  pub total_bookings : ℕ
  pub total_events : ℕ
  pub total_users : ℕ
  pub capacity_utilization : Option (ℤ × ℤ)
  pub most_popular_events : List PopularEvent

-- `created_at BETWEEN $1 AND $2`
abbrev pub between : Time → Time → Time → Bool
between from to t = leb from t && leb t to

abbrev pub sum_of : (Event → ℤ) → List Event → ℤ
sum_of f [] = pos 0
sum_of f (e ∷ es) = f e +ℤ sum_of f es

-- The rows of `events` that were created between the times.
abbrev pub events_between : Time → Time → Db → List Event
events_between from to db = select_where (λ e. between from to e.created_at) db.events

abbrev pub utilization : List Event → Option (ℤ × ℤ)
utilization es =
    if ltb_ℤ (pos 0) (sum_of (λ e. e.capacity) es)
    then some (sum_of (λ e. e.reserved) es, sum_of (λ e. e.capacity) es)
    else none

-- The booked bookings of an event that were created between the times.
abbrev pub is_counted : Time → Time → BookingRow → Bool
is_counted from to b = between from to b.created_at && is_booked b.status

abbrev pub popular : Time → Time → Db → Event → PopularEvent
popular from to db e = record {
  id = e.id;
  name = e.name;
  bookings = count_where (λ b. has_event e.id b && is_counted from to b) db.bookings;
  likes = e.likes;
}

-- `ORDER BY bookings DESC, e.likes DESC`
abbrev pub more_popular : PopularEvent → PopularEvent → Bool
more_popular x y =
    ltb y.bookings x.bookings || ((x.bookings == y.bookings) && leb_ℤ y.likes x.likes)

unfoldable pub get_summary : Time → Time → Action Error AnalyticsSummary
unfolding query
get_summary from to = do
  bookings ← query (λ m db. ok (count_where (is_counted from to) db.bookings))
  events ← query (λ m db. ok (count_where (λ e. between from to e.created_at) db.events))
  users ← query (λ m db. ok (count_where (λ u. between from to u.created_at) db.users))
  used ← query (λ m db. ok (utilization (events_between from to db)))
  best ← query (λ m db.
      ok (page 10 0 (order_by more_popular (map (popular from to db) (events_between from to db)))))
  pure (record {
    total_bookings = bookings;
    total_events = events;
    total_users = users;
    capacity_utilization = used;
    most_popular_events = best;
  })

-- One entry of the map of columns: a column of `events` with its new value, or a column or value that
-- Postgres refuses.
pub data FieldUpdate : Type 0 where
  name venue category metadata : Text → FieldUpdate
  start_time end_time : Time → FieldUpdate
  capacity reserved likes maximum_tickets : ℤ → FieldUpdate
  ticket_price cancellation_fee : Money → FieldUpdate
  status : EventStatus → FieldUpdate
  refused : FieldUpdate

abbrev pub set_field : FieldUpdate → Event → Event
set_field (name v) e = record e { name = v }
set_field (venue v) e = record e { venue = v }
set_field (category v) e = record e { category = v }
set_field (metadata v) e = record e { metadata = v }
set_field (start_time v) e = record e { start_time = v }
set_field (end_time v) e = record e { end_time = v }
set_field (capacity v) e = record e { capacity = v }
set_field (reserved v) e = record e { reserved = v }
set_field (likes v) e = record e { likes = v }
set_field (ticket_price v) e = record e { ticket_price = v }
set_field (cancellation_fee v) e = record e { cancellation_fee = v }
set_field (maximum_tickets v) e = record e { maximum_tickets_per_booking = v }
set_field (status v) e = record e { status = v }
set_field refused e = e

abbrev pub set_fields : List FieldUpdate → Event → Event
set_fields [] e = e
set_fields (u ∷ us) e = set_fields us (set_field u e)

-- `metadata` is NOT NULL, and the amounts must fit their columns.
abbrev pub is_refused : FieldUpdate → Bool
is_refused refused = true
is_refused (metadata v) = v == empty_text
is_refused (ticket_price v) = negate (is_storable v)
is_refused (cancellation_fee v) = negate (is_storable v)
is_refused _ = false

-- With no column the statement is `SET , updated_at = …`, which does not parse.
abbrev pub is_valid_update : List FieldUpdate → Bool
is_valid_update [] = false
is_valid_update (u ∷ us) = count_where is_refused (u ∷ us) == 0

unfoldable pub update_event : Text → List FieldUpdate → Action Error ⊤
unfolding exec
update_event id updates = do
  n ← exec (λ m db.
      if is_valid_update updates
      then update_events (has_event_id id) (set_fields updates) m db
      else (err bad_statement, db))
  require_rows n

-- ===== src/Events.antt =====
-- The repository of events: internal/store/events/events.go.
pub mod Likes
use high_concurrency_ticketi.Prelude.{
  ℕ, suc, ℤ, pos, ◌+ℤ◌, ◌-ℤ◌, Bool, true, false, ◌&&◌, ◌||◌, Option, none, some, List, [], ◌∷◌,
  ◌++◌, map, ⊤, ◌==◌, leb, ltb, leb_ℤ, ltb_ℤ, negate, if◌then◌else◌,
}
use high_concurrency_ticketi.Money.{is_storable}
use high_concurrency_ticketi.Schema.{
  Text, Time, Db, Event, EventLike, EventStatus, Seat, is_expired, is_available,
}
use high_concurrency_ticketi.Sql.{
  select_where, first_where, delete_where, count_where, order_by, page,
}
use high_concurrency_ticketi.World.{
  numeric_overflow, not_null_violation, Moment, Action, Error, Result, ok, err, pure, ◌>>=◌, ◌>>◌,
  exec, query, require_rows, with_tx, foreign_key_violation,
}
use high_concurrency_ticketi.Tables.{update_events, has_event_id}

-- The row of the INSERT: the columns of the argument, with the defaults of the table for the rest.
abbrev pub inserted_event : Moment → Event → Event
inserted_event m e = record e {
  id = m.fresh;
  reserved = pos 0;
  likes = pos 0;
  created_at = m.now;
  updated_at = m.now;
}

-- Both amounts fit their columns.
abbrev pub has_prices : Event → Bool
has_prices e = is_storable e.ticket_price && is_storable e.cancellation_fee

-- INSERT INTO events. `metadata` is NOT NULL, and the nil slice is NULL. The returned struct is the
-- argument with the columns of RETURNING.
unfoldable pub insert_event : Event → Moment → Db → Result Error Event × Db
insert_event e m db =
    if e.metadata == 0
    then (err not_null_violation, db)
    else (if has_prices e
        then (
          ok (record e { id = m.fresh; created_at = m.now; updated_at = m.now }),
          record db { events = db.events ++ (inserted_event m e ∷ []) },
        )
        else (err numeric_overflow, db))

unfoldable pub create : Event → Action Error Event
unfolding with_tx exec insert_event
create e = with_tx (exec (insert_event e))

unfoldable pub get : Text → Action Error (Option Event)
unfolding query
get id = query λ m db. ok (first_where (has_event_id id) db.events)

-- The optional conditions that `List` appends to its query; `like` is ILIKE of Postgres.
abbrev matches : (Text → Text → Bool) → Text → Option Time → Option Time → Event → Bool
matches like q from to e =
    (if q == 0 then true else like e.name q)
    && (elim from [ none ↦ true | some t ↦ leb t e.start_time ])
    && (elim to [ none ↦ true | some t ↦ leb e.start_time t ])

-- `ORDER BY start_time ASC`
abbrev soonest_first : Event → Event → Bool
soonest_first x y = leb x.start_time y.start_time

-- `ORDER BY likes DESC, start_time ASC`
abbrev popular_first : Event → Event → Bool
popular_first x y = ltb_ℤ y.likes x.likes || (leb_ℤ y.likes x.likes && soonest_first x y)

abbrev is_upcoming : EventStatus → Bool
is_upcoming EventStatus.upcoming = true
is_upcoming _ = false

unfoldable pub list :
    (Text → Text → Bool) → ℕ → ℕ → Text → Option Time → Option Time → Action Error (List Event)
unfolding query
list like limit offset q from to = query λ m db.
    ok
      (page limit offset (order_by soonest_first (select_where (matches like q from to) db.events)))

unfoldable pub list_all : ℕ → ℕ → Action Error (List Event)
unfolding query
list_all limit offset = query λ m db. ok (
    page limit offset (order_by soonest_first (select_where (λ e. ltb m.now e.end_time) db.events)))

unfoldable pub list_upcoming : ℕ → ℕ → Action Error (List Event)
unfolding query
list_upcoming limit offset = query λ m db. ok (
    page limit offset (
      order_by soonest_first
        (select_where (λ e. ltb m.now e.start_time && is_upcoming e.status) db.events)))

unfoldable pub list_popular : ℕ → ℕ → Action Error (List Event)
unfolding query
list_popular limit offset = query λ m db. ok (
    page limit offset (order_by popular_first (select_where (λ e. is_upcoming e.status) db.events)))

-- The columns that `Update` sets.
abbrev overwrite : Event → Event → Event
overwrite new e = record e {
  name = new.name;
  venue = new.venue;
  start_time = new.start_time;
  end_time = new.end_time;
  category = new.category;
  capacity = new.capacity;
  metadata = new.metadata;
  status = new.status;
  ticket_price = new.ticket_price;
  cancellation_fee = new.cancellation_fee;
  maximum_tickets_per_booking = new.maximum_tickets_per_booking;
}

-- UPDATE events; `metadata` is checked in the row that is updated.
abbrev update_row : Event → Moment → Db → Result Error ℕ × Db
update_row new m db =
    if negate (has_prices new)
    then (err numeric_overflow, db)
    else (if (new.metadata == 0) && negate (count_where (has_event_id new.id) db.events == 0)
        then (err not_null_violation, db)
        else update_events (has_event_id new.id) (overwrite new) m db)

unfoldable pub update : Event → Action Error ⊤
unfolding exec
update new = do n ← exec (update_row new); require_rows n

unfoldable pub update_status : Text → EventStatus → Action Error ⊤
unfolding exec
update_status id status = do
  n ← exec (update_events (has_event_id id) (λ e. record e { status = status }))
  require_rows n

abbrev pub is_like : Text → Text → EventLike → Bool
is_like event user l = (l.event_id == event) && (l.user_id == user)

-- `EXISTS (SELECT 1 FROM event_likes WHERE …)`
abbrev pub liked : Text → Text → Db → Bool
liked event user db = negate (count_where (is_like event user) db.event_likes == 0)

-- INSERT … ON CONFLICT DO NOTHING, under the foreign keys.
unfoldable pub insert_like : Text → Text → Moment → Db → Result Error ⊤ × Db
insert_like event user m db =
    if negate (count_where (λ r. r.id == event) db.events == 0)
      && negate (count_where (λ r. r.id == user) db.users == 0)
    then (if liked event user db then (ok tt, db) else (
      ok tt,
      record db {
        event_likes = db.event_likes ++ (record { user_id = user; event_id = event } ∷ []);
      },
    ))
    else (err foreign_key_violation, db)

unfoldable pub like_event : Text → Text → Action Error ⊤
unfolding with_tx exec insert_like
like_event event user = with_tx do
  exec (insert_like event user)
  n ← exec (λ m db.
      update_events (λ e. has_event_id event e && liked event user db)
        (λ e. record e { likes = e.likes +ℤ pos 1 }) m db)
  pure tt

-- `GREATEST(likes - 1, 0)`
abbrev pub one_less : ℤ → ℤ
one_less n = if leb_ℤ (pos 0) (n -ℤ pos 1) then n -ℤ pos 1 else pos 0

abbrev take_like : Text → ℕ → Action Error ⊤
take_like event ℕ.zero = pure tt
take_like event (suc n) =
    exec (update_events (has_event_id event) (λ e. record e { likes = one_less e.likes })) >>= λ _.
    pure tt

unfoldable pub unlike_event : Text → Text → Action Error ⊤
unfolding with_tx exec
unlike_event event user = with_tx do
  n ← exec (λ m db. (
    ok (count_where (is_like event user) db.event_likes),
    record db { event_likes = delete_where (is_like event user) db.event_likes },
  ))
  take_like event n

unfoldable pub is_liked : Text → Text → Action Error Bool
unfolding query
is_liked event user = query λ m db. ok (liked event user db)

-- `ORDER BY seat_label`
abbrev by_label : Seat → Seat → Bool
by_label x y = leb x.seat_label y.seat_label

unfoldable pub get_available_seats : Text → Action Error (List Text)
unfolding query
get_available_seats event = query λ m db. ok (
    map (λ s. s.seat_label)
      (order_by by_label
        (select_where (λ s. (s.event_id == event) && is_available s.status) db.seats)))

-- `WHERE status != 'expired' AND end_time < NOW()`
abbrev pub has_ended : Time → Event → Bool
has_ended now e = negate (is_expired e.status) && ltb e.end_time now

unfoldable pub update_expired_events : Action Error ℕ
unfolding exec
update_expired_events =
    exec
      λ m db. update_events (has_ended m.now) (λ e. record e { status = EventStatus.expired }) m db

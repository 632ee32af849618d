-- ===== src/Reads.antt =====
-- The reads that the services share keep every property of the database.
use high_concurrency_ticketi.Schema.{Text, Db}
use high_concurrency_ticketi.Sql.{first_where}
use high_concurrency_ticketi.World.{ok}
use high_concurrency_ticketi.World.Keeps.{Keeps, query-Keeps}
use high_concurrency_ticketi.Tables.{has_event_id}
use high_concurrency_ticketi.Users.{has_user_id}
use high_concurrency_ticketi.Bookings.{
  get_by_id, scan_optional, has_id, get_by_idempotency, has_key,
}
use high_concurrency_ticketi.Events
use high_concurrency_ticketi.Users
use high_concurrency_ticketi.Waitlist

pub get_event-Keeps : (id : Text) (Inv : Db → Type 0) → Keeps Inv (Events.get id)
unfolding Events.get
get_event-Keeps id Inv = query-Keeps Inv (λ m db. ok (first_where (has_event_id id) db.events))

pub get_user-Keeps : (id : Text) (Inv : Db → Type 0) → Keeps Inv (Users.get_by_id id)
unfolding Users.get_by_id
get_user-Keeps id Inv = query-Keeps Inv (λ m db. ok (first_where (has_user_id id) db.users))

pub next_active-Keeps : (event : Text) (Inv : Db → Type 0) → Keeps Inv (Waitlist.next_active event)
unfolding Waitlist.next_active
next_active-Keeps event Inv =
    query-Keeps Inv (λ m db. ok (Waitlist.next_result (Waitlist.head_of_line event db.waitlist)))

pub get_booking-Keeps : (id : Text) (Inv : Db → Type 0) → Keeps Inv (get_by_id id)
unfolding get_by_id
get_booking-Keeps id Inv =
    query-Keeps Inv (λ m db. scan_optional (first_where (has_id id) db.bookings))

pub get_by_idempotency-Keeps : (key : Text) (Inv : Db → Type 0) → Keeps Inv (get_by_idempotency key)
unfolding get_by_idempotency
get_by_idempotency-Keeps key Inv =
    query-Keeps Inv (λ m db. scan_optional (first_where (has_key key) db.bookings))

-- ===== src/Bookings.antt =====
-- The repository of bookings: internal/store/bookings/bookings.go.
pub mod Create
use high_concurrency_ticketi.Prelude.{
  ℕ, ℤ, pos, Bool, false, ◌&&◌, negate, Option, none, some, List, [], ◌∷◌, ◌++◌, ⊤, ◌==◌, leb,
  if◌then◌else◌,
}
use high_concurrency_ticketi.Money.{Money, is_storable, zero_cents}
use high_concurrency_ticketi.Schema.{
  Text, Db, Booking, BookingRow, BookingStatus, PaymentStatus, SeatsJson, empty_text,
}
use high_concurrency_ticketi.Sql.{select_where, first_where, count_where, order_by, page}
use high_concurrency_ticketi.World.{
  numeric_overflow, Moment, Action, Error, Result, ok, err, panic, ◌>>=◌, exec, query, require_rows,
  scan_null, unique_violation, foreign_key_violation,
}
use high_concurrency_ticketi.Tables.{update_bookings}

-- `WHERE id = $1`
abbrev pub has_id : Text → BookingRow → Bool
has_id id r = r.id == id

abbrev pub has_event : Text → BookingRow → Bool
has_event e r = r.event_id == e

abbrev same_key : Option Text → Text → Bool
same_key none key = false
same_key (some k) key = k == key

-- `WHERE idempotency_key = $1`: NULL is equal to nothing.
abbrev pub has_key : Text → BookingRow → Bool
has_key key r = same_key r.idempotency_key key

abbrev of_user : Text → BookingRow → Bool
of_user u r = same_key r.user_id u

-- `rows.Scan` into the struct: a NULL does not go into a Go `string`.
abbrev pub scan_booking : BookingRow → Result Error Booking
scan_booking r = elim r.user_id [
  | none ↦ err scan_null
  | some user ↦ elim r.idempotency_key [
    | none ↦ err scan_null
    | some key ↦ ok (record {
      id = r.id;
      user_id = user;
      event_id = r.event_id;
      status = r.status;
      seats = r.seats;
      idempotency_key = key;
      amount_paid = r.amount_paid;
      payment_status = r.payment_status;
      created_at = r.created_at;
      updated_at = r.updated_at;
      version = r.version;
    })
  ]
]

-- The constraint `unique_event_idempotency`, in which NULLs are distinct.
abbrev pub key_taken : Text → Option Text → List BookingRow → Bool
key_taken e none rows = false
key_taken e (some key) rows = negate (count_where (λ r. has_event e r && has_key key r) rows == 0)

abbrev pub pending_row : Moment → Text → Text → Option Text → SeatsJson → BookingRow
pending_row m user event key seats = record {
  id = m.fresh;
  user_id = some user;
  event_id = event;
  status = BookingStatus.pending;
  seats = seats;
  idempotency_key = key;
  amount_paid = zero_cents;
  payment_status = PaymentStatus.pending;
  created_at = m.now;
  updated_at = m.now;
  version = 1;
}

abbrev key_text : Option Text → Text
key_text none = empty_text
key_text (some key) = key

-- The struct that `CreatePending` fills from its arguments and from RETURNING.
abbrev pub pending_booking : Moment → Text → Text → Option Text → SeatsJson → Booking
pending_booking m user event key seats = record {
  id = m.fresh;
  user_id = user;
  event_id = event;
  status = BookingStatus.pending;
  seats = seats;
  idempotency_key = key_text key;
  amount_paid = zero_cents;
  payment_status = PaymentStatus.pending;
  created_at = m.now;
  updated_at = m.now;
  version = 1;
}

abbrev pub has_user_row : Text → Db → Bool
has_user_row u db = negate (count_where (λ r. r.id == u) db.users == 0)

abbrev pub has_event_row : Text → Db → Bool
has_event_row e db = negate (count_where (λ r. r.id == e) db.events == 0)

-- INSERT INTO bookings, under the foreign keys to users and events and the unique key.
unfoldable pub insert_pending :
    Text → Text → Option Text → SeatsJson → Moment → Db → Result Error Booking × Db
insert_pending user event key seats m db =
    if has_user_row user db && has_event_row event db
    then (if key_taken event key db.bookings then (err unique_violation, db) else (
      ok (pending_booking m user event key seats),
      record db { bookings = db.bookings ++ (pending_row m user event key seats ∷ []) },
    ))
    else (err foreign_key_violation, db)

unfoldable pub create_pending : Text → Text → Option Text → SeatsJson → Action Error Booking
unfolding insert_pending exec
create_pending user event key seats = exec (insert_pending user event key seats)

abbrev pub scan_optional : Option BookingRow → Result Error (Option Booking)
scan_optional none = ok none
scan_optional (some r) = elim (scan_booking r) [
  | ok b ↦ ok (some b)
  | err e ↦ err e
  | panic ↦ panic
]

-- `none` is the nil of a missing row.
unfoldable pub get_by_id : Text → Action Error (Option Booking)
unfolding query
get_by_id id = query λ m db. scan_optional (first_where (has_id id) db.bookings)

unfoldable pub get_by_idempotency : Text → Action Error (Option Booking)
unfolding query
get_by_idempotency key = query λ m db. scan_optional (first_where (has_key key) db.bookings)

-- The loop `for rows.Next() { … Scan … append }`.
unfoldable pub scan_bookings : List BookingRow → Result Error (List Booking)
scan_bookings [] = ok []
scan_bookings (r ∷ rs) = elim (scan_booking r) [
  | ok b ↦ elim (scan_bookings rs) [ ok bs ↦ ok (b ∷ bs) | err e ↦ err e | panic ↦ panic ]
  | err e ↦ err e
  | panic ↦ panic
]

-- `ORDER BY created_at DESC`
abbrev newest_first : BookingRow → BookingRow → Bool
newest_first x y = leb y.created_at x.created_at

unfoldable pub list_by_user : Text → ℕ → ℕ → Action Error (List Booking)
unfolding query scan_bookings
list_by_user user limit offset = query λ m db.
    scan_bookings
      (page limit offset (order_by newest_first (select_where (of_user user) db.bookings)))

unfoldable pub list_by_event : Text → ℕ → ℕ → Action Error (List Booking)
unfolding query scan_bookings
list_by_event event limit offset = query λ m db.
    scan_bookings
      (page limit offset (order_by newest_first (select_where (has_event event) db.bookings)))

unfoldable pub update_status : Text → BookingStatus → Action Error ⊤
unfolding exec
update_status id status = do
  n ← exec (update_bookings (has_id id) (λ r. record r { status = status }))
  require_rows n

-- UPDATE bookings SET payment_status = $1, amount_paid = $2; the column bounds the amount.
abbrev pub set_payment : Text → PaymentStatus → Money → Moment → Db → Result Error ℕ × Db
set_payment id payment_status amount m db =
    if is_storable amount
    then update_bookings (has_id id)
        (λ r. record r { payment_status = payment_status; amount_paid = amount }) m db
    else (err numeric_overflow, db)

unfoldable pub update_payment_status : Text → PaymentStatus → Money → Action Error ⊤
unfolding exec
update_payment_status id payment_status amount = do
  n ← exec (set_payment id payment_status amount)
  require_rows n

unfoldable pub update_seats : Text → SeatsJson → Action Error ⊤
unfolding exec
update_seats id seats = do
  n ← exec (update_bookings (has_id id) (λ r. record r { seats = seats }))
  require_rows n

-- `none` is the empty string of a missing row.
unfoldable pub get_booking_status : Text → Action Error (Option BookingStatus)
unfolding query
get_booking_status id = query λ m db. elim (first_where (has_id id) db.bookings) [
  | none ↦ ok none
  | some r ↦ ok (some r.status)
]

-- ===== src/Bookings/Create.antt =====
-- `CreatePending`: the row that it adds, and what it refuses.
use high_concurrency_ticketi.Prelude.{
  ◌≤◌, ◌≡◌, refl, inl, inr, true, ◌&&◌, Option, none, some, List, [], ◌∷◌, ◌++◌, arith, Bool-cases,
}
use high_concurrency_ticketi.Schema.{Text, Db, Booking, BookingRow, SeatsJson}
use high_concurrency_ticketi.Sql.{count_where, first_where}
use high_concurrency_ticketi.World.{World, Env, Moment, ok, err, scan_null}
use high_concurrency_ticketi.World.Atomic.{IsFailure}
use high_concurrency_ticketi.World.Ensures.{IsUp}
use high_concurrency_ticketi.Bookings.{
  get_by_id, scan_optional, key_taken, has_user_row, has_event_row, has_event, has_key, has_id,
  insert_pending, create_pending, pending_row, pending_booking,
}

-- What `CreatePending` has done when it returns a booking.
abbrev pub Created : Text → Text → Option Text → SeatsJson → Moment → Db → Booking → Db → Type 0
Created user event key seats m before b after =
    (b ≡ pending_booking m user event key seats)
    × (after
        ≡ record before { bookings = before.bookings ++ (pending_row m user event key seats ∷ []) })

insert_pending-Created :
    (user event : Text) (key : Option Text) (seats : SeatsJson) (m : Moment) (db : Db) (b : Booking)
    → (insert_pending user event key seats m db).0 ≡ ok b
    → Created user event key seats m db b (insert_pending user event key seats m db).1
unfolding insert_pending
insert_pending-Created user event key seats m db b e = ground arith

-- A row that was inserted under an id in nobody's use is the one that is found by that id.
first_where-inserted :
    (rows : List BookingRow) (r : BookingRow)
    → count_where (has_id r.id) rows ≡ 0
    → first_where (has_id r.id) (rows ++ (r ∷ [])) ≡ some r
first_where-inserted [] r h = ground arith
first_where-inserted (x ∷ rows) r h = ground (arith, first_where-inserted rows r)

pub create_pending-Created :
    (user event : Text) (key : Option Text) (seats : SeatsJson) (env : Env) (w : World)
    (b : Booking)
    → (create_pending user event key seats env w).0 ≡ ok b
    → Created user event key seats
        (env.moment w.calls)
        w.db
        b
        (create_pending user event key seats env w).1.db
unfolding create_pending
create_pending-Created user event key seats env w b e = elim (Bool-cases (env.fault w.calls)) [
  | inl down ↦ ground (arith)
  | inr up ↦
      rw up (insert_pending-Created user event key seats (env.moment w.calls) w.db b (rw up at e))
]

-- A booking that was just created under an unused id is read back by that id as `CreatePending`
-- returned it if it has an idempotency key. Created without a key it cannot be read at all: the
-- NULL key does not go into the Go string.
pub create_pending-get_by_id :
    (user event : Text) (key : Option Text) (seats : SeatsJson) (env : Env) (w : World)
    (b : Booking)
    → IsUp env
    → count_where (has_id (env.moment w.calls).fresh) w.db.bookings ≡ 0
    → (create_pending user event key seats env w).0 ≡ ok b
    → (get_by_id b.id env (create_pending user event key seats env w).1).0
      ≡ elim key [ none ↦ err scan_null | some _ ↦ ok (some b) ]
unfolding get_by_id
create_pending-get_by_id user event key seats env w b up unused e =
    let (made, after) = create_pending-Created user event key seats env w b e in
    let w' : World = (create_pending user event key seats env w).1 in
    rw
      (
        up w'.calls,
        after,
        made,
        first_where-inserted w.db.bookings (pending_row (env.moment w.calls) user event key seats)
            unused,
      )
      (read key b made)
  where
    read :
        (k : Option Text) (c : Booking)
        → c ≡ pending_booking (env.moment w.calls) user event k seats
        → scan_optional (some (pending_row (env.moment w.calls) user event k seats))
          ≡ elim k [ none ↦ err scan_null | some _ ↦ ok (some c) ]
    read none c h = refl
    read (some k) c h = rw h

-- Under a key that the event already has, the call fails and nothing is inserted.
pub create_pending_duplicate :
    (user event key : Text) (seats : SeatsJson) (env : Env) (w : World)
    → 1 ≤ count_where (λ r. has_event event r && has_key key r) w.db.bookings
    → IsFailure (create_pending user event (some key) seats env w).0
      × ((create_pending user event (some key) seats env w).1.db ≡ w.db)
unfolding create_pending
create_pending_duplicate user event key seats env w taken = elim (Bool-cases (env.fault w.calls)) [
  | inl down ↦ rw down (inl (_, refl), refl)
  | inr up ↦ rw up (elim (Bool-cases (has_user_row user w.db && has_event_row event w.db)) [
    | inl known ↦ rw (known, key_taken_true) (inl (_, refl), refl)
    | inr unknown ↦ rw unknown (inl (_, refl), refl)
  ])
]
  where
    key_taken_true : key_taken event (some key) w.db.bookings ≡ true
    key_taken_true = ground arith

-- ===== src/BookingService/CreateCounters.antt =====
-- Taking a booking keeps the counters of the events.
use high_concurrency_ticketi.Prelude.{
  arith, ◌≡◌, ℕ, ℤ, pos, Bool, true, false, Option, none, some, List, ⊤, ◌==◌, if◌then◌else◌, inl,
  inr, Bool-cases, length, ltb, ltb_ℤ,
}
use high_concurrency_ticketi.Schema.{
  WaitlistEntry, Text, Db, Booking, Event, EventStatus, marshal_seats, empty_text,
}
use high_concurrency_ticketi.Sql.Laws.{All-update_where}
use high_concurrency_ticketi.World.{
  Env, Moment, ok, pure, raise, ignore, raise_if, or_raise, attempt, time_now, ◌>>◌, exec, query,
  require_rows, event_not_found, event_expired, too_many_tickets,
}
use high_concurrency_ticketi.World.Keeps.{
  Keeps, bind-Keeps, query-Keeps, exec-Keeps, or_raise-Keeps, raise_if-Keeps, require_rows-Keeps,
  ignore-Keeps, attempt-Keeps, publish-Keeps, with_code-Keeps,
}
use high_concurrency_ticketi.Outside.{Failure, failure, with_code, publish}
use high_concurrency_ticketi.Tables.{has_event_id, update_events}
use high_concurrency_ticketi.Bookings.{create_pending, get_by_idempotency}
use high_concurrency_ticketi.BookingTx.Balance.{IsConsistent, booked_count}
use high_concurrency_ticketi.BookingTx.Fresh.{
  IsReady, Counts, before-Counts, ready-Counts, after-Counts, create_pending-Counts,
}
use high_concurrency_ticketi.Reads.{get_event-Keeps, get_by_idempotency-Keeps}
use high_concurrency_ticketi.Tokens.{reserve}
use high_concurrency_ticketi.Events
use high_concurrency_ticketi.Waitlist
use high_concurrency_ticketi.BookingService.{
  create, check_expired, find_replay, reserve_or_wait, accept, join_waitlist, booking_payload,
  replay,
}

reserve-Keeps : (event : Text) (n : ℤ) (Inv : Db → Type 0) → Keeps Inv (reserve event n)
unfolding reserve
reserve-Keeps event n Inv env w i = elim (Bool-cases (env.fault w.calls)) [
  | inl down ↦ rw down i
  | inr up ↦ rw up i
]

insert_entry-IsConsistent :
    (event user : Text) (position : ℕ) (m : Moment) (db : Db)
    → IsConsistent db
    → IsConsistent (Waitlist.insert_entry event user position m db).1
unfolding Waitlist.insert_entry
insert_entry-IsConsistent event user position m db c =
    let more : (l : List WaitlistEntry) → IsConsistent (record db { waitlist = l }) =
      λ l. record { unique = c.unique; balanced = c.balanced } in
    ground (arith, more, c)

add-Keeps : (event user : Text) → Keeps IsConsistent (Waitlist.add event user)
unfolding Waitlist.add
add-Keeps event user =
    bind-Keeps IsConsistent (query (λ m db. ok (Waitlist.next_position event db.waitlist))) _
      (query-Keeps IsConsistent (λ m db. ok (Waitlist.next_position event db.waitlist)))
      λ position.
        bind-Keeps IsConsistent (exec (Waitlist.insert_entry event user position)) _
          (exec-Keeps IsConsistent (Waitlist.insert_entry event user position)
            (insert_entry-IsConsistent event user position))
          λ id env w c. c

-- The status of the event is no counter.
expire-IsReady :
    (id : Text) (status : EventStatus) (env : Env)
    → Keeps (IsReady env) (Events.update_status id status)
unfolding Events.update_status
expire-IsReady id status env =
    bind-Keeps (IsReady env) (exec (update_events (has_event_id id) set)) require_rows
      (exec-Keeps (IsReady env) (update_events (has_event_id id) set) kept)
      (require_rows-Keeps (IsReady env))
  where
    set : Event → Event
    set e = record e { status = status }

    kept :
        (m : Moment) (db : Db)
        → IsReady env db
        → IsReady env (update_events (has_event_id id) set m db).1
    kept m db i = record {
      consistent = record {
        unique = i.consistent.unique;
        balanced =
            All-update_where (λ ev. ev.reserved ≡ pos (booked_count ev.id db.bookings))
              (λ ev. ev.reserved ≡ pos (booked_count ev.id db.bookings)) (has_event_id id)
              (λ e. record e { status = status; updated_at = m.now }) db.events
              (λ ev h. ground (arith, h)) i.consistent.balanced;
      };
      unused = i.unused;
    }

check_expired-IsReady :
    (e : Event) (event : Text) (env : Env) → Keeps (IsReady env) (check_expired e event)
unfolding check_expired
check_expired-IsReady e event env0 =
    bind-Keeps (IsReady env0) time_now _ (λ env w i. i) λ now. branch (ltb e.end_time now)
  where
    branch :
        (late : Bool)
        → Keeps (IsReady env0) {E = Failure} {A = ⊤} (
            if late
            then ignore (Events.update_status event EventStatus.expired)
              >> raise (failure 400 event_expired)
            else pure tt)
    branch true env w i =
        bind-Keeps (IsReady env0) (ignore (Events.update_status event EventStatus.expired)) _
          (ignore-Keeps (IsReady env0) Failure (Events.update_status event EventStatus.expired)
            (expire-IsReady event EventStatus.expired env0))
          (λ _ env w i. i) env w i
    branch false env w i = i

find_replay-Keeps : (key : Option Text) (Inv : Db → Type 0) → Keeps Inv (find_replay key)
unfolding find_replay
find_replay-Keeps none Inv env w i = i
find_replay-Keeps (some key) Inv env w i = elim (Bool-cases (key == empty_text)) [
  | inl empty ↦ rw empty i
  | inr given ↦ rw given (
      bind-Keeps Inv (attempt (get_by_idempotency key)) _
        (attempt-Keeps Inv Failure (get_by_idempotency key) (get_by_idempotency-Keeps key Inv))
        (λ r env w i. i) env w i)
]

module _ (event user : Text) (key : Option Text) (seats : List Text) where
  accept-Counts : Counts (accept event user key seats)
  unfolding accept
  accept-Counts =
      after-Counts (with_code 500 (create_pending user event key (marshal_seats seats))) _
        (λ env w i. create_pending-Counts user event key (marshal_seats seats) env w i)
        λ b.
          bind-Keeps IsConsistent (ignore (publish (booking_payload b event user seats key))) _
            (ignore-Keeps IsConsistent Failure (publish (booking_payload b event user seats key))
              (publish-Keeps IsConsistent (booking_payload b event user seats key)))
            λ _ env w c. c

  join_waitlist-Keeps : Keeps IsConsistent (join_waitlist event user)
  unfolding join_waitlist
  join_waitlist-Keeps =
      bind-Keeps IsConsistent (with_code 500 (Waitlist.add event user)) _
        (with_code-Keeps IsConsistent 500 (Waitlist.add event user) (add-Keeps event user))
        λ _ env w c. c

  reserve_or_wait-Counts : Counts (reserve_or_wait event user key seats)
  unfolding reserve_or_wait
  reserve_or_wait-Counts =
      before-Counts (with_code 500 (reserve event (pos (length seats)))) _
        (λ Inv.
          with_code-Keeps Inv 500 (reserve event (pos (length seats)))
            (reserve-Keeps event (pos (length seats)) Inv))
        branch
    where
      branch :
          (reserved : Bool)
          → Counts (if reserved then accept event user key seats else join_waitlist event user)
      branch true env w i = accept-Counts env w i
      branch false env w i = join_waitlist-Keeps env w i.consistent

  -- A request for a booking, however it ends.
  pub create-Counts : Counts (create event user key seats)
  unfolding create
  create-Counts =
      before-Counts (with_code 500 (Events.get event)) _
        (λ Inv. with_code-Keeps Inv 500 (Events.get event) (get_event-Keeps event Inv))
        λ found.
          before-Counts (or_raise found (failure 404 event_not_found)) _
            (λ Inv. or_raise-Keeps Inv found (failure 404 event_not_found))
            λ e.
              ready-Counts (check_expired e event) _
                (λ env w i. check_expired-IsReady e event env env w i)
                λ _.
                  before-Counts (raise_if (too_many e) (failure 400 too_many_tickets)) _
                    (λ Inv. raise_if-Keeps Inv (too_many e) (failure 400 too_many_tickets))
                    λ _. before-Counts (find_replay key) _ (find_replay-Keeps key) branch
    where
      too_many : Event → Bool
      too_many e = ltb_ℤ e.maximum_tickets_per_booking (pos (length seats))

      branch :
          (known : Option Booking)
          → Counts {E = Failure} (elim known [
            | some b ↦ pure (replay b)
            | none ↦ reserve_or_wait event user key seats
          ])
      branch (some b) env w i = i.consistent
      branch none env w i = reserve_or_wait-Counts env w i

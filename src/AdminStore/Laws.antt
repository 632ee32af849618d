-- ===== src/AdminStore/Laws.antt =====
-- Cancelling an event, and removing users.
use high_concurrency_ticketi.Prelude.{
  ℕ, suc, ◌≡◌, refl, Bool, true, ◌&&◌, negate, List, [], ◌∷◌, ⊤, arith, ◌==◌, if◌then◌else◌, inl,
  inr, Bool-cases,
}
use high_concurrency_ticketi.Schema.{
  Text, Time, Db, BookingRow, BookingStatus, EventStatus, WaitlistEntry, User, is_admin,
}
use high_concurrency_ticketi.Sql.{select_where, count_where, update_where, delete_where}
use high_concurrency_ticketi.World.{
  World, Env, Moment, Error, Result, ◌>>=◌, exec, tick, require_rows,
}
use high_concurrency_ticketi.World.Ensures.{
  Ensures, Ensures-bind, Ensures-exec, CommitsOrFails, with_tx-CommitsOrFails,
}
use high_concurrency_ticketi.Bookings.{has_event}
use high_concurrency_ticketi.Users.{has_user_id, delete_rows}
use high_concurrency_ticketi.Waitlist.Order.{line}
use high_concurrency_ticketi.Tables.{update_bookings, update_events, has_event_id}
use high_concurrency_ticketi.AdminStore.{
  is_open, clear_waitlist, cancel_event, cancel_event_body, remove_user,
}

-- `RemoveUser` removes no administrator, whichever row has the id and whether the call fails or not.
pub remove_user-admins :
    (id : Text) (env : Env) (w : World)
    → select_where (λ u. is_admin u.role) (remove_user id env w).1.db.users
      ≡ select_where (λ u. is_admin u.role) w.db.users
unfolding remove_user ◌>>=◌ delete_rows exec
remove_user-admins id env w = elim (Bool-cases (env.fault w.calls)) [
  | inl down ↦ rw down refl
  | inr up ↦
      let p : User → Bool = λ u. has_user_id id u && negate (is_admin u.role) in
      rw (up, require_rows_same)
        (elim (Bool-cases (count_where p w.db.users == 0)) [
          | inl nobody ↦ rw nobody refl
          | inr somebody ↦ rw somebody (kept w.db.users)
        ])
]
  where
    require_rows_same : (n : ℕ) (env : Env) (w : World) → (require_rows n env w).1 ≡ w
    require_rows_same ℕ.zero env w = refl
    require_rows_same (suc n) env w = refl

    kept :
        (us : List User)
        → select_where
            (λ u. is_admin u.role)
            (delete_where (λ u. has_user_id id u && negate (is_admin u.role)) us)
          ≡ select_where (λ u. is_admin u.role) us
    kept [] = refl
    kept (u ∷ us) = ground (arith, kept us)

abbrev pub open_bookings : Text → Db → List BookingRow
open_bookings e db = select_where (λ r. has_event e r && is_open r.status) db.bookings

-- The event, its open bookings and nobody else's are cancelled, everybody is out of its line, and the
-- rest of the database stays; then the event has no open booking and an empty line, and the open
-- bookings and the lines of other events are as they were.
abbrev pub Closed : Text → Db → Db → Type 0
Closed event before after =
    (t u : Time) × (after ≡ record before {
      bookings =
          update_where (λ r. has_event event r && is_open r.status)
            (λ r. record r { status = BookingStatus.cancelled; updated_at = u }) before.bookings;
      events =
          update_where (has_event_id event)
            (λ e. record e { status = EventStatus.cancelled; updated_at = t }) before.events;
      waitlist =
          update_where (λ r. r.event_id == event) (λ r. record r { opted_out = true })
            before.waitlist;
    })
    × ((e : Text) → open_bookings e after ≡ (if event == e then [] else open_bookings e before))
    × ((e : Text) → line e after.waitlist ≡ (if event == e then [] else line e before.waitlist))

closed_bookings :
    (event e : Text) (t : Time) (rows : List BookingRow)
    → select_where
        (λ r. has_event e r && is_open r.status)
        (update_where
          (λ r. has_event event r && is_open r.status)
          (λ r. record r { status = BookingStatus.cancelled; updated_at = t })
          rows)
      ≡ (if event == e then [] else select_where (λ r. has_event e r && is_open r.status) rows)
closed_bookings event e t [] = ground arith
closed_bookings event e t (r ∷ rows) = ground (arith, closed_bookings event e t rows)

closed_line :
    (event e : Text) (rows : List WaitlistEntry)
    → line e (update_where (λ r. r.event_id == event) (λ r. record r { opted_out = true }) rows)
      ≡ (if event == e then [] else line e rows)
closed_line event e [] = ground arith
closed_line event e (r ∷ rows) = ground (arith, closed_line event e rows)

cancel_event_body-Closed :
    (event : Text) (env : Env) (w : World)
    → Ensures (cancel_event_body event env w) (λ _ w'. Closed event w.db w'.db)
unfolding cancel_event_body
cancel_event_body-Closed event env w =
    Ensures-bind (exec close) _ env w (λ _ w'. w'.db ≡ (close (env.moment w.calls) w.db).1) Done
      (Ensures-exec close env w _ (λ n e. refl))
      λ n w1 q1.
        Ensures-bind (exec drop_open) _ env w1
          (λ _ w'. w'.db ≡ (drop_open (env.moment w1.calls) w1.db).1) Done
          (Ensures-exec drop_open env w1 _ (λ k e. refl))
          λ k w2 q2.
            Ensures-bind (exec (clear_waitlist event)) _ env w2
              (λ _ w'. w'.db ≡ (clear_waitlist event (env.moment w2.calls) w2.db).1) Done
              (Ensures-exec (clear_waitlist event) env w2 _ (λ l e. refl))
              λ l w3 q3.
                rw (q3, q2, q1)
                  (
                    (env.moment w.calls).now,
                    (env.moment w1.calls).now,
                    refl,
                    λ e. closed_bookings event e _ w.db.bookings,
                    λ e. closed_line event e w.db.waitlist,
                  )
  where
    Done : ⊤ → World → Type 0
    Done _ w' = Closed event w.db w'.db

    close : Moment → Db → Result Error ℕ × Db
    close = update_events (has_event_id event) (λ e. record e { status = EventStatus.cancelled })

    drop_open : Moment → Db → Result Error ℕ × Db
    drop_open =
        update_bookings (λ r. has_event event r && is_open r.status)
          (λ r. record r { status = BookingStatus.cancelled })

-- `CancelEvent` fails and changes nothing, or sets the status of the event and of every open booking
-- of it to cancelled and opts everybody out of its waitlist, and leaves every other column and row of
-- the database alone, but for the times of the updates; then the event has no open booking and an
-- empty line, and other events have theirs as before.
pub cancel_event-outcome :
    (event : Text) (env : Env) (w : World)
    → CommitsOrFails w.db (cancel_event event env w) (λ _ after. Closed event w.db after)
unfolding cancel_event
cancel_event-outcome event env w =
    with_tx-CommitsOrFails _ (cancel_event_body event) env w
      (cancel_event_body-Closed event env (tick w))

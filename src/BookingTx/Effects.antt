-- ===== src/BookingTx/Effects.antt =====
-- What the bodies of the two transactions have done when they return.
use high_concurrency_ticketi.Prelude.{
  map, Bool-cases, ◌||◌, ℕ, pos, ◌≡◌, refl, ◌∙◌, Bool, false, ◌&&◌, Option, some, List, [], ◌∷◌,
  arith, ◌==◌, if◌then◌else◌, inl, inr,
}
use high_concurrency_ticketi.Money.{Money}
use high_concurrency_ticketi.Schema.{
  Text, Time, Db, BookingRow, SeatsJson, SeatStatus, Seat, is_pending, unmarshal_seats,
}
use high_concurrency_ticketi.Sql.{select_where, first_where, update_where}
use high_concurrency_ticketi.Sql.Laws.{map-update_where, map_same, map_twice}
use high_concurrency_ticketi.World.{
  World, Env, Moment, Error, Result, ok, exec, query, or_raise, bad_json, no_rows,
}
use high_concurrency_ticketi.World.Ensures.{
  Ensures, Ensures-bind, Ensures-weaken, Ensures-exec, Ensures-query, Ensures-or_raise,
}
use high_concurrency_ticketi.Bookings.{has_id}
use high_concurrency_ticketi.Tables.{
  has_event_id, add_reserved, update_each, is_seat, update_seat_rows, update_bookings,
  update_events, book_seat,
}
use high_concurrency_ticketi.BookingTx.{book_row, finalize_body}
use high_concurrency_ticketi.BookingTx.Balance.{booked_rows, restamp}

-- Who holds a seat: its status and the booking that it is held by.
abbrev pub holding : Seat → SeatStatus × Option Text
holding s = (s.status, s.held_by_booking)

-- All the seats of a label, of which an event may have several.
abbrev pub seat_view : Text → Text → Db → List (SeatStatus × Option Text)
seat_view e l db = map holding (select_where (is_seat e l) db.seats)

abbrev pub member : Text → List Text → Bool
member l [] = false
member l (x ∷ xs) = (x == l) || member l xs

-- All the seats of the labels hold `mark`, and every other seat is as it was.
abbrev pub Marks : Text → List Text → SeatStatus × Option Text → Db → Db → Type 0
Marks e ls mark before after =
    (e' l : Text)
    → seat_view e' l after ≡ (
        if (e == e') && member l ls
        then map (λ _. mark) (seat_view e' l before)
        else seat_view e' l before)

abbrev pub SameRows : Db → Db → Type 0
SameRows before after = (after.bookings ≡ before.bookings) × (after.events ≡ before.events)

module _ (e : Text) (f : Seat → Seat) (mark : SeatStatus × Option Text)
    (marks : (s : Seat) → ((f s).status, (f s).held_by_booking) ≡ mark)
    (place : (s : Seat) → ((f s).event_id ≡ s.event_id) × ((f s).seat_label ≡ s.seat_label)) where
  mark_one :
      (l : Text) (m : Moment) (db : Db)
      → Marks e (l ∷ []) mark db (update_seat_rows (is_seat e l) f m db).1
  mark_one l m db e' l' =
      let g : Seat → Seat = λ s. let t = f s in record t { updated_at = m.now } in
      let keep : (s : Seat) → is_seat e' l' (g s) ≡ is_seat e' l' s =
        λ s. rw ((place s).0, (place s).1) refl in
      elim (Bool-cases ((e == e') && (l == l'))) [
        | inl hit ↦
            map-update_where (is_seat e' l') (is_seat e l) g holding (λ _. mark) db.seats keep
              (λ s here. ground (arith, hit, here, marks s))
            ∙ ground (arith, hit)
        | inr miss ↦
            map-update_where (is_seat e' l') (is_seat e l) g holding (λ v. v) db.seats keep
              (λ s here. ground (arith, miss, here))
            ∙ (map_same (λ v. v) (seat_view e' l' db) (λ v. refl) ∙ ground (arith, miss))
      ]

  pub update_each-Marks :
      (ls : List Text) (env : Env) (w : World)
      → Ensures
          (update_each e f ls env w)
          (λ _ w'. SameRows w.db w'.db × Marks e ls mark w.db w'.db)
  unfolding update_each
  update_each-Marks [] env w = ((refl, refl), λ e' l. ground arith)
  update_each-Marks (l ∷ ls) env w =
      Ensures-bind (exec one) (λ _. update_each e f ls) env w
        (λ _ w'. SameRows w.db w'.db × Marks e (l ∷ []) mark w.db w'.db) _
        (Ensures-exec one env w _ (λ a h. ((refl, refl), mark_one l (env.moment w.calls) w.db)))
        λ a w1 done.
          Ensures-weaken (update_each e f ls env w1)
            (λ _ w2. SameRows w1.db w2.db × Marks e ls mark w1.db w2.db) _
            (update_each-Marks ls env w1)
            (λ _ w2 more. (
              (more.0.0 ∙ done.0.0, more.0.1 ∙ done.0.1),
              λ e' l'. ground (
                arith,
                done.1 e' l',
                more.1 e' l',
                map_twice (λ _. mark) (seat_view e' l' w.db) (λ v. refl),
              ),
            ))
    where
      one : Moment → Db → Result Error ℕ × Db
      one = update_seat_rows (is_seat e l) f

-- A booking, its seats and its event's counter after `FinalizeBooking` returned nil.
pub record Finalized (id : Text) (seats : SeatsJson) (amount : Money) (before after : Db)
    : Type 0 where
  pub found : BookingRow
  pub here : first_where (has_id id) before.bookings ≡ some found
  pub at : Time
  pub rows : after.bookings ≡ booked_rows id before.bookings at seats amount
  pub later : Time
  pub counters :
      after.events
      ≡ update_where
          (has_event_id found.event_id)
          (restamp later (add_reserved (pos 1)))
          before.events
  pub taken : List Text
  pub parsed : unmarshal_seats seats ≡ some taken
  pub marked : Marks found.event_id taken (SeatStatus.booked, some id) before after

pub finalize_body-Finalized :
    (id : Text) (seats : SeatsJson) (amount : Money) (env : Env) (w : World)
    → Ensures (finalize_body id seats amount env w) (λ _ w'. Finalized id seats amount w.db w'.db)
unfolding finalize_body
finalize_body-Finalized id seats amount env w =
    Ensures-bind (query read) _ env w (λ row w'. (row ≡ read_row) × (w'.db ≡ w.db)) Done
      (Ensures-query read env w _ (λ a e. (cc, refl)))
      λ row w1 q1.
        Ensures-bind (or_raise row no_rows) _ env w1 Found Done
          (Ensures-or_raise row no_rows env w1 _ (λ r e. (cc, q1.1)))
          λ r w2 q2.
            Ensures-bind (exec mark) _ env w2 (λ _. Marked) Done
              (Ensures-exec mark env w2 _
                (λ n e. ((env.moment w2.calls).now, rw q2.1, rw q2.1, rw q2.1)))
              λ n w3 q3.
                Ensures-bind (or_raise (unmarshal_seats seats) bad_json) _ env w3
                  (λ ls w'. (unmarshal_seats seats ≡ some ls) × (w' ≡ w3)) Done
                  (Ensures-or_raise (unmarshal_seats seats) bad_json env w3 _ (λ ls e. (e, refl)))
                  λ ls w4 q4.
                    Ensures-bind (update_each r.event_id (book_seat id) ls) _ env w4
                      (λ _ w'.
                        SameRows w4.db w'.db
                        × Marks r.event_id ls (SeatStatus.booked, some id) w4.db w'.db)
                      Done
                      (update_each-Marks r.event_id (book_seat id) _ (λ s. refl) (λ s. (refl, refl))
                        ls env w4)
                      λ _ w5 q5.
                        Ensures-bind (exec (count r)) _ env w5 Done Done
                          (Ensures-exec (count r) env w5 _
                            (λ k e. finish w3 r ls w5 q2.0 q4.0 (rw q4.1 at q5) q3))
                          λ k w6 q6. q6
  where
    read_row : Option BookingRow
    read_row = first_where (has_id id) w.db.bookings

    read : Moment → Db → Result Error (Option BookingRow)
    read m db = ok (first_where (has_id id) db.bookings)

    mark : Moment → Db → Result Error ℕ × Db
    mark = update_bookings (λ r. has_id id r && is_pending r.status) (book_row seats amount)

    count : BookingRow → Moment → Db → Result Error ℕ × Db
    count r = update_events (has_event_id r.event_id) (add_reserved (pos 1))

    Done : {A : Type 0} → A → World → Type 0
    Done _ w' = Finalized id seats amount w.db w'.db

    Found : BookingRow → World → Type 0
    Found r w' = (read_row ≡ some r) × (w'.db ≡ w.db)

    Marked : World → Type 0
    Marked w' =
        (t : Time) × (w'.db.bookings ≡ booked_rows id w.db.bookings t seats amount)
        × (w'.db.events ≡ w.db.events)
        × (w'.db.seats ≡ w.db.seats)

    finish :
        (w3 : World) (r : BookingRow) (ls : List Text) (w5 : World)
        → read_row ≡ some r
        → unmarshal_seats seats ≡ some ls
        → SameRows w3.db w5.db × Marks r.event_id ls (SeatStatus.booked, some id) w3.db w5.db
        → Marked w3
        → Finalized id seats amount w.db (count r (env.moment w5.calls) w5.db).1
    finish w3 r ls w5 here parsed (same, marks) (t, rows, events, chairs) = record {
      found = r;
      here = here;
      at = t;
      rows = same.0 ∙ rows;
      later = (env.moment w5.calls).now;
      counters = rw (same.1, events);
      taken = ls;
      parsed = parsed;
      marked = λ e' l. rw chairs at (marks e' l);
    }

-- ===== src/Seats/Moves.antt =====
-- Holding and booking seats moves each seat of the labels along available, held, booked.
use high_concurrency_ticketi.Prelude.{
  map, ◌∙◌, Bool-cases, ℕ, ◌≡◌, refl, Bool, true, false, ◌&&◌, Option, some, List, [], ◌∷◌, ⊤,
  arith, ◌==◌, if◌then◌else◌, inl, inr,
}
use high_concurrency_ticketi.Schema.{Text, Time, Db, SeatStatus, Seat, is_available, is_held}
use high_concurrency_ticketi.Sql.Laws.{map-update_where, map_same, map_twice}
use high_concurrency_ticketi.World.{World, Env, Moment, Error, Result, ◌>>=◌, exec, tick}
use high_concurrency_ticketi.World.Ensures.{
  Ensures, Ensures-bind, Ensures-weaken, Ensures-exec, CommitsOrFails, with_tx-CommitsOrFails, IsUp,
}
use high_concurrency_ticketi.World.Returns.{
  Returns, Returns-bind, Returns-exec, Returns-weaken, Returns-with_tx, Returns-CommitsOrFails,
}
use high_concurrency_ticketi.Tables.{is_seat, update_seat_rows, book_seat}
use high_concurrency_ticketi.BookingTx.Effects.{holding, seat_view, member}
use high_concurrency_ticketi.Seats.{update_each_from, hold_seat, hold_seats, book_seats}

-- What a seat that `from` accepts becomes; any other stays as it is.
abbrev pub shift :
    (SeatStatus → Bool)
    → SeatStatus × Option Text
    → SeatStatus × Option Text
    → SeatStatus × Option Text
shift from mark (s, h) = if from s then mark else (s, h)

-- All the seats of the labels that `from` accepts have become `mark`; every other seat is as it was.
abbrev pub Moves :
    Text → List Text → (SeatStatus → Bool) → SeatStatus × Option Text → Db → Db → Type 0
Moves e ls from mark before after =
    (e' l : Text)
    → seat_view e' l after ≡ (
        if (e == e') && member l ls
        then map (shift from mark) (seat_view e' l before)
        else seat_view e' l before)

module _ (e : Text) (from : SeatStatus → Bool) (f : Seat → Seat) (mark : SeatStatus × Option Text)
    (marks : (s : Seat) → ((f s).status, (f s).held_by_booking) ≡ mark)
    (place : (s : Seat) → ((f s).event_id ≡ s.event_id) × ((f s).seat_label ≡ s.seat_label)) where
  move_one :
      (l : Text) (m : Moment) (db : Db)
      → Moves e
          (l ∷ [])
          from
          mark
          db
          (update_seat_rows (λ s. is_seat e l s && from s.status) f m db).1
  move_one l m db e' l' =
      let g : Seat → Seat = λ s. let t = f s in record t { updated_at = m.now } in
      let keep : (s : Seat) → is_seat e' l' (g s) ≡ is_seat e' l' s =
        λ s. rw ((place s).0, (place s).1) refl in
      let q : Seat → Bool = λ s. is_seat e l s && from s.status in
      elim (Bool-cases ((e == e') && (l == l'))) [
        | inl hit ↦
            map-update_where (is_seat e' l') q g holding (shift from mark) db.seats keep
              (λ s here. ground (arith, hit, here, marks s))
            ∙ ground (arith, hit)
        | inr miss ↦
            map-update_where (is_seat e' l') q g holding (λ v. v) db.seats keep
              (λ s here. ground (arith, miss, here))
            ∙ (map_same (λ v. v) (seat_view e' l' db) (λ v. refl) ∙ ground (arith, miss))
      ]

  shift_twice :
      (v : SeatStatus × Option Text) → shift from mark (shift from mark v) ≡ shift from mark v
  shift_twice (s, h) = ground arith

  update_each_from-Moves :
      (ls : List Text) (env : Env) (w : World)
      → Ensures (update_each_from e from f ls env w) (λ _ w'. Moves e ls from mark w.db w'.db)
  unfolding update_each_from
  update_each_from-Moves [] env w = λ e' l. ground arith
  update_each_from-Moves (l ∷ ls) env w =
      Ensures-bind (exec one) (λ _. update_each_from e from f ls) env w
        (λ _ w'. Moves e (l ∷ []) from mark w.db w'.db) _
        (Ensures-exec one env w _ (λ a h. move_one l (env.moment w.calls) w.db))
        λ a w1 done.
          Ensures-weaken (update_each_from e from f ls env w1)
            (λ _ w2. Moves e ls from mark w1.db w2.db) _ (update_each_from-Moves ls env w1)
            (λ _ w2 more e' l'. ground (
              arith,
              done e' l',
              more e' l',
              map_twice (shift from mark) (seat_view e' l' w.db) shift_twice,
            ))
    where
      one : Moment → Db → Result Error ℕ × Db
      one = update_seat_rows (λ s. is_seat e l s && from s.status) f

  update_each_from-Returns :
      (ls : List Text) (env : Env) (w : World)
      → IsUp env
      → Returns (update_each_from e from f ls env w) (λ _ _. ⊤)
  unfolding update_each_from
  update_each_from-Returns [] env w up = tt
  update_each_from-Returns (l ∷ ls) env w up =
      Returns-bind (exec one) _ env w (λ _ _. ⊤) (λ _ _. ⊤) (Returns-exec env up w _ one _ refl tt)
        λ _ w' _. update_each_from-Returns ls env w' up
    where
      one : Moment → Db → Result Error ℕ × Db
      one = update_seat_rows (λ s. is_seat e l s && from s.status) f

-- `HoldSeats` fails and changes nothing, or makes every available seat of the labels held by the
-- booking and leaves every other seat alone: it takes no seat from another booking.
pub hold_seats-outcome :
    (event : Text) (ls : List Text) (booking : Text) (until : Time) (env : Env) (w : World)
    → CommitsOrFails w.db
        (hold_seats event ls booking until env w)
        (λ _ after. Moves event ls is_available (SeatStatus.held, some booking) w.db after)
unfolding hold_seats
hold_seats-outcome event ls booking until env w =
    with_tx-CommitsOrFails _ (update_each_from event is_available (hold_seat booking until) ls) env
      w
      (update_each_from-Moves event is_available (hold_seat booking until) _ (λ s. refl)
        (λ s. (refl, refl)) ls env (tick w))

-- `BookSeats` fails and changes nothing, or makes every held seat of the labels booked by the
-- booking, whichever booking held it, and leaves every other seat alone.
pub book_seats-outcome :
    (event : Text) (ls : List Text) (booking : Text) (env : Env) (w : World)
    → CommitsOrFails w.db
        (book_seats event ls booking env w)
        (λ _ after. Moves event ls is_held (SeatStatus.booked, some booking) w.db after)
unfolding book_seats
book_seats-outcome event ls booking env w =
    with_tx-CommitsOrFails _ (update_each_from event is_held (book_seat booking) ls) env w (
      update_each_from-Moves event is_held (book_seat booking) _ (λ s. refl) (λ s. (refl, refl)) ls
        env (tick w))

hold_seats-Returns :
    (event : Text) (ls : List Text) (booking : Text) (until : Time) (env : Env) (w : World)
    → IsUp env
    → Returns
        (hold_seats event ls booking until env w)
        (λ _ w'. Moves event ls is_available (SeatStatus.held, some booking) w.db w'.db)
unfolding hold_seats
hold_seats-Returns event ls booking until env w up =
    Returns-CommitsOrFails w.db _
      (λ _ after. Moves event ls is_available (SeatStatus.held, some booking) w.db after)
      (Returns-with_tx (λ _ _. ⊤) env up
        (update_each_from event is_available (hold_seat booking until) ls) w
        (update_each_from-Returns event is_available (hold_seat booking until)
          (SeatStatus.held, some booking) (λ s. refl) (λ s. (refl, refl)) ls env (tick w) up))
      (hold_seats-outcome event ls booking until env w)

book_seats-Returns :
    (event : Text) (ls : List Text) (booking : Text) (env : Env) (w : World)
    → IsUp env
    → Returns
        (book_seats event ls booking env w)
        (λ _ w'. Moves event ls is_held (SeatStatus.booked, some booking) w.db w'.db)
unfolding book_seats
book_seats-Returns event ls booking env w up =
    Returns-CommitsOrFails w.db _
      (λ _ after. Moves event ls is_held (SeatStatus.booked, some booking) w.db after)
      (Returns-with_tx (λ _ _. ⊤) env up (update_each_from event is_held (book_seat booking) ls) w
        (update_each_from-Returns event is_held (book_seat booking)
          (SeatStatus.booked, some booking) (λ s. refl) (λ s. (refl, refl)) ls env (tick w) up))
      (book_seats-outcome event ls booking env w)

-- What holding and then booking makes of a seat.
abbrev pub taken_by : Text → SeatStatus × Option Text → SeatStatus × Option Text
taken_by booking (SeatStatus.booked, h) = (SeatStatus.booked, h)
taken_by booking (SeatStatus.available, h) = (SeatStatus.booked, some booking)
taken_by booking (SeatStatus.held, h) = (SeatStatus.booked, some booking)

-- With every service up, holding seats and then booking them, for the same booking or for another
-- one, books every seat of the labels for the second one, the seats that were held by anybody
-- before included, except those that were booked already; every other seat is as it was.
pub book_seats-hold_seats :
    (event : Text) (ls : List Text) (holder booking : Text) (until : Time) (env : Env) (w : World)
    → IsUp env
    → Returns
        ((hold_seats event ls holder until >>= λ _. book_seats event ls booking) env w)
        (λ _ w'.
          (e' l : Text)
          → seat_view e' l w'.db ≡ (
              if (event == e') && member l ls
              then map (taken_by booking) (seat_view e' l w.db)
              else seat_view e' l w.db))
book_seats-hold_seats event ls holder booking until env w up =
    Returns-bind (hold_seats event ls holder until) (λ _. book_seats event ls booking) env w
      (λ _ w'. Moves event ls is_available (SeatStatus.held, some holder) w.db w'.db) _
      (hold_seats-Returns event ls holder until env w up)
      λ _ w1 held.
        Returns-weaken env w1 _ (book_seats event ls booking env w1) _
          (book_seats-Returns event ls booking env w1 up)
          (λ _ w2 done e' l.
            rw (done e' l, held e' l) (both (seat_view e' l w.db) ((event == e') && member l ls)))
  where
    both_one :
        (v : SeatStatus × Option Text)
        → shift is_held
            (SeatStatus.booked, some booking)
            (shift is_available (SeatStatus.held, some holder) v)
          ≡ taken_by booking v
    both_one (SeatStatus.booked, h) = refl
    both_one (SeatStatus.available, h) = refl
    both_one (SeatStatus.held, h) = refl

    both_all :
        (vs : List (SeatStatus × Option Text))
        → map
            (shift is_held (SeatStatus.booked, some booking))
            (map (shift is_available (SeatStatus.held, some holder)) vs)
          ≡ map (taken_by booking) vs
    both_all [] = refl
    both_all (v ∷ vs) = rw (both_one v, both_all vs) refl

    both :
        (vs : List (SeatStatus × Option Text)) (c : Bool)
        → (if c
            then map
                (shift is_held (SeatStatus.booked, some booking))
                (if c then map (shift is_available (SeatStatus.held, some holder)) vs else vs)
            else (if c then map (shift is_available (SeatStatus.held, some holder)) vs else vs))
          ≡ (if c then map (taken_by booking) vs else vs)
    both vs true = both_all vs
    both vs false = refl

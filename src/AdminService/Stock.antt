-- ===== src/AdminService/Stock.antt =====
-- What a new event starts with.
use high_concurrency_ticketi.Prelude.{
  eq_of_parts, suc, ℤ, pos, Bool, true, false, negate, ◌≡◌, refl, sym, ◌∙◌, ap, List, [], ◌∷◌, ◌++◌,
  map, ◌==◌, All, arith,
}
use mathlib.Core.List.{append-nil, append_assoc}
use high_concurrency_ticketi.Schema.{Text, Db, Event, Seat, SeatStatus}
use high_concurrency_ticketi.Sql.{count_where}
use high_concurrency_ticketi.Sql.Laws.{count_where-append}
use high_concurrency_ticketi.World.{
  World, Env, Moment, Error, ignore, raise_if, exec, tick, seats_mismatch,
}
use high_concurrency_ticketi.World.Ensures.{IsUp}
use high_concurrency_ticketi.World.Services.{exec-tokens}
use high_concurrency_ticketi.World.Returns.{
  Returns, Returns-bind, Returns-weaken, Returns-exec, Returns-with_tx, Returns-ignore, Returns-and,
}
use high_concurrency_ticketi.Tokens.{init_tokens, put}
use high_concurrency_ticketi.Tokens.Keeps.{KeepsTokens, bind-KeepsTokens, with_tx-KeepsTokens}
use high_concurrency_ticketi.Seats.{insert_seat, insert_each, create_seats, new_seat}
use high_concurrency_ticketi.Events
use high_concurrency_ticketi.Events.{inserted_event, insert_event, has_prices}
use high_concurrency_ticketi.AdminService.{
  length, AdminEvent, new_event, fits_capacity, create_event,
}

-- A free seat of the event.
abbrev pub IsFree : Text → Seat → Type 0
IsFree event s = (s.event_id ≡ event) × (s.status ≡ SeatStatus.available)

-- The seats of these labels were added to the table.
abbrev pub Seated : Text → List Text → Db → Db → Type 0
Seated event labels before after =
    (new : List Seat) × (after ≡ record before { seats = before.seats ++ new })
    × (map {A = Seat} (λ s. s.seat_label) new ≡ labels)
    × All (IsFree event) new

exists : Text → Db → Bool
exists event db = negate (count_where (λ e. e.id == event) db.events == 0)

insert_each-Seated :
    (event : Text) (labels : List Text) (env : Env) (w : World)
    → IsUp env
    → (count_where (λ e. e.id == event) w.db.events == 0) ≡ false
    → Returns (insert_each event labels env w) (λ _ w'. Seated event labels w.db w'.db)
unfolding insert_each exec insert_seat
insert_each-Seated event [] env w up known =
    ([], ap (λ xs. record w.db { seats = xs }) (sym (append-nil w.db.seats)), refl, tt)
insert_each-Seated event (label ∷ rest) env w up known =
    Returns-bind (exec (insert_seat event label)) (λ _. insert_each event rest) env w
      (λ _ w1. w1 ≡ inserted) (λ _ w'. Seated event (label ∷ rest) w.db w'.db) (inserts up known)
      λ _ w1 same. rw same (
        Returns-weaken env inserted (λ _ w'. Seated event (label ∷ rest) w.db w'.db)
          (insert_each event rest env inserted) (λ _ w'. Seated event rest inserted.db w'.db)
          (insert_each-Seated event rest env inserted up known)
          λ _ w2 (new, e, labelled, free). (
            seat ∷ new,
            e ∙ ap (λ xs. record w.db { seats = xs }) (append_assoc w.db.seats (seat ∷ []) new),
            ap (λ ls. label ∷ ls) labelled,
            ((refl, refl), free),
          ))
  where
    seat : Seat
    seat = new_seat (env.moment w.calls) event label

    inserted : World
    inserted = record (tick w) { db = record w.db { seats = w.db.seats ++ (seat ∷ []) } }

    inserts :
        IsUp env
        → (count_where (λ e. e.id == event) w.db.events == 0) ≡ false
        → Returns (exec (insert_seat event label) env w) (λ _ w1. w1 ≡ inserted)
    inserts up known = rw (up w.calls, known, Returns) refl

insert_each-KeepsTokens :
    (event : Text) (labels : List Text) → KeepsTokens (insert_each event labels)
unfolding insert_each
insert_each-KeepsTokens event [] = λ env w. refl
insert_each-KeepsTokens event (label ∷ rest) =
    bind-KeepsTokens (exec (insert_seat event label)) _ (exec-tokens (insert_seat event label))
      (λ _. insert_each-KeepsTokens event rest)

-- What the insertion of an event returns and leaves.
abbrev Made : Event → Env → World → Event → World → Type 0
Made e env w v w' =
    let m = env.moment (suc w.calls) in
    ((v ≡ record e { id = m.fresh; created_at = m.now; updated_at = m.now })
      × (w'.db ≡ record w.db { events = w.db.events ++ (inserted_event m e ∷ []) }))
    × (w'.tokens ≡ w.tokens)

module _ (env : Env) (up : IsUp env) where
  create-Returns :
      (e : Event) (w : World)
      → (e.metadata == 0) ≡ false
      → has_prices e ≡ true
      → Returns (Events.create e env w) (Made e env w)
  unfolding Events.create insert_event
  create-Returns e w given prices =
      Returns-and (Events.create e env w) _ (λ w'. w'.tokens ≡ w.tokens)
        (Returns-with_tx Row env up (exec (insert_event e)) w (
          Returns-exec env up (tick w) (λ v w'. Row v w'.db) (insert_event e) made
            (rw (given, prices) refl) (rw (given, prices) (refl, refl))))
        (with_tx-KeepsTokens (exec (insert_event e)) (exec-tokens (insert_event e)) env w)
    where
      m : Moment
      m = env.moment (suc w.calls)

      made : Event
      made = record e { id = m.fresh; created_at = m.now; updated_at = m.now }

      Row : Event → Db → Type 0
      Row v db =
          (v ≡ made) × (db ≡ record w.db { events = w.db.events ++ (inserted_event m e ∷ []) })

  create_seats-Returns :
      (event : Text) (labels : List Text) (w : World)
      → (count_where (λ e. e.id == event) w.db.events == 0) ≡ false
      → Returns
          (create_seats event labels env w)
          (λ _ w'. Seated event labels w.db w'.db × (w'.tokens ≡ w.tokens))
  unfolding create_seats
  create_seats-Returns event labels w known =
      Returns-and (create_seats event labels env w) _ (λ w'. w'.tokens ≡ w.tokens)
        (Returns-with_tx (λ _ db. Seated event labels w.db db) env up (insert_each event labels) w
          (insert_each-Seated event labels env (tick w) up known))
        (with_tx-KeepsTokens (insert_each event labels) (insert_each-KeepsTokens event labels) env
          w)

  init_tokens-Returns :
      (event : Text) (n : ℤ) (w : World)
      → Returns
          (init_tokens event n env w)
          (λ _ w'. (w'.db ≡ w.db) × (w'.tokens ≡ put w.tokens event n))
  unfolding init_tokens
  init_tokens-Returns event n w = rw (up w.calls, Returns) (refl, refl)

is_known :
    (m : Moment) (e : Event) (rows : List Event)
    → (count_where (λ v. v.id == m.fresh) (rows ++ (inserted_event m e ∷ [])) == 0) ≡ false
is_known m e rows =
    ground (arith, count_where-append (λ v. v.id == m.fresh) rows (inserted_event m e ∷ []))

length-labels : (new : List Seat) → length (map {A = Seat} (λ s. s.seat_label) new) ≡ length new
length-labels [] = refl
length-labels (s ∷ new) = ap (λ n. suc n) (length-labels new)

fits_capacity-eq : (x : AdminEvent) → fits_capacity x ≡ true → x.capacity ≡ pos (length x.seats)
fits_capacity-eq x fits = eq_of_parts x.capacity (pos (length x.seats)) (ground arith)

-- What a new event starts with: its row, a free seat for each label, and a token for each seat.
abbrev pub Stocked : AdminEvent → Env → World → Event → World → Type 0
Stocked x env w e w' =
    (w'.db.events ≡ w.db.events ++ (inserted_event (env.moment (suc w.calls)) (new_event x) ∷ []))
    × (e.id ≡ (env.moment (suc w.calls)).fresh)
    × (new : List Seat) × (w'.db.seats ≡ w.db.seats ++ new)
    × (map {A = Seat} (λ s. s.seat_label) new ≡ x.seats)
    × All (IsFree e.id) new
    × (w'.tokens ≡ put w.tokens e.id (pos (length new)))

-- With every service up, an event with metadata whose seats fit its capacity and whose amounts fit
-- their columns is created: the row is added, a free seat of the event for each label in their order,
-- and as many tokens as free seats.
pub create_event-Stocked :
    (x : AdminEvent) (env : Env) (w : World)
    → IsUp env
    → fits_capacity x ≡ true
    → (x.metadata == 0) ≡ false
    → has_prices (new_event x) ≡ true
    → Returns (create_event x env w) (Stocked x env w)
unfolding create_event
create_event-Stocked x env w up fits given prices =
    Returns-bind (raise_if (negate (fits_capacity x)) seats_mismatch) _ env w (λ _ w1. w1 ≡ w)
      (Stocked x env w) (rw fits refl)
      λ _ w0 same.
        Returns-bind (Events.create (new_event x)) _ env w0 (Made (new_event x) env w)
          (Stocked x env w) (rw same (create-Returns env up (new_event x) w given prices))
          λ e w1 ((is_e, db1), tokens1).
            Returns-bind (ignore {E = Error} {F = Error} (create_seats e.id x.seats)) _ env w1
              (λ _ w2. Seated e.id x.seats w1.db w2.db × (w2.tokens ≡ w1.tokens)) (Stocked x env w)
              (Returns-ignore Error (create_seats e.id x.seats) env w1 _ (
                create_seats-Returns env up e.id x.seats w1
                  (rw (db1, is_e) (is_known (env.moment (suc w.calls)) (new_event x) w.db.events))))
              λ _ w2 ((new, seated, labelled, free), tokens2).
                Returns-bind (ignore {E = Error} {F = Error} (init_tokens e.id e.capacity)) _ env w2
                  (λ _ w3. (w3.db ≡ w2.db) × (w3.tokens ≡ put w2.tokens e.id e.capacity))
                  (Stocked x env w)
                  (Returns-ignore Error (init_tokens e.id e.capacity) env w2 _
                    (init_tokens-Returns env up e.id e.capacity w2))
                  λ _ w3 (db3, tokens3).
                    let stock : e.capacity ≡ pos (length new) =
                      ap (λ (v : Event). v.capacity) is_e
                      ∙ (fits_capacity-eq x fits
                          ∙ ap pos (sym (ap length labelled) ∙ length-labels new)) in
                    (
                      ap events_of db3 ∙ (ap events_of seated ∙ ap events_of db1),
                      ap (λ (v : Event). v.id) is_e,
                      new,
                      ap seats_of db3
                          ∙ (ap seats_of seated ∙ ap (λ xs. xs ++ new) (ap seats_of db1)),
                      labelled,
                      free,
                      tokens3
                          ∙ (ap (λ t. put t e.id e.capacity) (tokens2 ∙ tokens1)
                              ∙ ap (λ n. put w.tokens e.id n) stock),
                    )
  where
    events_of : Db → List Event
    events_of db = db.events

    seats_of : Db → List Seat
    seats_of db = db.seats

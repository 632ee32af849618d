-- ===== src/Reconcile.antt =====
-- The job that compares the counters of Postgres with the tokens in Redis: cmd/reconcile/main.go.
pub mod Restored
pub mod Job
pub mod Overfill
use high_concurrency_ticketi.Prelude.{
  ℕ, zero, suc, ℤ, pos, negsuc, neg_part, ◌-ℤ◌, leb_ℤ, ltb_ℤ, Bool, ◌&&◌, List, [], ◌∷◌, ◌++◌, ⊤,
  ◌==◌, if◌then◌else◌,
}
use high_concurrency_ticketi.Schema.{Text, Db, Event, EventCapacity}
use high_concurrency_ticketi.Sql.{select_where, count_where}
use high_concurrency_ticketi.World.{
  Moment, Action, Error, Result, ok, err, pure, ignore, attempt, exec, query, ◌>>=◌, ◌>>◌,
  unique_violation,
}
use high_concurrency_ticketi.Tokens.{remaining, release, reserve}
use high_concurrency_ticketi.EventsService.{count_or_zero}

abbrev pub is_of_event : Text → EventCapacity → Bool
is_of_event id r = r.event_id == id

-- `LEFT JOIN event_capacity … WHERE ec.event_id IS NULL`
abbrev pub has_no_row : Db → Event → Bool
has_no_row db e = count_where (is_of_event e.id) db.capacities == 0

abbrev pub capacity_row : Moment → Event → EventCapacity
capacity_row m e = record {
  event_id = e.id;
  capacity = e.capacity;
  reserved_count = e.reserved;
  held_count = pos 0;
  updated_at = m.now;
}

-- INSERT INTO event_capacity, under its primary key.
unfoldable pub insert_capacity : Event → Moment → Db → Result Error ⊤ × Db
insert_capacity e m db =
    if has_no_row db e
    then (ok tt, record db { capacities = db.capacities ++ (capacity_row m e ∷ []) })
    else (err unique_violation, db)

-- The first loop; an error is logged.
unfoldable pub insert_missing : List Event → Action Error ⊤
unfolding exec insert_capacity
insert_missing [] = pure tt
insert_missing (e ∷ rest) =
    ignore {E = Error} {F = Error} (exec (insert_capacity e)) >>= λ _. insert_missing rest

-- `for i := 0; i < -diff; i++ { _, _ = tokens.Reserve(ctx, id, 1) }`
unfoldable pub reserve_each : Text → ℕ → Action Error ⊤
unfolding reserve
reserve_each id zero = pure tt
reserve_each id (suc n) =
    ignore {E = Error} {F = Error} (reserve id (pos 1)) >>= λ _. reserve_each id n

abbrev pub desired : EventCapacity → ℤ
desired r = r.capacity -ℤ r.reserved_count

-- The body of the second loop, once the tokens were read.
unfoldable pub correct : Text → ℤ → Action Error ⊤
unfolding release reserve_each
correct id diff =
    if ltb_ℤ (pos 0) diff
    then ignore {E = Error} {F = Error} (release id diff)
    else reserve_each id (neg_part diff)

unfoldable pub fix_row : EventCapacity → Action Error ⊤
unfolding remaining correct
fix_row r = do
  left ← attempt (remaining r.event_id)
  correct r.event_id (desired r -ℤ count_or_zero left)

unfoldable pub fix_rows : List EventCapacity → Action Error ⊤
unfolding fix_row
fix_rows [] = pure tt
fix_rows (r ∷ rest) = fix_row r >>= λ _. fix_rows rest

-- The job; `log.Fatal` ends it with the error.
unfoldable pub reconcile : Action Error ⊤
unfolding query insert_missing fix_rows
reconcile = do
  missing ← query (λ m db. ok (select_where (has_no_row db) db.events))
  insert_missing missing
  rows ← query (λ m db. ok db.capacities)
  fix_rows rows

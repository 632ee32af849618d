-- ===== src/Waitlist.antt =====
-- The repository of the waitlist: internal/store/waitlist/waitlist.go.
pub mod Order
pub mod Queue
use high_concurrency_ticketi.Prelude.{
  ℕ, suc, ◌+◌, Bool, true, false, ◌&&◌, Option, none, some, List, [], ◌∷◌, ◌++◌, ⊤, ◌==◌, leb,
  negate, if◌then◌else◌,
}
use high_concurrency_ticketi.Schema.{Text, Time, Db, WaitlistEntry, empty_text}
use high_concurrency_ticketi.Sql.{
  select_where, first_where, update_where, delete_where, count_where, max_where, order_by, page,
  first_row,
}
use high_concurrency_ticketi.World.{
  Moment, Action, Error, Result, ok, err, pure, ◌>>=◌, ◌>>◌, exec, query, require_rows,
  foreign_key_violation,
}

-- `WHERE event_id = $1 AND opted_out = false`
abbrev pub is_active : Text → WaitlistEntry → Bool
is_active event r = (r.event_id == event) && negate r.opted_out

abbrev pub new_entry : Moment → Text → Text → ℕ → WaitlistEntry
new_entry m event user position = record {
  id = m.fresh;
  event_id = event;
  user_id = user;
  position = position;
  opted_out = false;
  notified_at = none;
  created_at = m.now;
}

-- INSERT INTO waitlist, under the foreign keys to events and users.
unfoldable pub insert_entry : Text → Text → ℕ → Moment → Db → Result Error Text × Db
insert_entry event user position m db =
    if negate (count_where (λ r. r.id == event) db.events == 0)
      && negate (count_where (λ r. r.id == user) db.users == 0)
    then (
      ok m.fresh,
      record db { waitlist = db.waitlist ++ (new_entry m event user position ∷ []) },
    )
    else (err foreign_key_violation, db)

-- The position after the last active one.
abbrev pub next_position : Text → List WaitlistEntry → ℕ
next_position event rows = max_where (is_active event) (λ r. r.position) rows + 1

-- Two statements, in no transaction.
unfoldable pub add : Text → Text → Action Error ℕ
unfolding query exec insert_entry
add event user = do
  position ← query (λ m db. ok (next_position event db.waitlist))
  id ← exec (insert_entry event user position)
  pure position

unfoldable pub remove : Text → Action Error ⊤
unfolding exec
remove id = do
  n ← exec (λ m db. (
    ok (count_where (λ r. r.id == id) db.waitlist),
    record db { waitlist = delete_where (λ r. r.id == id) db.waitlist },
  ))
  require_rows n

abbrev update_waitlist :
    (WaitlistEntry → Bool) → (WaitlistEntry → WaitlistEntry) → Db → Result Error ℕ × Db
update_waitlist p f db =
    (ok (count_where p db.waitlist), record db { waitlist = update_where p f db.waitlist })

abbrev pub is_of : Text → Text → WaitlistEntry → Bool
is_of event user r = (r.event_id == event) && (r.user_id == user)

unfoldable pub opt_out : Text → Text → Action Error ⊤
unfolding exec
opt_out event user = do
  n ← exec (λ m db. update_waitlist (is_of event user) (λ r. record r { opted_out = true }) db)
  require_rows n

-- `ORDER BY position ASC`
abbrev pub by_position : WaitlistEntry → WaitlistEntry → Bool
by_position x y = leb x.position y.position

-- The row of `ORDER BY position ASC LIMIT 1`.
abbrev pub head_of_line : Text → List WaitlistEntry → Option WaitlistEntry
head_of_line event rows = first_row (order_by by_position (select_where (is_active event) rows))

-- The Go results `id, userID, position`; two empty texts and 0 where nobody waits.
abbrev pub next_result : Option WaitlistEntry → Text × Text × ℕ
next_result none = (empty_text, empty_text, 0)
next_result (some r) = (r.id, r.user_id, r.position)

unfoldable pub next_active : Text → Action Error (Text × Text × ℕ)
unfolding query
next_active event = query λ m db. ok (next_result (head_of_line event db.waitlist))

unfoldable pub count : Text → Action Error ℕ
unfolding query
count event = query λ m db. ok (count_where (is_active event) db.waitlist)

-- The timestamps are scanned into Go strings, which is taken to succeed.
unfoldable pub list_by_event : Text → ℕ → ℕ → Action Error (List WaitlistEntry)
unfolding query
list_by_event event limit offset = query λ m db.
    ok (
      page limit offset
        (order_by by_position (select_where (λ r. r.event_id == event) db.waitlist)))

unfoldable pub mark_notified : Text → Action Error ⊤
unfolding exec
mark_notified id = do
  n ←
      exec
        (λ m db. update_waitlist (λ r. r.id == id) (λ r. record r { notified_at = some m.now }) db)
  require_rows n

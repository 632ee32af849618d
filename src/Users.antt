-- ===== src/Users.antt =====
-- The repository of users: internal/store/users/users.go.
use high_concurrency_ticketi.Prelude.{
  ℕ, Bool, true, ◌&&◌, Option, none, some, List, [], ◌∷◌, ◌++◌, map, length, ⊤, ◌==◌, leb,
  if◌then◌else◌,
}
use high_concurrency_ticketi.Schema.{Text, Db, User, BookingRow, Role, empty_text}
use high_concurrency_ticketi.Sql.{
  first_where, update_where, delete_where, count_where, order_by, page,
}
use high_concurrency_ticketi.World.{
  Moment, Action, Error, Result, ok, err, ◌>>=◌, exec, query, require_rows, unique_violation,
}

abbrev pub has_user_id : Text → User → Bool
has_user_id id u = u.id == id

abbrev pub has_email : Text → User → Bool
has_email email u = u.email == email

abbrev pub inserted_user : Moment → User → User
inserted_user m u = record u {
  id = m.fresh;
  oauth_provider = empty_text;
  oauth_sub = empty_text;
  created_at = m.now;
  updated_at = m.now;
}

-- INSERT INTO users, under the unique key on the e-mail address.
unfoldable pub insert_user : User → Moment → Db → Result Error User × Db
insert_user u m db =
    if count_where (has_email u.email) db.users == 0
    then (
      ok (record u { id = m.fresh; created_at = m.now; updated_at = m.now }),
      record db { users = db.users ++ (inserted_user m u ∷ []) },
    )
    else (err unique_violation, db)

unfoldable pub create : User → Action Error User
unfolding exec insert_user
create u = exec (insert_user u)

unfoldable pub get_by_id : Text → Action Error (Option User)
unfolding query
get_by_id id = query λ m db. ok (first_where (has_user_id id) db.users)

unfoldable pub get_by_email : Text → Action Error (Option User)
unfolding query
get_by_email email = query λ m db. ok (first_where (has_email email) db.users)

abbrev pub update_users : (User → Bool) → (User → User) → Moment → Db → Result Error ℕ × Db
update_users p f m db = (
  ok (count_where p db.users),
  record db {
    users = update_where p (λ u. let v = f u in record v { updated_at = m.now }) db.users;
  },
)

unfoldable pub update_password : Text → Text → Action Error ⊤
unfolding exec
update_password id hash = do
  n ← exec (update_users (has_user_id id) (λ u. record u { password_hash = hash }))
  require_rows n

unfoldable pub update_profile : Text → Text → Text → Action Error ⊤
unfolding exec
update_profile id name phone = do
  n ← exec (update_users (has_user_id id) (λ u. record u { name = name; phone = phone }))
  require_rows n

unfoldable pub update_role : Text → Role → Action Error ⊤
unfolding exec
update_role id role = do
  n ← exec (update_users (has_user_id id) (λ u. record u { role = role }))
  require_rows n

-- `ORDER BY created_at DESC`
abbrev newest_first : User → User → Bool
newest_first x y = leb y.created_at x.created_at

-- The password hash is not selected.
unfoldable pub list : ℕ → ℕ → Action Error (List User)
unfolding query
list limit offset = query λ m db. ok (
    map {A = User} (λ u. record u { password_hash = empty_text })
      (page limit offset (order_by newest_first db.users)))

unfoldable pub count : Action Error ℕ
unfolding query
count = query λ m db. ok (length db.users)

abbrev clear_user : Text → BookingRow → BookingRow
clear_user id r = elim r.user_id [
  | none ↦ r
  | some u ↦ if u == id then record r { user_id = none } else r
]

-- DELETE FROM users of the rows with `p` and the id, with what the foreign keys do: a booking loses
-- its user, likes and waitlist entries go.
unfoldable pub delete_rows : (User → Bool) → Text → Db → Result Error ℕ × Db
delete_rows p id db = (
  ok (count_where (λ u. has_user_id id u && p u) db.users),
  (if count_where (λ u. has_user_id id u && p u) db.users == 0 then db else record db {
    users = delete_where (λ u. has_user_id id u && p u) db.users;
    event_likes = delete_where (λ l. l.user_id == id) db.event_likes;
    bookings = map (clear_user id) db.bookings;
    waitlist = delete_where (λ r. r.user_id == id) db.waitlist;
  }),
)

unfoldable pub delete : Text → Action Error ⊤
unfolding exec delete_rows
delete id = do n ← exec (λ m db. delete_rows (λ u. true) id db); require_rows n

-- ===== src/AdminStore.antt =====
-- The repository of the administrator: internal/store/admin/admin.go, without its reports and the
-- update whose columns come from the request.
pub mod Laws
pub mod Reports
use high_concurrency_ticketi.Prelude.{ℕ, Bool, true, ◌&&◌, ◌||◌, negate, ⊤, ◌==◌, if◌then◌else◌}
use high_concurrency_ticketi.Schema.{
  Text, Db, BookingRow, BookingStatus, EventStatus, WaitlistEntry, Role, User, is_pending,
  is_booked, is_admin,
}
use high_concurrency_ticketi.Sql.{count_where, update_where}
use high_concurrency_ticketi.World.{
  Moment, Action, Error, Result, ok, pure, ◌>>=◌, exec, require_rows, with_tx,
}
use high_concurrency_ticketi.Bookings.{has_event}
use high_concurrency_ticketi.Users.{has_user_id, update_users, delete_rows}
use high_concurrency_ticketi.Tables.{update_bookings, update_events, has_event_id}

-- `status IN ('pending', 'booked')`
abbrev pub is_open : BookingStatus → Bool
is_open s = is_pending s || is_booked s

-- `UPDATE waitlist SET opted_out = true WHERE event_id = $1`
abbrev pub clear_waitlist : Text → Moment → Db → Result Error ℕ × Db
clear_waitlist event m db = (
  ok (count_where (λ r. r.event_id == event) db.waitlist),
  record db {
    waitlist =
        update_where (λ r. r.event_id == event) (λ r. record r { opted_out = true }) db.waitlist;
  },
)

-- The body of the transaction.
unfoldable pub cancel_event_body : Text → Action Error ⊤
unfolding exec
cancel_event_body event = do
  n ← exec (update_events (has_event_id event) (λ e. record e { status = EventStatus.cancelled }))
  k ← exec (
      update_bookings (λ r. has_event event r && is_open r.status)
        (λ r. record r { status = BookingStatus.cancelled }))
  l ← exec (clear_waitlist event)
  pure tt

unfoldable pub cancel_event : Text → Action Error ⊤
unfolding with_tx cancel_event_body
cancel_event event = with_tx (cancel_event_body event)

unfoldable pub create_admin_from_user : Text → Action Error ⊤
unfolding exec
create_admin_from_user id = do
  n ← exec (update_users (has_user_id id) (λ u. record u { role = Role.admin }))
  require_rows n

unfoldable pub remove_admin : Text → Action Error ⊤
unfolding exec
remove_admin id = do
  n ←
      exec (
        update_users (λ u. has_user_id id u && is_admin u.role)
          (λ u. record u { role = Role.user }))
  require_rows n

unfoldable pub remove_user : Text → Action Error ⊤
unfolding exec delete_rows
remove_user id = do
  n ← exec (λ m db. delete_rows (λ u. negate (is_admin u.role)) id db)
  require_rows n

-- ===== src/Api/Admin.antt =====
-- The routes of the administrator: internal/api/admin/admin.go.
use high_concurrency_ticketi.Prelude.{◌-◌, ◌*◌, true, Option, none, some, List, ⊤}
use high_concurrency_ticketi.Schema.{Text, Time, Event, User, second}
use high_concurrency_ticketi.World.{Action, Error, pure, time_now, ◌>>=◌}
use high_concurrency_ticketi.Auth.{Crypto}
use high_concurrency_ticketi.Api.{Reply, failed, serve, always, with_body, guarded}
use high_concurrency_ticketi.AdminStore.Reports.{AnalyticsSummary, FieldUpdate}
use high_concurrency_ticketi.AdminService
use high_concurrency_ticketi.AdminService.{AdminEvent}

unfoldable pub create_event : Option AdminEvent → Action Error (Reply Event)
unfolding AdminService.create_event serve
create_event body = with_body body λ x. serve (always 500) 201 (AdminService.create_event x)

-- A bound of `summary`: missing, not a time, or a time.
pub data Bound : Type 0 where
  missing unreadable : Bound
  at : Time → Bound

abbrev bound_or : Time → Bound → Option Time
bound_or default missing = some default
bound_or default unreadable = none
bound_or default (at t) = some t

abbrev summary_between : Option Time → Option Time → Action Error (Reply AnalyticsSummary)
summary_between none to = pure (failed 400)
summary_between (some from) none = pure (failed 400)
summary_between (some from) (some to) = serve (always 500) 200 (AdminService.get_summary from to)

-- The last 24 hours, if no bound is given.
unfoldable pub summary : Bound → Bound → Action Error (Reply AnalyticsSummary)
unfolding AdminService.get_summary serve
summary from to = do
  now ← time_now
  summary_between (bound_or (now - 86400 * second) from) (bound_or now to)

unfoldable pub update_event : Text → Option (List FieldUpdate) → Action Error (Reply ⊤)
unfolding AdminService.update_event serve
update_event id body =
    with_body body λ updates. serve (always 500) 200 (AdminService.update_event id updates)

unfoldable pub cancel_event : Text → Action Error (Reply ⊤)
unfolding AdminService.cancel_event serve
cancel_event id = serve (always 500) 200 (AdminService.cancel_event id)

unfoldable pub create_admin : Text → Action Error (Reply ⊤)
unfolding AdminService.create_admin_from_user serve
create_admin user = serve (always 500) 200 (AdminService.create_admin_from_user user)

unfoldable pub remove_admin : Text → Action Error (Reply ⊤)
unfolding AdminService.remove_admin serve
remove_admin user = serve (always 500) 200 (AdminService.remove_admin user)

unfoldable pub remove_user : Text → Action Error (Reply ⊤)
unfolding AdminService.remove_user serve
remove_user user = serve (always 500) 200 (AdminService.remove_user user)

unfoldable pub get_user_by_email : Option Text → Action Error (Reply (Option User))
unfolding AdminService.get_user_by_email serve
get_user_by_email body =
    with_body body λ email. serve (always 500) 200 (AdminService.get_user_by_email email)

-- The group of routes that `Register` puts behind the middleware for administrators.
unfoldable pub admin_route :
    {Token A : Type 0}
    → Crypto Token
    → Text
    → Option Token
    → Action Error (Reply A)
    → Action Error (Reply A)
unfolding guarded
admin_route c secret header handler = guarded c secret true header (λ uid. handler)

-- ===== src/EventsService.antt =====
-- The service of events and the check for events that have ended: internal/service/events/events.go,
-- internal/service/events/status_checker.go.
use high_concurrency_ticketi.Prelude.{ℕ, ℤ, pos, Bool, Option, List, ⊤}
use high_concurrency_ticketi.Schema.{Text, Time, Event}
use high_concurrency_ticketi.World.{Action, Error, Result, ok, err, panic, pure, attempt, ◌>>=◌}
use high_concurrency_ticketi.Tokens.{remaining}
use high_concurrency_ticketi.Events

unfoldable pub list :
    (Text → Text → Bool) → ℕ → ℕ → Text → Option Time → Option Time → Action Error (List Event)
unfolding Events.list
list like limit offset q from to = Events.list like limit offset q from to

unfoldable pub list_all : ℕ → ℕ → Action Error (List Event)
unfolding Events.list_all
list_all limit offset = Events.list_all limit offset

unfoldable pub list_upcoming : ℕ → ℕ → Action Error (List Event)
unfolding Events.list_upcoming
list_upcoming limit offset = Events.list_upcoming limit offset

unfoldable pub list_popular : ℕ → ℕ → Action Error (List Event)
unfolding Events.list_popular
list_popular limit offset = Events.list_popular limit offset

-- `rem, _ := s.tokens.Remaining(…)`
abbrev pub count_or_zero : Result Error ℤ → ℤ
count_or_zero (ok n) = n
count_or_zero (err _) = pos 0
count_or_zero panic = pos 0

unfoldable pub get : Text → Action Error (Option Event × ℤ)
unfolding Events.get remaining
get id = do e ← Events.get id; left ← attempt (remaining id); pure (e, count_or_zero left)

unfoldable pub like_event : Text → Text → Action Error ⊤
unfolding Events.like_event
like_event event user = Events.like_event event user

unfoldable pub unlike_event : Text → Text → Action Error ⊤
unfolding Events.unlike_event
unlike_event event user = Events.unlike_event event user

unfoldable pub is_liked : Text → Text → Action Error Bool
unfolding Events.is_liked
is_liked event user = Events.is_liked event user

unfoldable pub get_available_seats : Text → Action Error (List Text)
unfolding Events.get_available_seats
get_available_seats event = Events.get_available_seats event

unfoldable pub check_and_update_expired_events : Action Error ℕ
unfolding Events.update_expired_events
check_and_update_expired_events = Events.update_expired_events

-- ===== src/Api/Events.antt =====
-- The routes of events: internal/api/events/events.go.
use high_concurrency_ticketi.Prelude.{ℤ, Bool, false, Option, List, ⊤, ◌==◌, if◌then◌else◌}
use high_concurrency_ticketi.Schema.{Text, Time, Event, empty_text}
use high_concurrency_ticketi.World.{Action, Error, pure}
use high_concurrency_ticketi.Auth.{Crypto}
use high_concurrency_ticketi.Api.{Reply, failed, serve, always, Param, number_or, guarded}
use high_concurrency_ticketi.EventsService

-- A bound on the time that does not parse is dropped, as one that is missing.
unfoldable pub list :
    (Text → Text → Bool)
    → Param
    → Param
    → Text
    → Option Time
    → Option Time
    → Action Error (Reply (List Event))
unfolding EventsService.list serve
list like limit offset q from to =
    serve (always 500) 200
      (EventsService.list like (number_or 20 limit) (number_or 0 offset) q from to)

unfoldable pub list_all : Param → Param → Action Error (Reply (List Event))
unfolding EventsService.list_all serve
list_all limit offset =
    serve (always 500) 200 (EventsService.list_all (number_or 20 limit) (number_or 0 offset))

unfoldable pub list_upcoming : Param → Param → Action Error (Reply (List Event))
unfolding EventsService.list_upcoming serve
list_upcoming limit offset =
    serve (always 500) 200 (EventsService.list_upcoming (number_or 20 limit) (number_or 0 offset))

unfoldable pub list_popular : Param → Param → Action Error (Reply (List Event))
unfolding EventsService.list_popular serve
list_popular limit offset =
    serve (always 500) 200 (EventsService.list_popular (number_or 20 limit) (number_or 0 offset))

-- An event that is not there is answered with 200 and null.
unfoldable pub get : Text → Action Error (Reply (Option Event × ℤ))
unfolding EventsService.get serve
get id = serve (always 404) 200 (EventsService.get id)

unfoldable pub get_available_seats : Text → Action Error (Reply (List Text))
unfolding EventsService.get_available_seats serve
get_available_seats id = serve (always 500) 200 (EventsService.get_available_seats id)

unfoldable pub like_event : Text → Text → Action Error (Reply ⊤)
unfolding EventsService.like_event serve
like_event id user =
    if user == empty_text
    then pure (failed 401)
    else serve (always 500) 200 (EventsService.like_event id user)

unfoldable pub unlike_event : Text → Text → Action Error (Reply ⊤)
unfolding EventsService.unlike_event serve
unlike_event id user =
    if user == empty_text
    then pure (failed 401)
    else serve (always 500) 200 (EventsService.unlike_event id user)

module _ {Token : Type 0} (c : Crypto Token) (secret : Text) (header : Option Token) where
  unfoldable pub like_route : Text → Action Error (Reply ⊤)
  unfolding like_event guarded
  like_route id = guarded c secret false header (λ uid. like_event id uid)

  unfoldable pub unlike_route : Text → Action Error (Reply ⊤)
  unfolding unlike_event guarded
  unlike_route id = guarded c secret false header (λ uid. unlike_event id uid)

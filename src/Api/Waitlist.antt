-- ===== src/Api/Waitlist.antt =====
-- The routes of the waitlist: internal/api/waitlist/waitlist.go.
use high_concurrency_ticketi.Prelude.{ℕ, false, Option, List, ⊤}
use high_concurrency_ticketi.Schema.{Text, WaitlistEntry}
use high_concurrency_ticketi.World.{Action, Error}
use high_concurrency_ticketi.Auth.{Crypto}
use high_concurrency_ticketi.Api.{Reply, serve, always, Param, number_or, guarded}
use high_concurrency_ticketi.Waitlist

unfoldable pub join : Text → Text → Action Error (Reply ℕ)
unfolding Waitlist.add serve
join event user = serve (always 500) 200 (Waitlist.add event user)

unfoldable pub optout : Text → Text → Action Error (Reply ⊤)
unfolding Waitlist.opt_out serve
optout event user = serve (always 500) 200 (Waitlist.opt_out event user)

unfoldable pub get_count : Text → Action Error (Reply ℕ)
unfolding Waitlist.count serve
get_count event = serve (always 500) 200 (Waitlist.count event)

unfoldable pub list : Text → Param → Param → Action Error (Reply (List WaitlistEntry))
unfolding Waitlist.list_by_event serve
list event limit offset =
    serve (always 500) 200 (Waitlist.list_by_event event (number_or 50 limit) (number_or 0 offset))

module _ {Token : Type 0} (c : Crypto Token) (secret : Text) (header : Option Token) where
  unfoldable pub join_route : Text → Action Error (Reply ℕ)
  unfolding join guarded
  join_route event = guarded c secret false header (λ uid. join event uid)

  unfoldable pub optout_route : Text → Action Error (Reply ⊤)
  unfolding optout guarded
  optout_route event = guarded c secret false header (λ uid. optout event uid)

-- ===== src/AdminService.antt =====
-- The service of the administrator: internal/service/admin/admin.go.
pub mod Stock
use high_concurrency_ticketi.Prelude.{
  ℕ, ℤ, pos, Bool, true, false, negate, ◌&&◌, Option, none, some, List, [], ◌∷◌, ⊤, leb_ℤ,
  if◌then◌else◌, length,
}
use high_concurrency_ticketi.Money.{Money}
use high_concurrency_ticketi.Schema.{
  Text, Time, Event, EventStatus, Booking, User, is_paid, empty_text,
}
use high_concurrency_ticketi.World.{
  Action, Error, Result, ok, err, panic, Mail, pure, raise_if, or_raise, deref, attempt, ignore,
  ◌>>=◌, ◌>>◌, seats_mismatch, event_not_found,
}
use high_concurrency_ticketi.Outside.{send}
use high_concurrency_ticketi.Bookings.{list_by_event}
use high_concurrency_ticketi.Tokens.{init_tokens}
use high_concurrency_ticketi.Events
use high_concurrency_ticketi.Users
use high_concurrency_ticketi.Seats
use high_concurrency_ticketi.AdminStore
use high_concurrency_ticketi.AdminStore.Reports.{
  AnalyticsSummary, FieldUpdate, get_summary as stored_summary, update_event as update_stored,
}

pub record AdminEvent : Type 0 where
  pub name : Text
  pub venue : Text
  pub category : Text
  pub start_time : Time
  pub end_time : Time
  pub capacity : ℤ
  -- 0 where the request has none
  pub metadata : Text
  pub ticket_price : Money
  pub cancellation_fee : Money
  pub maximum_tickets_per_booking : ℤ
  pub seats : List Text

-- The struct that is inserted; the other fields are zero.
abbrev pub new_event : AdminEvent → Event
new_event x = record {
  id = empty_text;
  name = x.name;
  venue = x.venue;
  start_time = x.start_time;
  end_time = x.end_time;
  category = x.category;
  capacity = x.capacity;
  reserved = pos 0;
  metadata = x.metadata;
  status = EventStatus.upcoming;
  ticket_price = x.ticket_price;
  cancellation_fee = x.cancellation_fee;
  likes = pos 0;
  maximum_tickets_per_booking = x.maximum_tickets_per_booking;
  created_at = 0;
  updated_at = 0;
}

-- `len(in.Seats) == in.Capacity`
abbrev pub fits_capacity : AdminEvent → Bool
fits_capacity x = leb_ℤ (pos (length x.seats)) x.capacity && leb_ℤ x.capacity (pos (length x.seats))

unfoldable pub create_event : AdminEvent → Action Error Event
unfolding Events.create Seats.create_seats init_tokens
create_event x = do
  raise_if (negate (fits_capacity x)) seats_mismatch
  e ← Events.create (new_event x)
  ignore (Seats.create_seats e.id x.seats)
  ignore (init_tokens e.id e.capacity)
  pure e

unfoldable pub get_summary : Time → Time → Action Error AnalyticsSummary
unfolding stored_summary
get_summary from to = stored_summary from to

-- `user, err := s.users.GetByID(…)`: nil after an error, too.
abbrev user_or_nil : Result Error (Option User) → Option User
user_or_nil (ok o) = o
user_or_nil (err _) = none
user_or_nil panic = none

-- The loop over the bookings.
unfoldable pub notify_paid : Event → List Booking → Action Error ⊤
unfolding Users.get_by_id send
notify_paid e [] = pure tt
notify_paid e (b ∷ rest) =
    (if is_paid b.payment_status
      then (attempt (Users.get_by_id b.user_id) >>= λ found. deref (user_or_nil found) >>= λ u.
          ignore (send (Mail.event_cancellation u.email e.name e.ticket_price)))
      else pure tt)
    >>= λ _. notify_paid e rest

unfoldable pub cancel_event : Text → Action Error ⊤
unfolding Events.get AdminStore.cancel_event list_by_event notify_paid
cancel_event id = do
  found ← Events.get id
  e ← or_raise found event_not_found
  AdminStore.cancel_event id
  bookings ← list_by_event id 1000 0
  notify_paid e bookings

unfoldable pub update_event : Text → List FieldUpdate → Action Error ⊤
unfolding update_stored
update_event id updates = update_stored id updates

unfoldable pub create_admin_from_user : Text → Action Error ⊤
unfolding AdminStore.create_admin_from_user
create_admin_from_user id = AdminStore.create_admin_from_user id

unfoldable pub remove_admin : Text → Action Error ⊤
unfolding AdminStore.remove_admin
remove_admin id = AdminStore.remove_admin id

unfoldable pub remove_user : Text → Action Error ⊤
unfolding AdminStore.remove_user
remove_user id = AdminStore.remove_user id

unfoldable pub get_user_by_email : Text → Action Error (Option User)
unfolding Users.get_by_email
get_user_by_email email = Users.get_by_email email

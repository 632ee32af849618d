-- ===== src/Samples.antt =====
-- The data that the tests run on: a small database, a world around it, and services that are up.
use high_concurrency_ticketi.Prelude.{
  arith, refl, ℕ, ◌+◌, pos, false, Option, none, some, [], ◌∷◌, ◌==◌, if◌then◌else◌,
}
use high_concurrency_ticketi.Money.{cents, zero_cents}
use high_concurrency_ticketi.Schema.{
  Text, Db, BookingRow, BookingStatus, PaymentStatus, Event, EventStatus, Seat, SeatStatus, User,
  Role, WaitlistEntry, labels,
}
use high_concurrency_ticketi.BookingTx.Balance.{IsConsistent}
use high_concurrency_ticketi.World.Ensures.{IsUp}
use high_concurrency_ticketi.World.{World, Env}

abbrev pub always_up : Env
always_up = record { fault = λ n. false; moment = λ n. record { fresh = 100 + n; now = 1000 + n } }

pub always_up-IsUp : IsUp always_up
always_up-IsUp n = refl

-- The call of the given number fails.
abbrev pub fails_at : ℕ → Env
fails_at k = record {
  fault = λ n. n == k;
  moment = λ n. record { fresh = 100 + n; now = 1000 + n };
}

abbrev pub alice : User
alice = record {
  id = 1;
  name = 11;
  email = 21;
  phone = 31;
  password_hash = 41;
  oauth_provider = 0;
  oauth_sub = 0;
  role = Role.user;
  created_at = 1;
  updated_at = 1;
}

abbrev pub bob : User
bob = record alice { id = 2; name = 12; email = 22; phone = 32; password_hash = 42 }

-- One booking of it is booked.
abbrev pub concert : Event
concert = record {
  id = 7;
  name = 17;
  venue = 27;
  start_time = 2000;
  end_time = 3000;
  category = 37;
  capacity = pos 10;
  reserved = pos 1;
  metadata = 45;
  status = EventStatus.upcoming;
  ticket_price = cents (pos 2500);
  cancellation_fee = cents (pos 300);
  likes = pos 0;
  maximum_tickets_per_booking = pos 4;
  created_at = 1;
  updated_at = 1;
}

abbrev pub theatre : Event
theatre = record concert { id = 8; name = 18; reserved = pos 0; end_time = 500 }

abbrev pub waiting_row : BookingRow
waiting_row = record {
  id = 51;
  user_id = some 1;
  event_id = 7;
  status = BookingStatus.pending;
  seats = labels (61 ∷ 62 ∷ []);
  idempotency_key = some 71;
  amount_paid = zero_cents;
  payment_status = PaymentStatus.pending;
  created_at = 5;
  updated_at = 5;
  version = 1;
}

abbrev pub booked_row : BookingRow
booked_row = record waiting_row {
  id = 52;
  user_id = some 2;
  status = BookingStatus.booked;
  seats = labels (63 ∷ []);
  idempotency_key = some 72;
  amount_paid = cents (pos 2500);
  payment_status = PaymentStatus.paid;
}

abbrev pub cancelled_row : BookingRow
cancelled_row = record waiting_row {
  id = 53;
  status = BookingStatus.cancelled;
  idempotency_key = some 73;
}

abbrev pub seat : Text → SeatStatus → Option Text → Seat
seat label status holder = record {
  id = 80 + label;
  event_id = 7;
  seat_label = label;
  status = status;
  held_until = none;
  held_by_booking = holder;
  created_at = 1;
  updated_at = 1;
}

abbrev pub bob_waits : WaitlistEntry
bob_waits = record {
  id = 91;
  event_id = 7;
  user_id = 2;
  position = 1;
  opted_out = false;
  notified_at = none;
  created_at = 6;
}

abbrev pub shop : Db
shop = record {
  users = alice ∷ bob ∷ [];
  events = concert ∷ theatre ∷ [];
  event_likes = [];
  bookings = waiting_row ∷ booked_row ∷ cancelled_row ∷ [];
  waitlist = bob_waits ∷ [];
  seats =
      seat 61 SeatStatus.available none
      ∷ seat 62 SeatStatus.available none
      ∷ seat 63 SeatStatus.booked (some 52)
      ∷ [];
  capacities = [];
}

pub shop-IsConsistent : IsConsistent shop
shop-IsConsistent = record { unique = λ id. ground arith; balanced = (refl, (refl, tt)) }

-- Ten tokens for the concert, less the one that is booked.
abbrev pub town : World
town = record {
  calls = 0;
  db = shop;
  tokens = λ e. if e == 7 then some (pos 9) else none;
  timeouts = λ e b. none;
  otps = λ e. none;
  windows = λ k. record { members = []; expires = 0 };
  dead_letters = [];
  committed = [];
  topic = [];
  outbox = [];
}

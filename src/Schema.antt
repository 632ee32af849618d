-- ===== src/Schema.antt =====
-- The rows of the Postgres tables (cmd/migrate/migrations/000001_init.up.sql) and the Go structs
-- that they are scanned into (internal/store/*/*.go). An id, a seat label or any other text is only
-- compared by the code, so it stands as a number, with 0 for the empty text.
use high_concurrency_ticketi.Money.{Money}
use high_concurrency_ticketi.Prelude.{ℕ, ℤ, Bool, true, false, Option, none, some, List, []}

abbrev pub Text : Type 0
Text = ℕ

-- In nanoseconds.
abbrev pub Time : Type 0
Time = ℕ

abbrev pub second : Time
second = 1_000_000_000

abbrev pub empty_text : Text
empty_text = 0

pub data BookingStatus : Type 0 where
  pending booked cancelled waitlisted expired : BookingStatus

pub data PaymentStatus : Type 0 where
  pending paid failed refunded : PaymentStatus

pub data EventStatus : Type 0 where
  upcoming ongoing cancelled expired : EventStatus

pub data SeatStatus : Type 0 where
  available held booked : SeatStatus

pub data Role : Type 0 where
  user admin : Role

abbrev pub is_pending : BookingStatus → Bool
is_pending BookingStatus.pending = true
is_pending _ = false

abbrev pub is_booked : BookingStatus → Bool
is_booked BookingStatus.booked = true
is_booked _ = false

abbrev pub is_paid : PaymentStatus → Bool
is_paid PaymentStatus.paid = true
is_paid _ = false

abbrev pub is_expired : EventStatus → Bool
is_expired EventStatus.expired = true
is_expired _ = false

abbrev pub is_available : SeatStatus → Bool
is_available SeatStatus.available = true
is_available _ = false

abbrev pub is_held : SeatStatus → Bool
is_held SeatStatus.held = true
is_held _ = false

abbrev pub is_admin : Role → Bool
is_admin Role.admin = true
is_admin _ = false

-- The `seats` column of a booking: SQL NULL, a JSON array of labels (`null` reads as the empty
-- one), or any other JSON.
pub data SeatsJson : Type 0 where
  missing : SeatsJson
  labels : List Text → SeatsJson
  other_json : SeatsJson

-- `if len(b) > 0 { err = json.Unmarshal(b, &seats) }`; `none` is the error.
abbrev pub unmarshal_seats : SeatsJson → Option (List Text)
unmarshal_seats missing = some []
unmarshal_seats (labels xs) = some xs
unmarshal_seats other_json = none

-- `json.Marshal(seats)`
abbrev pub marshal_seats : List Text → SeatsJson
marshal_seats xs = labels xs

-- A row of `bookings`; `user_id` and `idempotency_key` may be NULL.
pub record BookingRow : Type 0 where
  pub id : Text
  pub user_id : Option Text
  pub event_id : Text
  pub status : BookingStatus
  pub seats : SeatsJson
  pub idempotency_key : Option Text
  pub amount_paid : Money
  pub payment_status : PaymentStatus
  pub created_at : Time
  pub updated_at : Time
  pub version : ℕ

-- The struct `Booking`.
pub record Booking : Type 0 where
  pub id : Text
  pub user_id : Text
  pub event_id : Text
  pub status : BookingStatus
  pub seats : SeatsJson
  pub idempotency_key : Text
  pub amount_paid : Money
  pub payment_status : PaymentStatus
  pub created_at : Time
  pub updated_at : Time
  pub version : ℕ

pub record Event : Type 0 where
  pub id : Text
  pub name : Text
  pub venue : Text
  pub start_time : Time
  pub end_time : Time
  pub category : Text
  pub capacity : ℤ
  pub reserved : ℤ
  -- 0 is the nil slice, which is NULL in SQL
  pub metadata : Text
  pub status : EventStatus
  pub ticket_price : Money
  pub cancellation_fee : Money
  pub likes : ℤ
  pub maximum_tickets_per_booking : ℤ
  pub created_at : Time
  pub updated_at : Time

pub record Seat : Type 0 where
  pub id : Text
  pub event_id : Text
  pub seat_label : Text
  pub status : SeatStatus
  pub held_until : Option Time
  pub held_by_booking : Option Text
  pub created_at : Time
  pub updated_at : Time

pub record WaitlistEntry : Type 0 where
  pub id : Text
  pub event_id : Text
  pub user_id : Text
  pub position : ℕ
  pub opted_out : Bool
  pub notified_at : Option Time
  pub created_at : Time

pub record User : Type 0 where
  pub id : Text
  pub name : Text
  pub email : Text
  pub phone : Text
  pub password_hash : Text
  pub oauth_provider : Text
  pub oauth_sub : Text
  pub role : Role
  pub created_at : Time
  pub updated_at : Time

pub record EventLike : Type 0 where
  pub user_id : Text
  pub event_id : Text

-- A row of `event_capacity`.
pub record EventCapacity : Type 0 where
  pub event_id : Text
  pub capacity : ℤ
  pub reserved_count : ℤ
  pub held_count : ℤ
  pub updated_at : Time

pub record Db : Type 0 where
  pub users : List User
  pub events : List Event
  pub event_likes : List EventLike
  pub bookings : List BookingRow
  pub waitlist : List WaitlistEntry
  pub seats : List Seat
  pub capacities : List EventCapacity

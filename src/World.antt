-- ===== src/World.antt =====
-- The services that the program calls, and the shape of a call: internal/store/db.go and the calls
-- of pgx, go-redis, kafka-go and net/smtp. A call may fail; which calls fail, the ids that Postgres
-- generates and the time are given by the environment.
pub mod Atomic
pub mod Ensures
pub mod Returns
pub mod Services
pub mod Keeps
use high_concurrency_ticketi.Prelude.{ℕ, suc, ℤ, Bool, Option, none, some, List, ⊤, if◌then◌else◌}
use high_concurrency_ticketi.Money.{Money}
use high_concurrency_ticketi.Schema.{Text, Time, Db}

pub data Error : Type 0 where
  -- from the services
  service_down no_rows scan_null bad_json unique_violation foreign_key_violation : Error
  bad_statement numeric_overflow not_null_violation : Error
  -- from internal/service/bookings and internal/service/worker
  event_not_found event_expired too_many_tickets booking_not_found mail_failed : Error
  -- from internal/service/payment
  invalid_amount already_paid wrong_status booking_not_paid : Error
  -- from internal/service/auth and internal/service/admin
  invalid_credentials user_exists user_not_found invalid_otp oauth_user hash_failed : Error
  token_failed : Error
  seats_mismatch : Error

-- `panic` is the dereference of a nil pointer.
pub data Result (E A : Type 0) : Type 0 where
  ok : A → Result E A
  err : E → Result E A
  panic : Result E A

-- What the worker reads from the topic `bookings`: the struct `FinalizePayload`.
pub data PayloadType : Type 0 where
  finalize_booking booking_timeout : PayloadType

pub record FinalizePayload : Type 0 where
  pub type : PayloadType
  pub booking_id : Text
  pub event_id : Text
  pub user_id : Text
  pub seats : List Text
  pub idempotency_key : Option Text

-- A mail, by the method of the mailer that sends it.
pub data Mail : Type 0 where
  cancellation : (to : Text) (fee : Money) (booking_id : Text) → Mail
  waitlist_promotion : (to : Text) (event_name : Text) → Mail
  payment_request : (to : Text) (event_name : Text) (amount : Money) (booking_id : Text) → Mail
  event_cancellation : (to : Text) (event_name : Text) (price : Money) → Mail
  password_change_otp : (to : Text) (otp : Text) → Mail

-- The values of internal/redis/bookingTimeout.go.
pub data TimeoutMark : Type 0 where
  processing processed : TimeoutMark

-- A one-time code and when Redis drops it.
pub record Otp : Type 0 where
  pub code : Text
  pub expires : Time

-- The keys of the rate limiter's sorted sets.
pub data WindowKey : Type 0 where
  by_address by_user : Text → WindowKey

-- A sorted set whose members are their own scores, the highest first, and when Redis drops it.
pub record Window : Type 0 where
  pub members : List ℕ
  pub expires : Time

pub record World : Type 0 where
  -- how many calls were made
  pub calls : ℕ
  pub db : Db
  -- the Redis keys `event_tokens:<event>`, `<event>:<booking>` and `password_change_otp:<email>`
  pub tokens : Text → Option ℤ
  pub timeouts : Text → Text → Option TimeoutMark
  pub otps : Text → Option Otp
  -- the sorted sets `rate_limit:<address>` and `rate_limit_user:<id>`
  pub windows : WindowKey → Window
  -- what was published to the topics `bookings` and to the one for messages that could not be
  -- handled, the messages that were committed, and what was mailed, newest first; a message that is
  -- no payload is `none`
  pub topic : List FinalizePayload
  pub dead_letters : List (Option FinalizePayload)
  pub committed : List (Option FinalizePayload)
  pub outbox : List Mail

-- What a call finds outside the program: the id that it generates and the time.
pub record Moment : Type 0 where
  pub fresh : Text
  pub now : Time

-- By the number of the call.
pub record Env : Type 0 where
  pub fault : ℕ → Bool
  pub moment : ℕ → Moment

abbrev pub Action : Type 0 → Type 0 → Type 0
Action E A = Env → World → Result E A × World

module _ {E A : Type 0} where
  abbrev pub pure : A → Action E A
  pure a env w = (ok a, w)

  abbrev pub raise : E → Action E A
  raise e env w = (err e, w)

  abbrev pub nil_dereference : Action E A
  nil_dereference env w = (panic, w)

  abbrev pub from_result : Result E A → Action E A
  from_result r env w = (r, w)

-- A call whose error the code ignores or only logs.
abbrev pub dropped : {E F A : Type 0} → Result E A → Result F ⊤
dropped (ok _) = ok tt
dropped (err _) = ok tt
dropped panic = panic

abbrev pub ignore : {E F A : Type 0} → Action E A → Action F ⊤
ignore m env w = let (r, w') = m env w in (dropped r, w')

-- What follows a call, if it returned a value.
abbrev pub resume :
    {E A B : Type 0} → (A → Action E B) → Env → Result E A × World → Result E B × World
resume f env (ok a, w) = f a env w
resume f env (err e, w) = (err e, w)
resume f env (panic, w) = (panic, w)

infixl 5 ◌>>=◌ ◌>>◌
unfoldable pub ◌>>=◌ : {E A B : Type 0} → Action E A → (A → Action E B) → Action E B
◌>>=◌ m f env w = resume f env (m env w)

abbrev pub ◌>>◌ : {E B : Type 0} → Action E ⊤ → Action E B → Action E B
m >> k = m >>= λ _. k

-- `if e != nil { return err }`
abbrev pub raise_if : {E : Type 0} → Bool → E → Action E ⊤
raise_if c e env w = (if c then err e else ok tt, w)

-- `if p == nil { return err }`
abbrev pub or_raise : {E A : Type 0} → Option A → E → Action E A
or_raise none e = raise e
or_raise (some a) e = pure a

-- The value behind a pointer that the code does not test.
abbrev pub deref : {E A : Type 0} → Option A → Action E A
deref none = nil_dereference
deref (some a) = pure a

-- The error of a call as a value: `v, err := call()`.
abbrev pub attempt : {E A F : Type 0} → Action E A → Action F (Result E A)
attempt m env w =
    let (r, w') = m env w in
    elim r [ ok a ↦ (ok (ok a), w') | err e ↦ (ok (err e), w') | panic ↦ (panic, w') ]

abbrev pub replaced : {E F A : Type 0} → F → Result E A → Result F A
replaced e (ok a) = ok a
replaced e (err _) = err e
replaced e panic = panic

-- `v, err := call(); if err != nil { return e }`
abbrev pub or_error : {E F A : Type 0} → Action E A → F → Action F A
or_error m e env w = let (r, w') = m env w in (replaced e r, w')

-- Random bytes.
abbrev pub random : {E : Type 0} → Action E Text
random env w = (ok (env.moment w.calls).fresh, record w { calls = suc w.calls })

-- `time.Now()`
abbrev pub time_now : {E : Type 0} → Action E Time
time_now env w = (ok (env.moment w.calls).now, w)

abbrev pub tick : World → World
tick w = record w { calls = suc w.calls }

-- A call of a service: it fails and does nothing, or is answered.
unfoldable pub call : {A : Type 0} → (Moment → World → Result Error A × World) → Action Error A
call f env w =
    if env.fault w.calls then (err service_down, tick w) else f (env.moment w.calls) (tick w)

-- One SQL statement.
unfoldable pub exec : {A : Type 0} → (Moment → Db → Result Error A × Db) → Action Error A
unfolding call
exec f = call λ m w. let (r, db) = f m w.db in (r, record w { db = db })

-- An SQL statement that only reads.
unfoldable pub query : {A : Type 0} → (Moment → Db → Result Error A) → Action Error A
unfolding exec
query f = exec λ m db. (f m db, db)

-- `result.RowsAffected() == 0`
abbrev pub require_rows : ℕ → Action Error ⊤
require_rows ℕ.zero = raise no_rows
require_rows (suc n) = pure tt

-- The end of a transaction: commit after a body that returned no error, else the deferred rollback.
-- A commit that fails has not been applied.
unfoldable pub end_tx : {A : Type 0} → Env → Db → Result Error A × World → Result Error A × World
end_tx env before (ok a, w) =
    if env.fault w.calls
    then (err service_down, record (tick w) { db = before })
    else (ok a, tick w)
end_tx env before (err e, w) = (err e, record w { db = before })
end_tx env before (panic, w) = (panic, record w { db = before })

-- `DB.WithTx`, and the same with Begin and Commit written out (`CancelBookingTx`).
unfoldable pub with_tx : {A : Type 0} → Action Error A → Action Error A
unfolding end_tx
with_tx body env w =
    if env.fault w.calls then (err service_down, tick w) else end_tx env w.db (body env (tick w))

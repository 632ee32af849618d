-- ===== src/BookingService/Checks.antt =====
-- What `Create` of the bookings service looks at before it reserves tokens.
use high_concurrency_ticketi.Prelude.{
  ◌==◌, ℕ, ◌≡◌, refl, inl, inr, false, Option, none, some, ⊤, if◌then◌else◌, Bool-cases, ltb,
}
use high_concurrency_ticketi.Schema.{Text, Booking, Event}
use high_concurrency_ticketi.Sql.{first_where}
use high_concurrency_ticketi.World.{
  World, Env, Error, Result, ok, err, panic, ◌>>=◌, attempt, ignore, time_now, pure,
}
use high_concurrency_ticketi.World.Ensures.{Ensures, Ensures-bind}
use high_concurrency_ticketi.World.Services.{Ensures-ignore, Ensures-attempt}
use high_concurrency_ticketi.Outside.{Failure, failure}
use high_concurrency_ticketi.Bookings.{get_by_idempotency, has_key, scan_optional}
use high_concurrency_ticketi.Events
use high_concurrency_ticketi.BookingService.{
  empty_text, event_expired, raise, found_booking, EventStatus, BookingResponse, check_expired,
  find_replay,
}
use high_concurrency_ticketi.BookingService.Steps.{Untouched}

-- The key has a booking already, and nothing has changed.
abbrev pub Replayed : Option Text → World → BookingResponse × ℕ → World → Type 0
Replayed key w (resp, code) w' =
    (code ≡ 200)
    × (k : Text) × (key ≡ some k)
    × (b : Booking) × (scan_optional (first_where (has_key k) w.db.bookings) ≡ ok (some b))
    × (resp.booking_id ≡ b.id)
    × (resp.status ≡ b.status)
    × Untouched w w'

pub check_expired-Ensures :
    (e : Event) (event : Text) (env : Env) (w : World)
    → Ensures
        (check_expired e event env w)
        (λ _ w'. Untouched w w' × ltb e.end_time (env.moment w.calls).now ≡ false)
unfolding check_expired
check_expired-Ensures e event env w =
    Ensures-bind time_now _ env w (λ now w'. (now ≡ (env.moment w.calls).now) × (w' ≡ w)) _
      (refl, refl) branch
  where
    branch :
        (now : Text) (w1 : World)
        → (now ≡ (env.moment w.calls).now) × (w1 ≡ w)
        → Ensures
            ((if ltb e.end_time now
                then (ignore (Events.update_status event EventStatus.expired) >>= λ _.
                    raise (failure 400 event_expired))
                else pure tt)
              env w1)
            (λ _ w'. Untouched w w' × ltb e.end_time (env.moment w.calls).now ≡ false)
    branch now w1 (at, same) = elim (Bool-cases (ltb e.end_time now)) [
      | inl over ↦ rw over (
          Ensures-bind (ignore (Events.update_status event EventStatus.expired))
            (λ _. raise (failure 400 event_expired)) env w1 (λ _ _. ⊤)
            (λ (x : ⊤) w'. Untouched w w' × ltb e.end_time (env.moment w.calls).now ≡ false)
            (Ensures-ignore Failure (Events.update_status event EventStatus.expired) env w1 _ tt)
            (λ _ _ _. tt))
      | inr early ↦ rw early (rw same (refl, refl, refl), rw at at early)
    ]

-- What the look for the idempotency key has found.
abbrev pub Found : Option Text → World → Option Booking → World → Type 0
Found key w none w' = Untouched w w'
Found key w (some b) w' =
    (k : Text) × (key ≡ some k)
    × (scan_optional (first_where (has_key k) w.db.bookings) ≡ ok (some b))
    × Untouched w w'

-- A read by the key, and what it has found if it returned.
abbrev Looked : Text → World → Result Error (Option Booking) → World → Type 0
Looked k w r w' =
    Untouched w w'
    × ((o : Option Booking)
        → r ≡ ok o
        → scan_optional (first_where (has_key k) w.db.bookings) ≡ ok o)

looked :
    (k : Text) (env : Env) (w : World)
    → Looked k w (get_by_idempotency k env w).0 (get_by_idempotency k env w).1
unfolding get_by_idempotency
looked k env w = elim (Bool-cases (env.fault w.calls)) [
  | inl down ↦ rw down ((refl, refl, refl), λ o e. cc)
  | inr up ↦ rw up ((refl, refl, refl), λ o e. e)
]

pub find_replay-Found :
    (key : Option Text) (env : Env) (w : World) → Ensures (find_replay key env w) (Found key w)
unfolding find_replay
find_replay-Found none env w = (refl, refl, refl)
find_replay-Found (some k) env w = elim (Bool-cases (k == empty_text)) [
  | inl nothing ↦ rw nothing (refl, refl, refl)
  | inr real ↦ rw real (
      Ensures-bind (attempt (get_by_idempotency k)) (λ r. pure (found_booking r)) env w (Looked k w)
        (Found (some k) w)
        (Ensures-attempt Failure (get_by_idempotency k) env w (Looked k w) (looked k env w)) answer)
]
  where
    answer :
        (r : Result Error (Option Booking)) (w1 : World)
        → Looked k w r w1
        → Found (some k) w (found_booking r) w1
    answer (ok none) w1 q = q.0
    answer (ok (some b)) w1 q = (k, refl, q.1 (some b) refl, q.0)
    answer (err e) w1 q = q.0
    answer panic w1 q = q.0

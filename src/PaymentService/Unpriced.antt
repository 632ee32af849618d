-- ===== src/PaymentService/Unpriced.antt =====
-- A payment whose amount is "NaN".
use high_concurrency_ticketi.Prelude.{
  inr, inl, Bool-cases, ℕ, suc, ◌≡◌, refl, Bool, true, some, List, [], ◌∷◌, ⊤,
}
use high_concurrency_ticketi.Schema.{
  Text, Time, Db, BookingRow, Event, PaymentStatus, is_pending, marshal_seats,
}
use high_concurrency_ticketi.Money.{nan}
use high_concurrency_ticketi.Sql.{update_where, first_where, count_where}
use high_concurrency_ticketi.Sql.Laws.{first_where-update_where, first_where_sound}
use high_concurrency_ticketi.World.{
  World, Env, Moment, Error, Result, tick, ◌>>=◌, exec, require_rows,
}
use high_concurrency_ticketi.World.Ensures.{IsUp}
use high_concurrency_ticketi.World.Services.{Ensures-elim}
use high_concurrency_ticketi.World.Returns.{Returns, Returns-bind, Returns-exec, Returns-ok}
use high_concurrency_ticketi.Tables.{has_event_id}
use high_concurrency_ticketi.Bookings.{get_by_id, has_id, set_payment, update_payment_status}
use high_concurrency_ticketi.BookingTx.{finalize_booking}
use high_concurrency_ticketi.BookingTx.Balance.{stamp}
use high_concurrency_ticketi.BookingTx.Effects.{Finalized}
use high_concurrency_ticketi.BookingTx.Outcome.{finalize_booking_succeeds}
use high_concurrency_ticketi.Events
use high_concurrency_ticketi.PaymentService.{
  PaymentRequest, paid_seats, process_booking_payment, settle, simulate_payment_processing,
}
use high_concurrency_ticketi.PaymentService.Payment.{Settled, set_paid, settle-Settled}

count_where-found :
    {A : Type 0} (p : A → Bool) (rs : List A) (r : A)
    → first_where p rs ≡ some r
    → (n : ℕ) × (count_where p rs ≡ suc n)
count_where-found p [] r e = cc
count_where-found p (x ∷ rs) r e = elim (Bool-cases (p x)) [
  | inl hit ↦ (count_where p rs, rw hit refl)
  | inr miss ↦ let (n, more) = count_where-found p rs r (rw miss at e) in (n, rw miss more)
]

abbrev pub nan_payment : Text → Text → PaymentRequest
nan_payment id payment = record { booking_id = id; amount = nan; payment_id = payment }

module _ (id payment : Text) (row : BookingRow) (env : Env) (up : IsUp env) where
  update_payment_status-Returns :
      (w : World)
      → first_where (has_id id) w.db.bookings ≡ some row
      → Returns (update_payment_status id PaymentStatus.paid nan env w) (λ _ w'.
        (t : Time) × (first_where (has_id id) w'.db.bookings
          ≡ some (stamp t (set_paid (nan_payment id payment)) row)))
  unfolding update_payment_status
  update_payment_status-Returns w here =
      let (n, rows) = count_where-found (has_id id) w.db.bookings row here in
      Returns-bind (exec note) require_rows env w (λ k w'. (k ≡ suc n) × Noted w') (λ _. Noted)
        (Returns-exec env up w (λ k w'. (k ≡ suc n) × Noted w') note
          (count_where (has_id id) w.db.bookings) refl
          (rows, ((env.moment w.calls).now, after (env.moment w.calls).now)))
        (λ k w' (some_rows, q). rw some_rows q)
    where
      note : Moment → Db → Result Error ℕ × Db
      note = set_payment id PaymentStatus.paid nan

      Noted : World → Type 0
      Noted w' =
          (t : Time) × (first_where (has_id id) w'.db.bookings
            ≡ some (stamp t (set_paid (nan_payment id payment)) row))

      after :
          (t : Time)
          → first_where
              (has_id id)
              (update_where (has_id id) (stamp t (set_paid (nan_payment id payment))) w.db.bookings)
            ≡ some (stamp t (set_paid (nan_payment id payment)) row)
      after t =
          rw
            (
              first_where-update_where (has_id id) (has_id id)
                  (stamp t (set_paid (nan_payment id payment))) w.db.bookings (λ r. refl),
              here,
              first_where_sound (has_id id) w.db.bookings row here,
            )
            refl

  settle-Returns :
      (seats : List Text) (w : World)
      → first_where (has_id id) w.db.bookings ≡ some row
      → Returns (settle (nan_payment id payment) seats env w) (λ _ _. ⊤)
  unfolding settle
  settle-Returns seats w here =
      Returns-bind (update_payment_status id PaymentStatus.paid nan) _ env w
        (λ _ w1.
          (t : Time) × (first_where (has_id id) w1.db.bookings
            ≡ some (stamp t (set_paid (nan_payment id payment)) row)))
        (λ _ _. ⊤) (update_payment_status-Returns w here)
        λ _ w1 (t, here1).
          Returns-bind (finalize_booking id (marshal_seats seats) nan) _ env w1
            (λ _ w2. Finalized id (marshal_seats seats) nan w1.db w2.db) (λ _ _. ⊤)
            (finalize_booking_succeeds id (marshal_seats seats) nan env w1
              (stamp t (set_paid (nan_payment id payment)) row) seats up here1 refl)
            (λ _ w2 f. tt)

  reaches-settle :
      (seat1 user key : Text) (e : Event) (w : World)
      → first_where (has_id id) w.db.bookings ≡ some row
      → row.user_id ≡ some user
      → row.idempotency_key ≡ some key
      → is_pending row.status ≡ true
      → first_where (has_event_id row.event_id) w.db.events ≡ some e
      → process_booking_payment seat1 (nan_payment id payment) env w
        ≡ settle (nan_payment id payment) (paid_seats seat1 row.seats) env (tick (tick w))
  unfolding process_booking_payment simulate_payment_processing get_by_id Events.get ◌>>=◌
  reaches-settle seat1 user key e w here users keyed waits there =
      rw (up w.calls, here, users, keyed, waits, up (suc w.calls), there) refl

  -- With every service up, a payment of NaN for a pending booking of an event that exists succeeds,
  -- whatever the price: the booking is booked and paid, for an amount that is no number. The booking
  -- must have a user and an idempotency key, without which it cannot be read.
  pub nan_books :
      (seat1 user key : Text) (e : Event) (w : World)
      → first_where (has_id id) w.db.bookings ≡ some row
      → row.user_id ≡ some user
      → row.idempotency_key ≡ some key
      → is_pending row.status ≡ true
      → first_where (has_event_id row.event_id) w.db.events ≡ some e
      → Returns (process_booking_payment seat1 (nan_payment id payment) env w) (λ resp w'.
        (resp ≡ record { success = true; booking_id = some id })
        × Settled id (paid_seats seat1 row.seats) nan row w'.db)
  nan_books seat1 user key e w here users keyed waits there =
      let seats = paid_seats seat1 row.seats in
      let w2 = tick (tick w) in
      let (resp, returned, _) =
        Returns-ok (settle (nan_payment id payment) seats env w2) _
          (settle-Returns seats w2 here) in
      let done =
        Ensures-elim (settle (nan_payment id payment) seats env w2) _ resp
          (settle-Settled (nan_payment id payment) seats row env w2 here waits) returned in
      rw (reaches-settle seat1 user key e w here users keyed waits there, returned, Returns)
        (done.0, done.2)

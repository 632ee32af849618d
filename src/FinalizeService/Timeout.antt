-- ===== src/FinalizeService/Timeout.antt =====
-- What the timeout of a booking leaves alone.
use high_concurrency_ticketi.Prelude.{
  ◌≡◌, refl, Bool, true, false, Option, none, some, inl, inr, Bool-cases, Option-cases,
  if◌then◌else◌, ◌==◌,
}
use high_concurrency_ticketi.Schema.{
  Text, Booking, BookingRow, Event, User, is_pending, marshal_seats, empty_text,
}
use high_concurrency_ticketi.Sql.{first_where}
use high_concurrency_ticketi.World.{
  World, Env, Error, Result, ok, err, panic, pure, ◌>>=◌, tick, attempt, ignore, or_raise, deref,
  FinalizePayload, Mail, booking_not_found, event_not_found, user_not_found, mail_failed,
}
use high_concurrency_ticketi.Outside.{send}
use high_concurrency_ticketi.Bookings.{get_by_id, has_id, create_pending}
use high_concurrency_ticketi.BookingTx.{cancel_booking_tx}
use high_concurrency_ticketi.Tokens.Keeps.{
  KeepsTokens, bind-KeepsTokens, attempt-KeepsTokens, or_raise-KeepsTokens, deref-KeepsTokens,
  send-KeepsTokens, create_pending-KeepsTokens, cancel_booking_tx-KeepsTokens,
  next_active-KeepsTokens, get_booking_row-KeepsTokens, get_user-KeepsTokens, get_event-KeepsTokens,
}
use high_concurrency_ticketi.Events
use high_concurrency_ticketi.Users
use high_concurrency_ticketi.Waitlist
use high_concurrency_ticketi.FinalizeService.{
  amount_due, expire_booking, handle_booking_timeout, or_else_error, promote_from_timeout,
}

-- The timeout of a booking that is there and is no longer pending, having been paid or cancelled in
-- the meantime, only reads it: whatever fails, nothing at all is changed.
pub handle_booking_timeout-settled :
    (p : FinalizePayload) (env : Env) (w : World) (row : BookingRow)
    → first_where (has_id p.booking_id) w.db.bookings ≡ some row
    → is_pending row.status ≡ false
    → (handle_booking_timeout p env w).1 ≡ tick w
unfolding handle_booking_timeout get_by_id ◌>>=◌
handle_booking_timeout-settled p env w row here done = elim (Bool-cases (env.fault w.calls)) [
  | inl down ↦ rw down refl
  | inr up ↦ elim (Option-cases row.user_id) [
    | inl null ↦ rw (up, here, null) refl
    | inr (user, there) ↦ elim (Option-cases row.idempotency_key) [
      | inl null ↦ rw (up, here, there, null) refl
      | inr (key, keyed) ↦ rw (up, here, there, keyed, done) refl
    ]
  ]
]

or_else_error-KeepsTokens :
    {A : Type 0} (e : Error) (r : Result Error A) → KeepsTokens (or_else_error e r)
or_else_error-KeepsTokens e (ok a) env w = refl
or_else_error-KeepsTokens e (err x) env w = refl
or_else_error-KeepsTokens e panic env w = refl

promote_from_timeout-KeepsTokens :
    (p : FinalizePayload) (user : Text) (e : Event) → KeepsTokens (promote_from_timeout p user e)
unfolding promote_from_timeout
promote_from_timeout-KeepsTokens p user e =
    bind-KeepsTokens (create_pending user p.event_id none (marshal_seats p.seats)) _
      (create_pending-KeepsTokens user p.event_id none (marshal_seats p.seats))
      λ b.
        bind-KeepsTokens (attempt (Users.get_by_id p.user_id) >>= or_else_error user_not_found) _
          (bind-KeepsTokens (attempt (Users.get_by_id p.user_id)) (or_else_error user_not_found)
            (attempt-KeepsTokens Error (Users.get_by_id p.user_id) (get_user-KeepsTokens p.user_id))
            (or_else_error-KeepsTokens user_not_found))
          λ row. bind-KeepsTokens (deref row) _ (deref-KeepsTokens Error row) λ u.
            bind-KeepsTokens (ignore (send (Mail.waitlist_promotion u.email e.name))) _
              (send-KeepsTokens (Mail.waitlist_promotion u.email e.name))
              λ _.
                bind-KeepsTokens (attempt (send (mail u b))) _
                  (attempt-KeepsTokens Error (send (mail u b)) (send-KeepsTokens (mail u b)))
                  λ mailed.
                    bind-KeepsTokens (or_else_error mail_failed mailed) _
                      (or_else_error-KeepsTokens mail_failed mailed) λ _ env w. refl
  where
    mail : User → Booking → Mail
    mail u b = Mail.payment_request u.email e.name (amount_due e p.seats) b.id

expire_booking-KeepsTokens : (p : FinalizePayload) → KeepsTokens (expire_booking p)
unfolding expire_booking
expire_booking-KeepsTokens p =
    bind-KeepsTokens (cancel_booking_tx p.booking_id) _ (cancel_booking_tx-KeepsTokens p.booking_id)
      λ done. bind-KeepsTokens (Events.get p.event_id) _ (get_event-KeepsTokens p.event_id) λ row.
        bind-KeepsTokens (or_raise row event_not_found) _ (or_raise-KeepsTokens row event_not_found)
          λ e.
            bind-KeepsTokens (Waitlist.next_active p.event_id) _
              (next_active-KeepsTokens p.event_id) λ next. branch e next.0 (next.0 == empty_text)
  where
    branch :
        (e : Event) (id : Text) (nobody : Bool)
        → KeepsTokens {A = Option (Text × Text)} (
            if nobody
            then pure none
            else (promote_from_timeout p id e >>= λ b. pure (some (b, id))))
    branch e id true = λ env w. refl
    branch e id false =
        bind-KeepsTokens (promote_from_timeout p id e) _ (promote_from_timeout-KeepsTokens p id e)
          (λ b env w. refl)

-- However it ends, the timeout of a booking changes no bucket: the tokens that were taken for the
-- pending booking that it cancels are not given back, and the booking that it makes for the next
-- user of the waitlist takes none.
pub handle_booking_timeout-tokens :
    (p : FinalizePayload) (env : Env) (w : World)
    → (handle_booking_timeout p env w).1.tokens ≡ w.tokens
unfolding handle_booking_timeout
handle_booking_timeout-tokens p =
    bind-KeepsTokens (get_by_id p.booking_id) _ (get_booking_row-KeepsTokens p.booking_id) λ found.
      bind-KeepsTokens (or_raise found booking_not_found) _
        (or_raise-KeepsTokens found booking_not_found) λ b. branch (is_pending b.status)
  where
    branch : (waits : Bool) → KeepsTokens (if waits then expire_booking p else pure none)
    branch true = expire_booking-KeepsTokens p
    branch false = λ env w. refl

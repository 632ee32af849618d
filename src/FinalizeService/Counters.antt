-- ===== src/FinalizeService/Counters.antt =====
-- The timeout of a booking keeps the counters of the events.
use high_concurrency_ticketi.Prelude.{Bool, true, false, Option, none, some, ◌==◌, if◌then◌else◌}
use high_concurrency_ticketi.Schema.{
  Text, Db, Booking, Event, User, is_pending, marshal_seats, empty_text,
}
use high_concurrency_ticketi.World.{
  Error, Result, ok, err, panic, pure, ignore, or_raise, deref, attempt, ◌>>=◌, FinalizePayload,
  Mail, booking_not_found, event_not_found, user_not_found, mail_failed,
}
use high_concurrency_ticketi.World.Keeps.{
  Keeps, bind-Keeps, or_raise-Keeps, ignore-Keeps, attempt-Keeps, deref-Keeps, send-Keeps,
}
use high_concurrency_ticketi.Outside.{send}
use high_concurrency_ticketi.Bookings.{get_by_id, create_pending}
use high_concurrency_ticketi.BookingTx.{cancel_booking_tx}
use high_concurrency_ticketi.BookingTx.Balance.{IsConsistent}
use high_concurrency_ticketi.BookingTx.Fresh.{
  Counts, before-Counts, ready-Counts, after-Counts, create_pending-Counts,
  cancel_booking_tx-IsReady,
}
use high_concurrency_ticketi.Reads.{
  get_booking-Keeps, get_event-Keeps, get_user-Keeps, next_active-Keeps,
}
use high_concurrency_ticketi.Events
use high_concurrency_ticketi.Users
use high_concurrency_ticketi.Waitlist
use high_concurrency_ticketi.FinalizeService.{
  amount_due, expire_booking, handle_booking_timeout, or_else_error, promote_from_timeout,
}

or_else_error-Keeps :
    {A : Type 0} (Inv : Db → Type 0) (e : Error) (r : Result Error A)
    → Keeps Inv (or_else_error e r)
or_else_error-Keeps Inv e (ok a) env w i = i
or_else_error-Keeps Inv e (err x) env w i = i
or_else_error-Keeps Inv e panic env w i = i

promote_from_timeout-Counts :
    (p : FinalizePayload) (user : Text) (e : Event) → Counts (promote_from_timeout p user e)
unfolding promote_from_timeout
promote_from_timeout-Counts p user e =
    after-Counts (create_pending user p.event_id none (marshal_seats p.seats)) _
      (create_pending-Counts user p.event_id none (marshal_seats p.seats))
      λ b.
        bind-Keeps IsConsistent
          (attempt (Users.get_by_id p.user_id) >>= or_else_error user_not_found) _
          (bind-Keeps IsConsistent (attempt (Users.get_by_id p.user_id))
            (or_else_error user_not_found)
            (attempt-Keeps IsConsistent Error (Users.get_by_id p.user_id)
              (get_user-Keeps p.user_id IsConsistent))
            (or_else_error-Keeps IsConsistent user_not_found))
          λ row. bind-Keeps IsConsistent (deref row) _ (deref-Keeps IsConsistent Error row) λ u.
            bind-Keeps IsConsistent (ignore (send (Mail.waitlist_promotion u.email e.name))) _
              (ignore-Keeps IsConsistent Error (send (Mail.waitlist_promotion u.email e.name))
                (send-Keeps IsConsistent (Mail.waitlist_promotion u.email e.name)))
              λ _.
                bind-Keeps IsConsistent (attempt (send (mail u b))) _
                  (attempt-Keeps IsConsistent Error (send (mail u b))
                    (send-Keeps IsConsistent (mail u b)))
                  λ mailed.
                    bind-Keeps IsConsistent (or_else_error mail_failed mailed) _
                      (or_else_error-Keeps IsConsistent mail_failed mailed) λ _ env w c. c
  where
    mail : User → Booking → Mail
    mail u b = Mail.payment_request u.email e.name (amount_due e p.seats) b.id

expire_booking-Counts : (p : FinalizePayload) → Counts (expire_booking p)
unfolding expire_booking
expire_booking-Counts p =
    ready-Counts (cancel_booking_tx p.booking_id) _ (cancel_booking_tx-IsReady p.booking_id) λ done.
      before-Counts (Events.get p.event_id) _ (get_event-Keeps p.event_id) λ row.
        before-Counts (or_raise row event_not_found) _
          (λ Inv. or_raise-Keeps Inv row event_not_found)
          λ e.
            before-Counts (Waitlist.next_active p.event_id) _ (next_active-Keeps p.event_id)
              λ next. branch e next.0 (next.0 == empty_text)
  where
    branch :
        (e : Event) (id : Text) (nobody : Bool)
        → Counts {A = Option (Text × Text)} (
            if nobody
            then pure none
            else (promote_from_timeout p id e >>= λ b. pure (some (b, id))))
    branch e id true env w i = i.consistent
    branch e id false env w i =
        after-Counts (promote_from_timeout p id e) _ (promote_from_timeout-Counts p id e)
          (λ b env w c. c) env w i

-- The timeout of a booking, however it ends.
pub handle_booking_timeout-Counts : (p : FinalizePayload) → Counts (handle_booking_timeout p)
unfolding handle_booking_timeout
handle_booking_timeout-Counts p =
    before-Counts (get_by_id p.booking_id) _ (get_booking-Keeps p.booking_id) λ found.
      before-Counts (or_raise found booking_not_found) _
        (λ Inv. or_raise-Keeps Inv found booking_not_found) λ b. branch (is_pending b.status)
  where
    branch :
        (waits : Bool)
        → Counts {A = Option (Text × Text)} (if waits then expire_booking p else pure none)
    branch true env w i = expire_booking-Counts p env w i
    branch false env w i = i.consistent

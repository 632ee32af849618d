-- ===== src/BookingService/Counters.antt =====
-- Booking, cancelling and timeouts keep the counters of the events.
use high_concurrency_ticketi.Prelude.{
  ℕ, ℤ, pos, Bool, true, false, Option, none, some, List, ⊤, ◌==◌, if◌then◌else◌, inl, inr,
  Bool-cases,
}
use high_concurrency_ticketi.Schema.{Text, Db, Booking, Event, marshal_seats, empty_text}
use high_concurrency_ticketi.Sql.{count_where, delete_where}
use high_concurrency_ticketi.World.{
  Moment, Action, Error, Result, ok, err, panic, pure, ignore, deref, attempt, exec, require_rows,
  Mail,
}
use high_concurrency_ticketi.World.Keeps.{
  Keeps, bind-Keeps, exec-Keeps, require_rows-Keeps, ignore-Keeps, attempt-Keeps, deref-Keeps,
  send-Keeps, publish-Keeps, with_code-Keeps,
}
use high_concurrency_ticketi.Outside.{Failure, with_code, publish, send, seats_or_none}
use high_concurrency_ticketi.Users.{has_user_id}
use high_concurrency_ticketi.Bookings.{create_pending}
use high_concurrency_ticketi.BookingTx.{cancel_booking_tx}
use high_concurrency_ticketi.BookingTx.Balance.{IsConsistent}
use high_concurrency_ticketi.BookingTx.Fresh.{
  Counts, before-Counts, after-Counts, create_pending-Counts, ready-Counts, attempt-Counts,
  cancel_booking_tx-IsReady,
}
use high_concurrency_ticketi.Reads.{get_event-Keeps, get_user-Keeps, next_active-Keeps}
use high_concurrency_ticketi.Tokens.{release}
use high_concurrency_ticketi.Events
use high_concurrency_ticketi.Users
use high_concurrency_ticketi.Waitlist
use high_concurrency_ticketi.BookingService.{
  cancel, after_cancel, promote, promote_user, notify_promoted, booking_payload, released_count,
}

release-Keeps : (event : Text) (n : ℤ) (Inv : Db → Type 0) → Keeps Inv (release event n)
unfolding release
release-Keeps event n Inv env w i = elim (Bool-cases (env.fault w.calls)) [
  | inl down ↦ rw down i
  | inr up ↦ rw up i
]

remove-Keeps : (id : Text) → Keeps IsConsistent (Waitlist.remove id)
unfolding Waitlist.remove
remove-Keeps id =
    bind-Keeps IsConsistent (exec drop) require_rows
      (exec-Keeps IsConsistent drop (λ m db c. record { unique = c.unique; balanced = c.balanced }))
      (require_rows-Keeps IsConsistent)
  where
    drop : Moment → Db → Result Error ℕ × Db
    drop m db = (
      ok (count_where (λ r. r.id == id) db.waitlist),
      record db { waitlist = delete_where (λ r. r.id == id) db.waitlist },
    )

notify_promoted-Keeps :
    (pb : Booking) (event entry user : Text) (seats : List Text) (found : Option Event)
    → Keeps IsConsistent (notify_promoted pb event entry user seats found)
unfolding notify_promoted
notify_promoted-Keeps pb event entry user seats found =
    let payload = booking_payload pb event user seats (some pb.idempotency_key) in
    bind-Keeps IsConsistent (ignore (publish payload)) _
      (ignore-Keeps IsConsistent Failure (publish payload) (publish-Keeps IsConsistent payload))
      λ _.
        bind-Keeps IsConsistent (ignore (Waitlist.remove entry)) _
          (ignore-Keeps IsConsistent Failure (Waitlist.remove entry) (remove-Keeps entry))
          λ _.
            bind-Keeps IsConsistent (with_code 409 (Users.get_by_id user)) _
              (with_code-Keeps IsConsistent 409 (Users.get_by_id user)
                (get_user-Keeps user IsConsistent))
              λ row.
                bind-Keeps IsConsistent (deref row) _ (deref-Keeps IsConsistent Failure row) λ u.
                  bind-Keeps IsConsistent (deref found) _ (deref-Keeps IsConsistent Failure found)
                    λ e.
                      ignore-Keeps IsConsistent Failure
                        (send (Mail.waitlist_promotion u.email e.name))
                        (send-Keeps IsConsistent (Mail.waitlist_promotion u.email e.name))

promote_user-Counts :
    (event entry user : Text) (seats : List Text) (found : Option Event)
    → Counts (promote_user event entry user seats found)
unfolding promote_user
promote_user-Counts event entry user seats found =
    after-Counts (attempt (create_pending user event none (marshal_seats seats))) next
      (attempt-Counts Failure (create_pending user event none (marshal_seats seats))
        (create_pending-Counts user event none (marshal_seats seats)))
      rest
  where
    next : Result Error Booking → Action Failure ⊤
    next made = elim made [
      | ok pb ↦ notify_promoted pb event entry user seats found
      | err _ ↦ pure tt
      | panic ↦ pure tt
    ]

    rest : (made : Result Error Booking) → Keeps IsConsistent (next made)
    rest (ok pb) env w c = notify_promoted-Keeps pb event entry user seats found env w c
    rest (err _) env w c = c
    rest panic env w c = c

promote-Counts :
    (event : Text) (seats : List Text) (found : Option Event) → Counts (promote event seats found)
unfolding promote
promote-Counts event seats found =
    before-Counts (attempt (Waitlist.next_active event)) next
      (λ Inv. attempt-Keeps Inv Failure (Waitlist.next_active event) (next_active-Keeps event Inv))
      rest
  where
    next : Result Error (Text × Text × ℕ) → Action Failure ⊤
    next r = elim r [
      | ok (entry, user, position) ↦
          if user == empty_text then pure tt else promote_user event entry user seats found
      | err _ ↦ pure tt
      | panic ↦ pure tt
    ]

    rest : (r : Result Error (Text × Text × ℕ)) → Counts (next r)
    rest (ok (entry, user, position)) env w i = elim (Bool-cases (user == empty_text)) [
      | inl nobody ↦ rw nobody i.consistent
      | inr one ↦ rw one (promote_user-Counts event entry user seats found env w i)
    ]
    rest (err _) env w i = i.consistent
    rest panic env w i = i.consistent

after_cancel-Counts : (b : Booking) (id : Text) → Counts (after_cancel b id)
unfolding after_cancel
after_cancel-Counts b id =
    before-Counts (ignore (release b.event_id n)) _
      (λ Inv. ignore-Keeps Inv Failure (release b.event_id n) (release-Keeps b.event_id n Inv))
      λ _.
        before-Counts (with_code 409 (Events.get b.event_id)) _
          (λ Inv. with_code-Keeps Inv 409 (Events.get b.event_id) (get_event-Keeps b.event_id Inv))
          λ found.
            before-Counts (with_code 409 (Users.get_by_id b.user_id)) _
              (λ Inv.
                with_code-Keeps Inv 409 (Users.get_by_id b.user_id) (get_user-Keeps b.user_id Inv))
              λ row.
                before-Counts (deref row) _ (λ Inv. deref-Keeps Inv Failure row)
                  λ u.
                    before-Counts (deref found) _ (λ Inv. deref-Keeps Inv Failure found)
                      λ e.
                        before-Counts
                          (ignore (send (Mail.cancellation u.email e.cancellation_fee id))) _
                          (λ Inv.
                            ignore-Keeps Inv Failure
                              (send (Mail.cancellation u.email e.cancellation_fee id))
                              (send-Keeps Inv (Mail.cancellation u.email e.cancellation_fee id)))
                          λ _. promote-Counts b.event_id (seats_or_none b.seats) found
  where
    n : ℤ
    n = pos (released_count (seats_or_none b.seats))

-- A cancellation, however it ends, with the promotion of the next user.
pub cancel-Counts : (id : Text) → Counts (cancel id)
unfolding cancel
cancel-Counts id =
    ready-Counts (with_code 409 (cancel_booking_tx id)) _ (cancel_booking_tx-IsReady id) λ done.
      after-Counts (if done.1 then after_cancel done.0 id else pure tt) _ (branch done.0 done.1)
        λ _ env w c. c
  where
    branch :
        (b : Booking) (was : Bool)
        → Counts {E = Failure} (if was then after_cancel b id else pure tt)
    branch b true env w i = after_cancel-Counts b id env w i
    branch b false env w i = i.consistent

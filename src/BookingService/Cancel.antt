-- ===== src/BookingService/Cancel.antt =====
-- The tokens over `Cancel` of the bookings service.
use high_concurrency_ticketi.Users.{has_user_id}
use high_concurrency_ticketi.Prelude.{
  sym, ℕ, ℤ, pos, ◌+ℤ◌, ◌≡◌, refl, ◌∙◌, ◌⊎◌, inl, inr, Bool, true, false, Option, none, some, List,
  ⊤, if◌then◌else◌, Bool-cases, ◌==◌,
}
use high_concurrency_ticketi.Schema.{
  Text, Booking, BookingRow, BookingStatus, Event, is_booked, marshal_seats, empty_text,
}
use high_concurrency_ticketi.Sql.{first_where}
use high_concurrency_ticketi.World.{
  World, Env, Action, Error, Result, ok, err, panic, pure, ◌>>=◌, resume, attempt, ignore, deref,
  Mail,
}
use high_concurrency_ticketi.World.Ensures.{Ensures}
use high_concurrency_ticketi.World.Services.{Ensures-CommitsOrFails}
use high_concurrency_ticketi.Outside.{Failure, with_code, coded, publish, send, seats_or_none}
use high_concurrency_ticketi.Bookings.{has_id, create_pending}
use high_concurrency_ticketi.BookingTx.{cancel_booking_tx}
use high_concurrency_ticketi.BookingTx.CancelEffect.{Returned}
use high_concurrency_ticketi.BookingTx.Outcome.{cancel_booking_tx-outcome}
use high_concurrency_ticketi.Tokens.{release, put, value_or_zero}
use high_concurrency_ticketi.Tokens.Bucket.{release-outcome}
use high_concurrency_ticketi.Events
use high_concurrency_ticketi.Users
use high_concurrency_ticketi.Waitlist
use high_concurrency_ticketi.BookingService.{
  FinalizePayload, after_cancel, booking_payload, cancel, notify_promoted, promote, promote_user,
  released_count,
}
use high_concurrency_ticketi.Tokens.Keeps.{
  get_user-KeepsTokens, get_event-KeepsTokens, bind-after, next_active-KeepsTokens, KeepsTokens,
  bind-KeepsTokens, attempt-KeepsTokens, deref-KeepsTokens, send-KeepsTokens, remove-KeepsTokens,
  publish-KeepsTokens, create_pending-KeepsTokens, cancel_booking_tx-KeepsTokens,
}

notify_promoted-KeepsTokens :
    (pb : Booking) (event entry user : Text) (seats : List Text) (found : Option Event)
    → KeepsTokens (notify_promoted pb event entry user seats found)
unfolding notify_promoted
notify_promoted-KeepsTokens pb event entry user seats found =
    bind-KeepsTokens (ignore (publish payload)) _ (publish-KeepsTokens payload) λ _.
      bind-KeepsTokens (ignore (Waitlist.remove entry)) _ (remove-KeepsTokens entry) λ _.
        bind-KeepsTokens (with_code 409 (Users.get_by_id user)) _ (get_user-KeepsTokens user) λ row.
          bind-KeepsTokens (deref row) _ (deref-KeepsTokens Failure row) λ u.
            bind-KeepsTokens (deref found) _ (deref-KeepsTokens Failure found)
              λ e. send-KeepsTokens (Mail.waitlist_promotion u.email e.name)
  where
    payload : FinalizePayload
    payload = booking_payload pb event user seats (some pb.idempotency_key)

promote_user-KeepsTokens :
    (event entry user : Text) (seats : List Text) (found : Option Event)
    → KeepsTokens (promote_user event entry user seats found)
unfolding promote_user
promote_user-KeepsTokens event entry user seats found =
    bind-KeepsTokens (attempt (create_pending user event none (marshal_seats seats))) _
      (attempt-KeepsTokens Failure (create_pending user event none (marshal_seats seats))
        (create_pending-KeepsTokens user event none (marshal_seats seats)))
      branch
  where
    branch :
        (made : Result Error Booking)
        → KeepsTokens (elim made as (λ _. Action Failure ⊤) [
          | ok pb ↦ notify_promoted pb event entry user seats found
          | err _ ↦ pure tt
          | panic ↦ pure tt
        ])
    branch (ok pb) = notify_promoted-KeepsTokens pb event entry user seats found
    branch (err _) = λ env w. refl
    branch panic = λ env w. refl

-- The promotion of a waiting user reserves nothing.
promote-KeepsTokens :
    (event : Text) (seats : List Text) (found : Option Event)
    → KeepsTokens (promote event seats found)
unfolding promote
promote-KeepsTokens event seats found =
    bind-KeepsTokens (attempt (Waitlist.next_active event)) _
      (attempt-KeepsTokens Failure (Waitlist.next_active event) (next_active-KeepsTokens event))
      branch
  where
    branch :
        (next : Result Error (Text × Text × ℕ))
        → KeepsTokens (elim next as (λ _. Action Failure ⊤) [
          | ok (entry, user, position) ↦
              if user == empty_text then pure tt else promote_user event entry user seats found
          | err _ ↦ pure tt
          | panic ↦ pure tt
        ])
    branch (ok (entry, user, position)) = elim (Bool-cases (user == empty_text)) [
      | inl nobody ↦ rw nobody (λ env w. refl)
      | inr somebody ↦ rw somebody (promote_user-KeepsTokens event entry user seats found)
    ]
    branch (err _) = λ env w. refl
    branch panic = λ env w. refl

-- What `Cancel` does to the buckets: nothing, or the release of a booked booking's seats.
abbrev pub ReleasedOnce : Text → World → World → Type 0
ReleasedOnce id w w' =
    (w'.tokens ≡ w.tokens)
    ⊎ ((b : BookingRow) × (first_where (has_id id) w.db.bookings ≡ some b)
        × (is_booked b.status ≡ true)
        × (w'.tokens
            ≡ put w.tokens b.event_id (
                value_or_zero (w.tokens b.event_id)
                +ℤ pos (released_count (seats_or_none b.seats)))))

after_cancel-release :
    (b : Booking) (id : Text) (env : Env) (w : World)
    → (after_cancel b id env w).1.tokens
      ≡ (release b.event_id (pos (released_count (seats_or_none b.seats))) env w).1.tokens
unfolding after_cancel
after_cancel-release b id env w =
    bind-after (ignore (release b.event_id (pos (released_count (seats_or_none b.seats))))) _
      (λ _.
        bind-KeepsTokens (with_code 409 (Events.get b.event_id)) _
          (get_event-KeepsTokens b.event_id)
          λ found.
            bind-KeepsTokens (with_code 409 (Users.get_by_id b.user_id)) _
              (get_user-KeepsTokens b.user_id)
              λ row. bind-KeepsTokens (deref row) _ (deref-KeepsTokens Failure row) λ u.
                bind-KeepsTokens (deref found) _ (deref-KeepsTokens Failure found) λ e.
                  bind-KeepsTokens (ignore (send (Mail.cancellation u.email e.cancellation_fee id)))
                    _ (send-KeepsTokens (Mail.cancellation u.email e.cancellation_fee id))
                    λ _. promote-KeepsTokens b.event_id (seats_or_none b.seats) found)
      env w

-- Whatever fails, `Cancel` changes the buckets at most by one release, of as many tokens as the
-- booking has seats (one, if it has none), and only if the booking was booked: the cancellation of
-- a pending booking gives back none of the tokens that were taken for it, and the booking of the
-- same seats that is made for the next user of the waitlist takes none.
pub cancel-tokens : (id : Text) (env : Env) (w : World) → ReleasedOnce id w (cancel id env w).1
unfolding cancel ◌>>=◌
cancel-tokens id env w =
    go (cancel_booking_tx id env w)
      (Ensures-CommitsOrFails w.db (cancel_booking_tx id env w) (Returned id w.db)
        (cancel_booking_tx-outcome id env w))
      (cancel_booking_tx-KeepsTokens id env w)
  where
    next : Booking × Bool → Action Failure (Text × BookingStatus)
    next done = (if done.1 then after_cancel done.0 id else pure tt) >>= λ _.
        pure (done.0.id, done.0.status)

    after :
        (b : Booking) (w1 : World)
        → w1.tokens ≡ w.tokens
        → Returned id w.db (b, true) w1.db
        → ReleasedOnce id w (next (b, true) env w1).1
    after b w1 same (c, was, _, event, seats, _, _) =
        let n : ℤ = pos (released_count (seats_or_none b.seats)) in
        let rest : (next (b, true) env w1).1.tokens ≡ (release b.event_id n env w1).1.tokens =
          bind-after (after_cancel b id) (λ _. pure (b.id, b.status)) (λ _ env w. refl) env w1
          ∙ after_cancel-release b id env w1 in
        elim (release-outcome b.event_id n env w1) [
          | inl (failed, kept) ↦ inl (rest ∙ kept ∙ same)
          | inr (done, gave) ↦
              inr (c.found, c.here, sym was, rest ∙ gave ∙ rw (same, event, seats) refl)
        ]

    go :
        (r : Result Error (Booking × Bool) × World)
        → Ensures r (λ p w'. Returned id w.db p w'.db)
        → r.1.tokens ≡ w.tokens
        → ReleasedOnce id w (resume next env (coded 409 r.0, r.1)).1
    go (ok (b, true), w1) ret same = after b w1 same ret
    go (ok (b, false), w1) ret same = inl same
    go (err e, w1) ret same = inl same
    go (panic, w1) ret same = inl same

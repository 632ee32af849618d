-- ===== src/BookingService/Total.antt =====
-- When `Create` of the bookings service is sure to answer, and when it loses tokens.
use high_concurrency_ticketi.Waitlist.Queue.{known_keys}
use high_concurrency_ticketi.Prelude.{
  Bool-cases, inl, inr, suc, pos, ◌-ℤ◌, ◌≡◌, refl, true, false, ◌&&◌, none, some, List, arith,
  length, ltb, leb_ℤ, ltb_ℤ, if◌then◌else◌,
}
use high_concurrency_ticketi.Schema.{Text, BookingStatus, Event}
use high_concurrency_ticketi.Sql.{first_where}
use high_concurrency_ticketi.World.{World, Env, ok, err, ◌>>=◌, foreign_key_violation}
use high_concurrency_ticketi.World.Ensures.{IsUp}
use high_concurrency_ticketi.Outside.{failure, publish}
use high_concurrency_ticketi.Tables.{has_event_id}
use high_concurrency_ticketi.Bookings.{create_pending, insert_pending, has_user_row, has_event_row}
use high_concurrency_ticketi.Tokens.{reserve, reserve_lua, put, value_or_zero}
use high_concurrency_ticketi.Events
use high_concurrency_ticketi.Waitlist
use high_concurrency_ticketi.BookingService.{
  empty_text, check_expired, find_replay, accept, join_waitlist, reserve_or_wait, create,
}

module _ (event user : Text) (seats : List Text) (env : Env) (w : World) (e : Event) (up : IsUp env)
    (here : first_where (has_event_id event) w.db.events ≡ some e)
    (early : ltb e.end_time (env.moment (suc w.calls)).now ≡ false)
    (few : ltb_ℤ e.maximum_tickets_per_booking (pos (length seats)) ≡ false) where
  -- With every service up and no idempotency key, for an event that exists, has not ended and allows
  -- as many tickets, and a user that exists: `Create` answers 202 with a pending booking where the
  -- tokens suffice, and 200 with the position after everybody who waits where they do not.
  pub create_answers :
      has_user_row user w.db && has_event_row event w.db ≡ true
      → (create event user none seats env w).0 ≡ (
          if leb_ℤ (pos (length seats)) (value_or_zero (w.tokens event))
          then ok (
            record {
              booking_id = (env.moment (suc (suc w.calls))).fresh;
              status = BookingStatus.pending;
              position = 0;
            },
            202,
          )
          else ok (
            record {
              booking_id = empty_text;
              status = BookingStatus.waitlisted;
              position = Waitlist.next_position event w.db.waitlist;
            },
            200,
          ))
  unfolding create Events.get check_expired find_replay reserve_or_wait reserve reserve_lua accept
      create_pending insert_pending publish join_waitlist Waitlist.add Waitlist.insert_entry ◌>>=◌
  create_answers known =
      elim (Bool-cases (leb_ℤ (pos (length seats)) (value_or_zero (w.tokens event)))) [
        | inl fits ↦
            rw
              (
                up w.calls,
                here,
                early,
                few,
                up (suc w.calls),
                fits,
                up (suc (suc w.calls)),
                known,
                up (suc (suc (suc w.calls))),
              )
              refl
        | inr short ↦
            rw
              (
                up w.calls,
                here,
                early,
                few,
                up (suc w.calls),
                short,
                up (suc (suc w.calls)),
                up (suc (suc (suc w.calls))),
                waits,
              )
              refl
      ]
    where
      waits : known_keys event user w.db ≡ true
      waits = ground arith

  -- `Create` takes the tokens before it inserts the booking, and does not give them back when the
  -- insertion fails: for a user that does not exist it answers 500, nothing is booked, and the
  -- tokens of the seats are gone.
  pub create_loses_tokens :
      leb_ℤ (pos (length seats)) (value_or_zero (w.tokens event)) ≡ true
      → has_user_row user w.db ≡ false
      → let (r, w') = create event user none seats env w in
        (r ≡ err (failure 500 foreign_key_violation))
        × (w'.db ≡ w.db)
        × (w'.tokens ≡ put w.tokens event (value_or_zero (w.tokens event) -ℤ pos (length seats)))
  unfolding create Events.get check_expired find_replay reserve_or_wait reserve reserve_lua accept
      create_pending insert_pending ◌>>=◌
  create_loses_tokens fits unknown =
      rw (up w.calls, here, early, few, up (suc w.calls), fits, up (suc (suc w.calls)), unknown)
        (refl, refl, refl)

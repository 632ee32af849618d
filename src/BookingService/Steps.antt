-- ===== src/BookingService/Steps.antt =====
-- What the parts of `Create` of the bookings service have done when they return.
use high_concurrency_ticketi.Tokens.Keeps.{create_pending-KeepsTokens}
use high_concurrency_ticketi.Prelude.{
  ap, leb_ℤ, ℕ, ℤ, pos, ◌-ℤ◌, ◌≤ℤ◌, ◌≡◌, refl, ◌∙◌, ◌⊎◌, inl, inr, Bool, true, false, Option, List,
  [], ◌∷◌, ◌++◌, arith, length, if◌then◌else◌, Bool-cases,
}
use high_concurrency_ticketi.Schema.{SeatsJson, Text, Db, Booking, BookingStatus, marshal_seats}
use high_concurrency_ticketi.World.{
  TimeoutMark, Otp, WindowKey, Window, Mail, PayloadType, exec, query, World, Env, Moment, Action,
  Error, Result, ok, ignore, FinalizePayload,
}
use high_concurrency_ticketi.World.Ensures.{Ensures, Ensures-bind, Ensures-weaken}
use high_concurrency_ticketi.World.Services.{
  bind-unchanged, Ensures-intro, Ensures-with_code, Ensures-ignore, query-untouched, exec-tokens,
}
use high_concurrency_ticketi.Outside.{Failure, with_code, publish}
use high_concurrency_ticketi.Bookings.{insert_pending, create_pending, pending_row}
use high_concurrency_ticketi.Bookings.Create.{Created, create_pending-Created}
use high_concurrency_ticketi.Tokens.{reserve, put, value_or_zero}
use high_concurrency_ticketi.Waitlist
use high_concurrency_ticketi.Waitlist.Queue.{Joined, add-outcome}
use high_concurrency_ticketi.BookingService.{
  BookingResponse, booking_payload, accept, join_waitlist, reserve_or_wait,
}

-- What a request for a booking never touches.
abbrev pub Aside : Type 0
Aside =
    (Text → Text → Option TimeoutMark)
    × (Text → Option Otp)
    × (WindowKey → Window)
    × List (Option FinalizePayload)
    × List (Option FinalizePayload)
    × List Mail

abbrev pub aside : World → Aside
aside w = (w.timeouts, w.otps, w.windows, w.dead_letters, w.committed, w.outbox)

-- Everything but the number of calls, the database and the tokens.
abbrev pub others : World → List FinalizePayload × Aside
others w = (w.topic, aside w)

-- The database, the tokens and all the rest are as they were.
abbrev pub Untouched : World → World → Type 0
Untouched w w' = (w'.db ≡ w.db) × (w'.tokens ≡ w.tokens) × (others w' ≡ others w)

-- The message is published, or the call has failed.
abbrev pub Sent : FinalizePayload → World → World → Type 0
Sent p w w' = (w'.topic ≡ w.topic) ⊎ (w'.topic ≡ p ∷ w.topic)

-- What is published of a booking.
abbrev pub message : Text → Text → Text → Option Text → List Text → FinalizePayload
message id event user key seats = record {
  type = PayloadType.finalize_booking;
  booking_id = id;
  event_id = event;
  user_id = user;
  seats = seats;
  idempotency_key = key;
}

-- The tokens are taken, one pending booking of the seats is added, and its message is published unless
-- that call fails; nothing else is changed.
abbrev pub Accepted :
    Text → Text → Option Text → List Text → World → BookingResponse × ℕ → World → Type 0
Accepted event user key seats w (resp, code) w' =
    (code ≡ 202)
    × (resp.status ≡ BookingStatus.pending)
    × (pos (length seats) ≤ℤ value_or_zero (w.tokens event))
    × (w'.tokens ≡ put w.tokens event (value_or_zero (w.tokens event) -ℤ pos (length seats)))
    × (m : Moment) × (resp.booking_id ≡ m.fresh)
    × (w'.db ≡ record w.db {
      bookings = w.db.bookings ++ (pending_row m user event key (marshal_seats seats) ∷ []);
    })
    × Sent (message resp.booking_id event user key seats) w w'
    × (aside w' ≡ aside w)

-- The tokens are short, and the user has joined the line of the event; nothing else is changed.
abbrev pub Waiting : Text → Text → List Text → World → BookingResponse × ℕ → World → Type 0
Waiting event user seats w (resp, code) w' =
    (code ≡ 200)
    × (resp.status ≡ BookingStatus.waitlisted)
    × ¬ (pos (length seats) ≤ℤ value_or_zero (w.tokens event))
    × (w'.tokens ≡ w.tokens)
    × Joined event user w.db resp.position w'.db
    × (others w' ≡ others w)

abbrev pub topic_of : List FinalizePayload × Aside → List FinalizePayload
topic_of v = v.0

abbrev pub aside_of : List FinalizePayload × Aside → Aside
aside_of v = v.1

-- What a call of `Publish` may do.
abbrev Published : FinalizePayload → World → World → Type 0
Published p w w' = (w'.db ≡ w.db) × (w'.tokens ≡ w.tokens) × Sent p w w' × (aside w' ≡ aside w)

publish-Published :
    (p : FinalizePayload) (env : Env) (w : World) → Published p w (publish p env w).1
unfolding publish
publish-Published p env w = elim (Bool-cases (env.fault w.calls)) [
  | inl down ↦ rw down (refl, refl, inl refl, refl)
  | inr up ↦ rw up (refl, refl, inr refl, refl)
]

exec-others :
    {A : Type 0} (f : Moment → Db → Result Error A × Db) (env : Env) (w : World)
    → others (exec f env w).1 ≡ others w
unfolding exec
exec-others f env w = elim (Bool-cases (env.fault w.calls)) [
  | inl down ↦ rw down refl
  | inr up ↦ rw up refl
]

create_pending-others :
    (user event : Text) (key : Option Text) (seats : SeatsJson) (env : Env) (w : World)
    → others (create_pending user event key seats env w).1 ≡ others w
unfolding create_pending
create_pending-others user event key seats env w =
    exec-others (insert_pending user event key seats) env w

-- What is done after the tokens were taken.
abbrev Inserted :
    Text → Text → Option Text → List Text → World → BookingResponse × ℕ → World → Type 0
Inserted event user key seats w (resp, code) w' =
    (code ≡ 202)
    × (resp.status ≡ BookingStatus.pending)
    × (w'.tokens ≡ w.tokens)
    × (m : Moment) × (resp.booking_id ≡ m.fresh)
    × (w'.db ≡ record w.db {
      bookings = w.db.bookings ++ (pending_row m user event key (marshal_seats seats) ∷ []);
    })
    × Sent (message resp.booking_id event user key seats) w w'
    × (aside w' ≡ aside w)

pub accept-Inserted :
    (event user : Text) (key : Option Text) (seats : List Text) (env : Env) (w : World)
    → Ensures (accept event user key seats env w) (Inserted event user key seats w)
unfolding accept
accept-Inserted event user key seats env w =
    Ensures-bind (with_code 500 insert) _ env w
      (λ b w'.
        Created user event key (marshal_seats seats) (env.moment w.calls) w.db b w'.db
        × (w'.tokens ≡ w.tokens)
        × (others w' ≡ others w))
      _
      (Ensures-with_code 500 insert env w _ (
        Ensures-intro (insert env w) _ (λ b e. (
          create_pending-Created user event key (marshal_seats seats) env w b e,
          create_pending-KeepsTokens user event key (marshal_seats seats) env w,
          create_pending-others user event key (marshal_seats seats) env w,
        ))))
      λ b w1 q.
        Ensures-bind (ignore (publish (booking_payload b event user seats key))) _ env w1
          (λ _ w'. Published (booking_payload b event user seats key) w1 w') _
          (Ensures-ignore Failure (publish (booking_payload b event user seats key)) env w1 _
            (publish-Published (booking_payload b event user seats key) env w1))
          λ _ w2 (db2, tokens2, sent, aside2). (
            refl,
            refl,
            tokens2 ∙ q.1,
            env.moment w.calls,
            rw q.0.0 refl,
            db2 ∙ q.0.1,
            elim sent [
              | inl kept ↦ inl (kept ∙ ap topic_of q.2)
              | inr more ↦ inr (cc (more, ap topic_of q.2))
            ],
            aside2 ∙ ap aside_of q.2,
          )
  where
    insert : Action Error Booking
    insert = create_pending user event key (marshal_seats seats)

add-tokens :
    (event user : Text) (env : Env) (w : World)
    → (Waitlist.add event user env w).1.tokens ≡ w.tokens
unfolding Waitlist.add
add-tokens event user env w =
    bind-unchanged (λ v. v.tokens) (query read) _ env w (rw (query-untouched read env w) refl)
      λ position w1.
        bind-unchanged (λ v. v.tokens) (exec (Waitlist.insert_entry event user position)) _ env w1
          (exec-tokens (Waitlist.insert_entry event user position) env w1) λ id w2. refl
  where
    read : Moment → Db → Result Error ℕ
    read m db = ok (Waitlist.next_position event db.waitlist)

add-others :
    (event user : Text) (env : Env) (w : World)
    → others (Waitlist.add event user env w).1 ≡ others w
unfolding Waitlist.add
add-others event user env w =
    bind-unchanged others (query read) _ env w (rw (query-untouched read env w) refl) λ position w1.
      bind-unchanged others (exec (Waitlist.insert_entry event user position)) _ env w1
        (exec-others (Waitlist.insert_entry event user position) env w1) λ id w2. refl
  where
    read : Moment → Db → Result Error ℕ
    read m db = ok (Waitlist.next_position event db.waitlist)

add-Ensures :
    (event user : Text) (env : Env) (w : World)
    → Ensures (Waitlist.add event user env w) (λ position w'.
      Joined event user w.db position w'.db × (w'.tokens ≡ w.tokens) × (others w' ≡ others w))
add-Ensures event user env w =
    Ensures-intro (Waitlist.add event user env w)
      (λ position w'.
        Joined event user w.db position w'.db × (w'.tokens ≡ w.tokens) × (others w' ≡ others w))
      (λ position e. (
        elim (add-outcome event user env w) [
          | inl (inl (x, failed), same) ↦ cc
          | inl (inr failed, same) ↦ cc
          | inr (p, returned, j) ↦ same_position position p (cc) j
        ],
        add-tokens event user env w,
        add-others event user env w,
      ))
  where
    same_position :
        (n p : ℕ)
        → p ≡ n
        → Joined event user w.db p (Waitlist.add event user env w).1.db
        → Joined event user w.db n (Waitlist.add event user env w).1.db
    same_position n p h j = rw h at j

-- What is done where the tokens were short.
abbrev Queued : Text → Text → World → BookingResponse × ℕ → World → Type 0
Queued event user w (resp, code) w' =
    (code ≡ 200)
    × (resp.status ≡ BookingStatus.waitlisted)
    × (w'.tokens ≡ w.tokens)
    × Joined event user w.db resp.position w'.db
    × (others w' ≡ others w)

join_waitlist-Queued :
    (event user : Text) (env : Env) (w : World)
    → Ensures (join_waitlist event user env w) (Queued event user w)
unfolding join_waitlist
join_waitlist-Queued event user env w =
    Ensures-bind (with_code 500 (Waitlist.add event user)) _ env w
      (λ position w'.
        Joined event user w.db position w'.db × (w'.tokens ≡ w.tokens) × (others w' ≡ others w))
      _ (Ensures-with_code 500 (Waitlist.add event user) env w _ (add-Ensures event user env w))
      λ position w1 q. (refl, refl, q.1, q.0, q.2)

-- What the reservation has found and done.
abbrev Taken : Text → ℤ → World → Bool → World → Type 0
Taken event n w taken w' =
    (w'.db ≡ w.db)
    × (others w' ≡ others w)
    × (if taken
        then (n ≤ℤ value_or_zero (w.tokens event))
          × (w'.tokens ≡ put w.tokens event (value_or_zero (w.tokens event) -ℤ n))
        else ¬ (n ≤ℤ value_or_zero (w.tokens event)) × (w'.tokens ≡ w.tokens))

reserve-Taken :
    (event : Text) (n : ℤ) (env : Env) (w : World)
    → Ensures (reserve event n env w) (Taken event n w)
unfolding reserve
reserve-Taken event n env w = elim (Bool-cases (env.fault w.calls)) [
  | inl down ↦ rw down tt
  | inr up ↦ rw up (elim (Bool-cases (leb_ℤ n (value_or_zero (w.tokens event)))) [
    | inl fits ↦ rw fits (refl, refl, (ground arith, refl))
    | inr short ↦ rw short (refl, refl, (ground arith, refl))
  ])
]

abbrev pub Answered :
    Text → Text → Option Text → List Text → World → BookingResponse × ℕ → World → Type 0
Answered event user key seats w r w' =
    Accepted event user key seats w r w' ⊎ Waiting event user seats w r w'

pub reserve_or_wait-Answered :
    (event user : Text) (key : Option Text) (seats : List Text) (env : Env) (w : World)
    → Ensures (reserve_or_wait event user key seats env w) (Answered event user key seats w)
unfolding reserve_or_wait
reserve_or_wait-Answered event user key seats env w =
    Ensures-bind (with_code 500 (reserve event (pos (length seats)))) _ env w
      (Taken event (pos (length seats)) w) (Answered event user key seats w)
      (Ensures-with_code 500 (reserve event (pos (length seats))) env w _
        (reserve-Taken event (pos (length seats)) env w))
      branch
  where
    branch :
        (taken : Bool) (w1 : World)
        → Taken event (pos (length seats)) w taken w1
        → Ensures
            ((if taken then accept event user key seats else join_waitlist event user) env w1)
            (Answered event user key seats w)
    branch true w1 (same, rest, (fits, took)) =
        Ensures-weaken (accept event user key seats env w1) (Inserted event user key seats w1)
          (Answered event user key seats w) (accept-Inserted event user key seats env w1)
          (λ r w2 (code, status, tokens, m, id, db, sent, aside2). inl (
            code,
            status,
            fits,
            tokens ∙ took,
            m,
            id,
            rw same at db,
            elim sent [ inl kept ↦ inl (kept ∙ ap topic_of rest) | inr more ↦ inr cc ],
            aside2 ∙ ap aside_of rest,
          ))
    branch false w1 (same, rest, (short, kept)) =
        Ensures-weaken (join_waitlist event user env w1) (Queued event user w1)
          (Answered event user key seats w) (join_waitlist-Queued event user env w1)
          (λ r w2 (code, status, tokens, j, rest2).
            inr (code, status, short, tokens ∙ kept, rw same at j, rest2 ∙ rest))

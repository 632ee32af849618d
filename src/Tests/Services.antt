-- ===== src/Tests/Services.antt =====
-- The services on the sample data.
use high_concurrency_ticketi.World.Returns.{Returns}
use high_concurrency_ticketi.Lifecycle.{Reach, here, later, cancels, pays, reached-IsConsistent}
use high_concurrency_ticketi.BookingTx.Balance.{IsConsistent}
use high_concurrency_ticketi.Bookings.{has_id}
use high_concurrency_ticketi.Tables.{has_event_id}
use high_concurrency_ticketi.Money.{nan, cents, Covers, is_storable}
use high_concurrency_ticketi.Schema.{is_pending}
use high_concurrency_ticketi.PaymentService.{expected_amount, paid_seats}
use high_concurrency_ticketi.PaymentService.Unpriced.{nan_payment, nan_books}
use high_concurrency_ticketi.PaymentService.Payment.{Settled}
use high_concurrency_ticketi.Prelude.{
  ℤ, pos, ◌+ℤ◌, ◌-ℤ◌, ◌≤ℤ◌, ◌≡◌, refl, ◌⊎◌, true, none, some, [], ◌∷◌, arith, ◌==◌,
}
use high_concurrency_ticketi.Schema.{BookingRow, Text, BookingStatus, Event}
use high_concurrency_ticketi.Sql.{first_where}
use high_concurrency_ticketi.World.{
  World, ok, err, tick, foreign_key_violation, FinalizePayload, PayloadType,
}
use high_concurrency_ticketi.World.Ensures.{Ensures}
use high_concurrency_ticketi.Outside.{failure}
use high_concurrency_ticketi.Tokens.{put}
use high_concurrency_ticketi.BookingService.{create, cancel}
use high_concurrency_ticketi.BookingService.Total.{create_answers, create_loses_tokens}
use high_concurrency_ticketi.BookingService.Cancel.{ReleasedOnce, cancel-tokens}
use high_concurrency_ticketi.PaymentService.{PaymentRequest, refund_amount, process_booking_payment}
use high_concurrency_ticketi.PaymentService.Payment.{process_booking_payment-Settled}
use high_concurrency_ticketi.PaymentService.Refund.{refund_amount-bounds}
use high_concurrency_ticketi.FinalizeService.{handle_booking_timeout}
use high_concurrency_ticketi.FinalizeService.Timeout.{
  handle_booking_timeout-settled, handle_booking_timeout-tokens,
}
use high_concurrency_ticketi.Events.{like_event}
use high_concurrency_ticketi.Events.Likes.{like_event_twice}
use high_concurrency_ticketi.Samples.{
  waiting_row, shop-IsConsistent, always_up, always_up-IsUp, booked_row, concert, shop, town,
}

create_answers_example :
    (create 7 1 none (61 ∷ 62 ∷ []) always_up town).0
    ≡ ok (record { booking_id = 102; status = BookingStatus.pending; position = 0 }, 202)
create_answers_example =
    create_answers 7 1 (61 ∷ 62 ∷ []) always_up town concert always_up-IsUp refl refl refl refl

create_loses_tokens_example :
    let (r, w') = create 7 5 none (61 ∷ 62 ∷ []) always_up town in
    (r ≡ err (failure 500 foreign_key_violation))
    × (w'.db ≡ shop)
    × (w'.tokens ≡ put town.tokens 7 (pos 9 -ℤ pos 2))
create_loses_tokens_example =
    create_loses_tokens 7 5 (61 ∷ 62 ∷ []) always_up town concert always_up-IsUp refl refl refl refl
      refl

cancel-tokens_example : ReleasedOnce 52 town (cancel 52 always_up town).1
cancel-tokens_example = cancel-tokens 52 always_up town

abbrev payment : PaymentRequest
payment = record { booking_id = 51; amount = cents (pos 5000); payment_id = 95 }

process_booking_payment-Settled_example :
    Ensures (process_booking_payment 99 payment always_up town) (λ resp w'.
      (resp ≡ record { success = true; booking_id = some 51 })
      × (row : BookingRow) × (e : Event) × (first_where (has_id 51) shop.bookings ≡ some row)
      × (is_pending row.status ≡ true)
      × (first_where (has_event_id row.event_id) shop.events ≡ some e)
      × Covers (cents (pos 5000)) (expected_amount e (paid_seats 99 row.seats))
      × (is_storable (cents (pos 5000)) ≡ true)
      × Settled 51 (paid_seats 99 row.seats) (cents (pos 5000)) row w'.db)
process_booking_payment-Settled_example = process_booking_payment-Settled 99 payment always_up town

refund_amount-bounds_example :
    (r : ℤ) × (refund_amount (cents (pos 2500)) (cents (pos 300)) ≡ cents r)
    × (pos 0 ≤ℤ r)
    × (r ≤ℤ pos 2500)
    × (((pos 300 ≤ℤ pos 2500) × (pos 2500 ≡ r +ℤ pos 300))
        ⊎ (¬ (pos 300 ≤ℤ pos 2500) × (r ≡ pos 0)))
refund_amount-bounds_example = refund_amount-bounds (pos 2500) (pos 300) (omega arith) (omega arith)

abbrev late : FinalizePayload
late = record {
  type = PayloadType.booking_timeout;
  booking_id = 52;
  event_id = 7;
  user_id = 2;
  seats = 63 ∷ [];
  idempotency_key = none;
}

handle_booking_timeout-settled_example : (handle_booking_timeout late always_up town).1 ≡ tick town
handle_booking_timeout-settled_example =
    handle_booking_timeout-settled late always_up town booked_row refl refl

handle_booking_timeout-tokens_example :
    (handle_booking_timeout (record late { booking_id = 51 }) always_up town).1.tokens ≡ town.tokens
handle_booking_timeout-tokens_example =
    handle_booking_timeout-tokens (record late { booking_id = 51 }) always_up town

abbrev liked_town : World
liked_town = record town {
  db = record shop { event_likes = record { user_id = 1; event_id = 7 } ∷ [] };
}

like_event_twice_example :
    let (r, w') = like_event 7 1 always_up liked_town in
    (r ≡ ok tt)
    × (w'.db.event_likes ≡ record { user_id = 1; event_id = 7 } ∷ [])
    × (t : Text) × (first_where (λ e. e.id == 7) w'.db.events
        ≡ some (record concert { likes = pos 0 +ℤ pos 1; updated_at = t }))
like_event_twice_example =
    like_event_twice 7 1 always_up liked_town concert always_up-IsUp refl refl refl

-- Bob's booking is cancelled, and Alice pays for hers.
afternoon : Reach town (process_booking_payment 99 payment always_up (cancel 52 always_up town).1).1
afternoon =
    later always_up (later always_up here (cancels 52 (λ n. ground arith))) (pays 99 payment)

reached-IsConsistent_example :
    IsConsistent (process_booking_payment 99 payment always_up (cancel 52 always_up town).1).1.db
reached-IsConsistent_example =
    reached-IsConsistent town
      (process_booking_payment 99 payment always_up (cancel 52 always_up town).1).1
      shop-IsConsistent afternoon

nan_books_example :
    Returns (process_booking_payment 99 (nan_payment 51 95) always_up town) (λ resp w'.
      (resp ≡ record { success = true; booking_id = some 51 })
      × Settled 51 (paid_seats 99 waiting_row.seats) nan waiting_row w'.db)
nan_books_example =
    nan_books 51 95 waiting_row always_up always_up-IsUp 99 1 71 concert town refl refl refl refl
      refl

-- ===== src/Tests/Stores.antt =====
-- Transactions, bookings, tokens and the waitlist on the sample data.
use high_concurrency_ticketi.Prelude.{◌+◌, ◌≤◌, pos, ◌+ℤ◌, ◌≡◌, refl, none, List, [], ◌∷◌}
use high_concurrency_ticketi.Money.{cents}
use high_concurrency_ticketi.Schema.{Text, Booking, labels}
use high_concurrency_ticketi.World.{ok, err, scan_null}
use high_concurrency_ticketi.World.Ensures.{CommitsOrFails}
use high_concurrency_ticketi.World.Returns.{Returns}
use high_concurrency_ticketi.Bookings.{create_pending, get_by_id}
use high_concurrency_ticketi.Bookings.Create.{create_pending-get_by_id}
use high_concurrency_ticketi.BookingTx.{finalize_booking, cancel_booking_tx}
use high_concurrency_ticketi.BookingTx.Balance.{IsConsistent}
use high_concurrency_ticketi.BookingTx.Effects.{Finalized}
use high_concurrency_ticketi.BookingTx.CancelEffect.{Returned}
use high_concurrency_ticketi.BookingTx.Consistent.{
  finalize_booking-IsConsistent, cancel_booking_tx-IsConsistent,
}
use high_concurrency_ticketi.BookingTx.Outcome.{
  finalize_booking_succeeds, cancel_booking_tx_succeeds,
}
use high_concurrency_ticketi.BookingTx.Overcount.{finalize_booking_miscounts}
use high_concurrency_ticketi.Tokens.{value_or_zero}
use high_concurrency_ticketi.Tokens.Bucket.{no_overselling, Request, reserves, releases, serve_all}
use high_concurrency_ticketi.Waitlist.{add, next_active}
use high_concurrency_ticketi.Waitlist.Queue.{Joined, add-outcome, next_active-add}
use high_concurrency_ticketi.Samples.{
  shop-IsConsistent, always_up, always_up-IsUp, fails_at, waiting_row, booked_row, cancelled_row,
  concert, shop, town,
}

finalize_booking_succeeds_example :
    Returns
      (finalize_booking 51 (labels (61 ∷ 62 ∷ [])) (cents (pos 5000)) always_up town)
      (λ _ w'. Finalized 51 (labels (61 ∷ 62 ∷ [])) (cents (pos 5000)) shop w'.db)
finalize_booking_succeeds_example =
    finalize_booking_succeeds 51 (labels (61 ∷ 62 ∷ [])) (cents (pos 5000)) always_up town
      waiting_row (61 ∷ 62 ∷ []) always_up-IsUp refl refl

booked : Booking
booked = record {
  id = 52;
  user_id = 2;
  event_id = 7;
  status = booked_row.status;
  seats = booked_row.seats;
  idempotency_key = 72;
  amount_paid = cents (pos 2500);
  payment_status = booked_row.payment_status;
  created_at = 5;
  updated_at = 5;
  version = 1;
}

cancel_booking_tx_succeeds_example :
    Returns (cancel_booking_tx 52 always_up town) (λ p w'. Returned 52 shop p w'.db)
unfolding booked
cancel_booking_tx_succeeds_example =
    cancel_booking_tx_succeeds 52 always_up town booked_row booked (63 ∷ []) always_up-IsUp refl
      refl refl

finalize_booking-IsConsistent_example :
    IsConsistent (finalize_booking 51 (labels (61 ∷ [])) (cents (pos 2500)) always_up town).1.db
finalize_booking-IsConsistent_example =
    finalize_booking-IsConsistent 51 (labels (61 ∷ [])) (cents (pos 2500)) always_up town
      waiting_row shop-IsConsistent refl refl

cancel_booking_tx-IsConsistent_example : IsConsistent (cancel_booking_tx 52 always_up town).1.db
cancel_booking_tx-IsConsistent_example =
    cancel_booking_tx-IsConsistent 52 always_up town shop-IsConsistent

finalize_booking_miscounts_example :
    ((finalize_booking 53 (labels (61 ∷ [])) (cents (pos 2500)) always_up town).0 ≡ ok tt)
    × ¬ IsConsistent (finalize_booking 53 (labels (61 ∷ [])) (cents (pos 2500)) always_up town).1.db
finalize_booking_miscounts_example =
    finalize_booking_miscounts 53 (labels (61 ∷ [])) (cents (pos 2500)) always_up town cancelled_row
      (61 ∷ []) concert always_up-IsUp shop-IsConsistent refl refl refl refl

create_pending-get_by_id_example :
    (get_by_id 100 always_up (create_pending 1 7 none (labels (61 ∷ [])) always_up town).1).0
    ≡ err scan_null
unfolding create_pending
create_pending-get_by_id_example =
    create_pending-get_by_id 1 7 none (labels (61 ∷ [])) always_up town _ always_up-IsUp refl refl

rush : List Request
rush = reserves 7 4 ∷ reserves 7 3 ∷ reserves 7 4 ∷ releases 7 4 ∷ reserves 8 1 ∷ reserves 7 4 ∷ []

no_overselling_example :
    let (w', a) = serve_all 7 rush (fails_at 1) (town, record { granted = 0; returned = 0 }) in
    (a.granted ≤ 9 + a.returned)
    × (value_or_zero (w'.tokens 7) +ℤ pos a.granted ≡ pos (9 + a.returned))
no_overselling_example = no_overselling 7 9 rush (fails_at 1) town refl

add-outcome_example : CommitsOrFails shop (add 7 1 always_up town) (Joined 7 1 shop)
add-outcome_example = add-outcome 7 1 always_up town

next_active-add_example :
    ((add 8 1 always_up town).0 ≡ ok 1)
    × (id : Text) × ((next_active 8 always_up (add 8 1 always_up town).1).0 ≡ ok (id, 1, 1))
next_active-add_example = next_active-add 8 1 always_up town always_up-IsUp refl

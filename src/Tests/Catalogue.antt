-- ===== src/Tests/Catalogue.antt =====
-- Seats, events and users on the sample data.
use high_concurrency_ticketi.Prelude.{map, ◌≡◌, some, [], ◌∷◌, ◌&&◌, ◌==◌, if◌then◌else◌}
use high_concurrency_ticketi.Schema.{Text, SeatStatus, is_available}
use high_concurrency_ticketi.World.{◌>>=◌}
use high_concurrency_ticketi.World.Ensures.{CommitsOrFails}
use high_concurrency_ticketi.World.Returns.{Returns}
use high_concurrency_ticketi.BookingTx.Effects.{seat_view, member}
use high_concurrency_ticketi.Seats.{hold_seats, book_seats}
use high_concurrency_ticketi.Seats.Moves.{
  Moves, taken_by, hold_seats-outcome, book_seats-hold_seats,
}
use high_concurrency_ticketi.AdminStore.{cancel_event}
use high_concurrency_ticketi.AdminStore.Laws.{Closed, cancel_event-outcome}
use high_concurrency_ticketi.Samples.{always_up, always_up-IsUp, shop, town}

hold_seats-outcome_example :
    CommitsOrFails shop
      (hold_seats 7 (61 ∷ 63 ∷ []) 51 1900 always_up town)
      (λ _ after. Moves 7 (61 ∷ 63 ∷ []) is_available (SeatStatus.held, some 51) shop after)
hold_seats-outcome_example = hold_seats-outcome 7 (61 ∷ 63 ∷ []) 51 1900 always_up town

book_seats-hold_seats_example :
    Returns
      ((hold_seats 7 (61 ∷ 63 ∷ []) 51 1900 >>= λ _. book_seats 7 (61 ∷ 63 ∷ []) 54) always_up town)
      (λ _ w'.
        (e' l : Text)
        → seat_view e' l w'.db ≡ (
            if (7 == e') && member l (61 ∷ 63 ∷ [])
            then map (taken_by 54) (seat_view e' l shop)
            else seat_view e' l shop))
book_seats-hold_seats_example =
    book_seats-hold_seats 7 (61 ∷ 63 ∷ []) 51 54 1900 always_up town always_up-IsUp

cancel_event-outcome_example :
    CommitsOrFails shop (cancel_event 7 always_up town) (λ _ after. Closed 7 shop after)
cancel_event-outcome_example = cancel_event-outcome 7 always_up town

-- ===== src/Tests/Jobs.antt =====
-- The jobs, the service of the administrator and the rate limiters on the sample data.
use high_concurrency_ticketi.Prelude.{
  -ℤ_parts, ◌≤ℤ◌, ◌+◌, ◌*◌, ◌≤◌, pos, true, false, Option, none, some, ◌≡◌, refl, List, [], ◌∷◌,
  ◌==◌, if◌then◌else◌, arith,
}
use high_concurrency_ticketi.Prelude.Int.{◌+ℤ◌, ◌-ℤ◌}
use high_concurrency_ticketi.Money.{cents}
use high_concurrency_ticketi.Schema.{Text, Time, EventCapacity, second}
use high_concurrency_ticketi.World.{ok, World, by_address}
use high_concurrency_ticketi.World.Returns.{Returns}
use high_concurrency_ticketi.AdminService.{AdminEvent, create_event}
use high_concurrency_ticketi.AdminService.Stock.{Stocked, create_event-Stocked}
use high_concurrency_ticketi.Reconcile.{desired, reconcile, fix_row}
use high_concurrency_ticketi.Reconcile.Restored.{tokens_of}
use high_concurrency_ticketi.Reconcile.Overfill.{fix_row_overfills}
use high_concurrency_ticketi.Reconcile.Job.{Reconciled, reconcile-Reconciled}
use high_concurrency_ticketi.RateLimit.{Buckets, rate_limit}
use high_concurrency_ticketi.RateLimit.Admitted.{
  run, passed, Between, passed_bound, next_passes, refusal_credits_twice,
}
use high_concurrency_ticketi.RateLimit.Redis.{Headers, next, limit_by_key}
use high_concurrency_ticketi.RateLimit.Seconds.{Descends, limit_by_key_never_refuses}
use high_concurrency_ticketi.Tokens.{reserve}
use high_concurrency_ticketi.Samples.{always_up, always_up-IsUp, fails_at, shop, town}

abbrev play : AdminEvent
play = record {
  name = 14;
  venue = 24;
  category = 34;
  start_time = 2000;
  end_time = 3000;
  capacity = pos 2;
  metadata = 45;
  ticket_price = cents (pos 1000);
  cancellation_fee = cents (pos 100);
  maximum_tickets_per_booking = pos 2;
  seats = 61 ∷ 62 ∷ [];
}

create_event-Stocked_example :
    Returns (create_event play always_up town) (Stocked play always_up town)
create_event-Stocked_example =
    create_event-Stocked play always_up town always_up-IsUp refl refl refl

abbrev concert_row : EventCapacity
concert_row = record {
  event_id = 7;
  capacity = pos 10;
  reserved_count = pos 4;
  held_count = pos 0;
  updated_at = 1;
}

abbrev counted_town : World
counted_town = record town { db = record shop { capacities = concert_row ∷ [] } }

reconcile-Reconciled_example :
    Returns
      (reconcile always_up counted_town)
      (λ _ w'. Reconciled w' × (w'.db.events ≡ shop.events))
unfolding ◌-ℤ◌
reconcile-Reconciled_example =
    reconcile-Reconciled always_up counted_town always_up-IsUp (tt, tt) (omega arith) (omega arith)

fix_row_overfills_example : Returns (fix_row concert_row (fails_at 0) counted_town) (λ _ w'.
    (tokens_of 7 w' ≡ pos 9 +ℤ desired concert_row)
    × ((reserve 7 (desired concert_row +ℤ pos 1) always_up w').0 ≡ ok true))
fix_row_overfills_example =
    fix_row_overfills concert_row (fails_at 0) always_up counted_town refl refl always_up-IsUp
      wanted (omega arith)
  where
    wanted : pos 1 ≤ℤ desired concert_row
    wanted = omega (arith, -ℤ_parts (pos 10) (pos 4))

abbrev no_buckets : Buckets
no_buckets h = none

abbrev requests : List (Text × Time)
requests = (1, 100) ∷ (2, 150) ∷ (1, 200) ∷ []

in_time : Between 2 3 1 100 200 requests
in_time = (
  (λ e. (omega arith, omega arith)),
  ((λ e. (omega arith, omega arith)), ((λ e. (omega arith, omega arith)), tt)),
)

passed_bound_example : passed 2 3 1 requests no_buckets * second + 100 * 2 ≤ 3 * second + 200 * 2
unfolding rate_limit ◌+ℤ◌ ◌-ℤ◌
passed_bound_example =
    passed_bound 2 3 1 100 200 requests no_buckets refl (omega arith) in_time refl

abbrev one_bucket : Buckets
one_bucket h = if h == 1 then some (record { tokens = pos 0; last = 100 }) else none

next_passes_example :
    (rate_limit 2 3 1 (100 + second) (run 2 3 ((1, 200) ∷ (2, 300) ∷ []) one_bucket)).0 ≡ true
unfolding rate_limit ◌+ℤ◌ ◌-ℤ◌
next_passes_example =
    next_passes 2 3 1 (100 + second) ((1, 200) ∷ (2, 300) ∷ []) one_bucket
      (record { tokens = pos 0; last = 100 }) refl (omega arith) (omega arith) (omega arith)
      ((λ e. (omega arith, omega arith)), ((λ e. (omega arith, omega arith)), tt)) refl

-- A third of a second at two requests a second is two thirds of a token.
refusal_credits_twice_example :
    let first = rate_limit 2 3 1 (100 + 333_333_334) one_bucket in
    (first.0 ≡ false) × ((rate_limit 2 3 1 (100 + 333_333_334) first.1).0 ≡ true)
refusal_credits_twice_example =
    refusal_credits_twice 2 3 1 (100 + 333_333_334) one_bucket
      (record { tokens = pos 0; last = 100 }) refl (omega arith) (omega arith) (omega arith)

-- The limits of internal/api/router.go.
limit_by_key_never_refuses_example :
    Returns (limit_by_key (by_address 1) 50 100 always_up town) (λ v w'.
      ((h : Option Headers) × (v ≡ next h)) × Descends 1 (w'.windows (by_address 1)).members)
limit_by_key_never_refuses_example =
    limit_by_key_never_refuses (by_address 1) 50 100 always_up town refl (omega arith) tt

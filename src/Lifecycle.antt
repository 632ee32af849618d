-- ===== src/Lifecycle.antt =====
-- The life of the bookings: requests, cancellations and payments of
-- internal/service/bookings/bookings.go and internal/service/payment/payment.go, and the timeouts of
-- internal/service/worker/finalize.go, one after the other.
use high_concurrency_ticketi.Prelude.{◌≡◌, ℕ, Option, List}
use high_concurrency_ticketi.Schema.{Text}
use high_concurrency_ticketi.Sql.{count_where}
use high_concurrency_ticketi.World.{World, Env, FinalizePayload}
use high_concurrency_ticketi.Bookings.{has_id}
use high_concurrency_ticketi.BookingTx.Balance.{IsConsistent}
use high_concurrency_ticketi.BookingService.{create, cancel}
use high_concurrency_ticketi.BookingService.Counters.{cancel-Counts}
use high_concurrency_ticketi.BookingService.CreateCounters.{create-Counts}
use high_concurrency_ticketi.PaymentService.{
  PaymentRequest, process_booking_payment, process_cancellation_refund,
}
use high_concurrency_ticketi.PaymentService.Counters.{
  process_booking_payment-Keeps, process_cancellation_refund-Keeps,
}
use high_concurrency_ticketi.FinalizeService.{handle_booking_timeout}
use high_concurrency_ticketi.FinalizeService.Counters.{handle_booking_timeout-Counts}

-- The ids that the calls of a handler generate are in nobody's use when it starts.
abbrev pub HasFreshIds : Env → World → Type 0
HasFreshIds env w = (n : ℕ) → count_where (has_id (env.moment n).fresh) w.db.bookings ≡ 0

-- One handler, with any failures of the services on its way.
pub data Step (w : World) (env : Env) : World → Type 0 where
  books :
      (event user : Text) (key : Option Text) (seats : List Text)
      → HasFreshIds env w
      → Step w env (create event user key seats env w).1
  cancels : (id : Text) → HasFreshIds env w → Step w env (cancel id env w).1
  times_out :
      (p : FinalizePayload) → HasFreshIds env w → Step w env (handle_booking_timeout p env w).1
  pays :
      (seat1 : Text) (req : PaymentRequest) → Step w env (process_booking_payment seat1 req env w).1
  refunds : (id : Text) → Step w env (process_cancellation_refund id env w).1

pub data Reach (start : World) : World → Type 0 where
  here : Reach start start
  later : {w w' : World} (env : Env) → Reach start w → Step w env w' → Reach start w'

Step-IsConsistent :
    (w : World) (env : Env) (w' : World) → IsConsistent w.db → Step w env w' → IsConsistent w'.db
Step-IsConsistent w env w' c (books event user key seats fresh) =
    create-Counts event user key seats env w (record { consistent = c; unused = fresh })
Step-IsConsistent w env w' c (cancels id fresh) =
    cancel-Counts id env w (record { consistent = c; unused = fresh })
Step-IsConsistent w env w' c (times_out p fresh) =
    handle_booking_timeout-Counts p env w (record { consistent = c; unused = fresh })
Step-IsConsistent w env w' c (pays seat1 req) = process_booking_payment-Keeps seat1 req env w c
Step-IsConsistent w env w' c (refunds id) = process_cancellation_refund-Keeps id env w c

-- Bookings, cancellations with the promotion of the next user, payments, refunds and timeouts, one
-- after the other in any order, whichever calls of the services fail in each: if the ids of the
-- bookings were unique and every event's counter was the number of its booked bookings, that is so
-- after all of them, where every handler generates ids that no booking has when it starts.
pub reached-IsConsistent :
    (start w : World) → IsConsistent start.db → Reach start w → IsConsistent w.db
reached-IsConsistent start w c here = c
reached-IsConsistent start w c (later {w = v} env r s) =
    Step-IsConsistent v env w (reached-IsConsistent start v c r) s

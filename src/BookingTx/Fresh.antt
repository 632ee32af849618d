-- ===== src/BookingTx/Fresh.antt =====
-- Generated ids that no booking has yet.
use high_concurrency_ticketi.Prelude.{◌≡◌, refl, ℕ, Option}
use high_concurrency_ticketi.Schema.{Text, Db, SeatsJson}
use high_concurrency_ticketi.Sql.{count_where}
use high_concurrency_ticketi.Sql.Laws.{count_where-update_where_same}
use high_concurrency_ticketi.World.{
  World, Env, Action, Result, ok, err, panic, ◌>>=◌, tick, resume, attempt,
}
use high_concurrency_ticketi.World.Ensures.{Ensures-weaken, with_tx-keeps}
use high_concurrency_ticketi.World.Keeps.{Keeps}
use high_concurrency_ticketi.Bookings.{has_id, create_pending}
use high_concurrency_ticketi.BookingTx.{cancel_body, cancel_booking_tx}
use high_concurrency_ticketi.BookingTx.Balance.{IsConsistent, stamp, cancel_row}
use high_concurrency_ticketi.BookingTx.CancelEffect.{Cancelled, cancel_body-Returned}
use high_concurrency_ticketi.BookingTx.Consistent.{Cancelled-IsConsistent}
use high_concurrency_ticketi.BookingTx.Kept.{create_pending-IsConsistent}

-- The counters are right, and no booking has an id that a call will generate.
pub record IsReady (env : Env) (db : Db) : Type 0 where
  pub consistent : IsConsistent db
  pub unused : (n : ℕ) → count_where (has_id (env.moment n).fresh) db.bookings ≡ 0

-- Where that holds before a call, the counters are right after it.
abbrev pub Counts : {E A : Type 0} → Action E A → Type 0
Counts m = (env : Env) (w : World) → IsReady env w.db → IsConsistent (m env w).1.db

pub Keeps-Counts : {E A : Type 0} (m : Action E A) → Keeps IsConsistent m → Counts m
Keeps-Counts m k env w i = k env w i.consistent

-- Before the booking is made.
pub ready-Counts :
    {E A B : Type 0} (m : Action E A) (f : A → Action E B)
    → ((env : Env) (w : World) → IsReady env w.db → IsReady env (m env w).1.db)
    → ((a : A) → Counts (f a))
    → Counts (m >>= f)
unfolding ◌>>=◌
ready-Counts {E} {A} {B} m f k h env w i = go (m env w) (k env w i)
  where
    go : (r : Result E A × World) → IsReady env r.1.db → IsConsistent (resume f env r).1.db
    go (ok a, w') j = h a env w' j
    go (err e, w') j = j.consistent
    go (panic, w') j = j.consistent

pub before-Counts :
    {E A B : Type 0} (m : Action E A) (f : A → Action E B)
    → ((Inv : Db → Type 0) → Keeps Inv m)
    → ((a : A) → Counts (f a))
    → Counts (m >>= f)
before-Counts m f k h = ready-Counts m f (λ env w i. k (IsReady env) env w i) h

-- And after it.
pub after-Counts :
    {E A B : Type 0} (m : Action E A) (f : A → Action E B)
    → Counts m
    → ((a : A) → Keeps IsConsistent (f a))
    → Counts (m >>= f)
unfolding ◌>>=◌
after-Counts {E} {A} {B} m f k h env w i = go (m env w) (k env w i)
  where
    go : (r : Result E A × World) → IsConsistent r.1.db → IsConsistent (resume f env r).1.db
    go (ok a, w') j = h a env w' j
    go (err e, w') j = j
    go (panic, w') j = j

pub attempt-Counts :
    (F : Type 0) {E A : Type 0} (m : Action E A) → Counts m → Counts (attempt {F = F} m)
attempt-Counts F {E} {A} m k env w i = go (m env w) (k env w i)
  where
    go :
        (r : Result E A × World)
        → IsConsistent r.1.db
        → let c : Result F (Result E A) × World = elim r.0 [
          | ok a ↦ (ok (ok a), r.1)
          | err e ↦ (ok (err e), r.1)
          | panic ↦ (panic, r.1)
        ] in
          IsConsistent c.1.db
    go (ok a, w') j = j
    go (err e, w') j = j
    go (panic, w') j = j

pub create_pending-Counts :
    (user event : Text) (key : Option Text) (seats : SeatsJson)
    → Counts (create_pending user event key seats)
create_pending-Counts user event key seats env w i =
    create_pending-IsConsistent user event key seats env w (i.unused w.calls) i.consistent

pub cancel_booking_tx-IsReady :
    (id : Text) (env : Env) (w : World)
    → IsReady env w.db
    → IsReady env (cancel_booking_tx id env w).1.db
unfolding cancel_booking_tx
cancel_booking_tx-IsReady id env w i =
    with_tx-keeps (IsReady env) (cancel_body id) env w i
      (Ensures-weaken _ _ _ (cancel_body-Returned id env (tick w)) (λ p w' r. ready w'.db r.0))
  where
    ready : (after : Db) → Cancelled id w.db after → IsReady env after
    ready after k = record {
      consistent = Cancelled-IsConsistent id w.db after i.consistent k;
      unused = λ n.
          rw
            (
              k.rows,
              count_where-update_where_same (has_id (env.moment n).fresh) (has_id id)
                  (stamp k.at cancel_row) w.db.bookings (λ r. refl),
            )
            (i.unused n);
    }

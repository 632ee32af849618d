-- ===== src/Tokens/Keeps.antt =====
-- The calls that leave every token bucket alone, whether they fail or not.
use high_concurrency_ticketi.Users.{has_user_id}
use high_concurrency_ticketi.Prelude.{
  ℕ, suc, ◌≡◌, refl, inl, inr, Option, none, some, List, [], ◌∷◌, if◌then◌else◌, Bool-cases, ◌==◌,
}
use high_concurrency_ticketi.Schema.{
  Text, Db, Booking, BookingRow, Seat, SeatsJson, is_booked, unmarshal_seats,
}
use high_concurrency_ticketi.Sql.{delete_where, count_where, first_where}
use high_concurrency_ticketi.World.{
  FinalizePayload, World, Env, Moment, Action, Error, Result, ok, err, panic, pure, ◌>>=◌, resume,
  tick, attempt, or_raise, deref, from_result, exec, query, with_tx, end_tx, require_rows, no_rows,
  bad_json, Mail,
}
use high_concurrency_ticketi.World.Services.{
  bind-unchanged, attempt-unchanged, query-untouched, exec-tokens,
}
use high_concurrency_ticketi.Outside.{publish, send}
use high_concurrency_ticketi.Tables.{
  update_bookings, update_events, update_each, update_seat_rows, is_seat, free_seat, has_event_id,
}
use high_concurrency_ticketi.Bookings.{
  get_by_id, scan_optional, has_id, scan_booking, create_pending, insert_pending,
}
use high_concurrency_ticketi.BookingTx.{cancel_body, cancel_booking_tx, release_booked}
use high_concurrency_ticketi.BookingTx.Balance.{cancel_row, lower_reserved}
use high_concurrency_ticketi.Events
use high_concurrency_ticketi.Users
use high_concurrency_ticketi.Waitlist

-- The call leaves every bucket alone, however it ends.
abbrev pub KeepsTokens : {E A : Type 0} → Action E A → Type 0
KeepsTokens m = (env : Env) (w : World) → (m env w).1.tokens ≡ w.tokens

pub bind-KeepsTokens :
    {E A B : Type 0} (m : Action E A) (f : A → Action E B)
    → KeepsTokens m
    → ((a : A) → KeepsTokens (f a))
    → KeepsTokens (m >>= f)
bind-KeepsTokens m f h k env w =
    bind-unchanged (λ v. v.tokens) m f env w (h env w) (λ a w'. k a env w')

pub attempt-KeepsTokens :
    (F : Type 0) {E A : Type 0} (m : Action E A) → KeepsTokens m → KeepsTokens (attempt {F = F} m)
attempt-KeepsTokens F m h env w = attempt-unchanged (λ v. v.tokens) F m env w (h env w)

pub query-KeepsTokens : {A : Type 0} (f : Moment → Db → Result Error A) → KeepsTokens (query f)
query-KeepsTokens f env w = rw (query-untouched f env w) refl

pub or_raise-KeepsTokens : {E A : Type 0} (o : Option A) (e : E) → KeepsTokens (or_raise o e)
or_raise-KeepsTokens none e env w = refl
or_raise-KeepsTokens (some a) e env w = refl

pub deref-KeepsTokens : (E : Type 0) {A : Type 0} (o : Option A) → KeepsTokens (deref {E = E} o)
deref-KeepsTokens E none env w = refl
deref-KeepsTokens E (some a) env w = refl

pub send-KeepsTokens : (mail : Mail) → KeepsTokens (send mail)
unfolding send
send-KeepsTokens mail env w = elim (Bool-cases (env.fault w.calls)) [
  | inl down ↦ rw down refl
  | inr up ↦ rw up refl
]

pub require_rows-KeepsTokens : (n : ℕ) → KeepsTokens (require_rows n)
require_rows-KeepsTokens ℕ.zero env w = refl
require_rows-KeepsTokens (suc n) env w = refl

pub remove-KeepsTokens : (id : Text) → KeepsTokens (Waitlist.remove id)
unfolding Waitlist.remove
remove-KeepsTokens id =
    bind-KeepsTokens (exec drop) _ (exec-tokens drop) (λ n. require_rows-KeepsTokens n)
  where
    drop : Moment → Db → Result Error ℕ × Db
    drop m db = (
      ok (count_where (λ r. r.id == id) db.waitlist),
      record db { waitlist = delete_where (λ r. r.id == id) db.waitlist },
    )

pub update_each-KeepsTokens :
    (e : Text) (f : Seat → Seat) (ls : List Text) → KeepsTokens (update_each e f ls)
unfolding update_each
update_each-KeepsTokens e f [] = λ env w. refl
update_each-KeepsTokens e f (l ∷ ls) =
    bind-KeepsTokens (exec (update_seat_rows (is_seat e l) f)) _
      (exec-tokens (update_seat_rows (is_seat e l) f)) (λ _. update_each-KeepsTokens e f ls)

pub release_booked-KeepsTokens : (b : Booking) → KeepsTokens (release_booked b)
unfolding release_booked
release_booked-KeepsTokens b =
    bind-KeepsTokens (exec (update_events (has_event_id b.event_id) lower_reserved)) _
      (exec-tokens (update_events (has_event_id b.event_id) lower_reserved))
      λ n.
        bind-KeepsTokens (or_raise (unmarshal_seats b.seats) bad_json) _
          (or_raise-KeepsTokens (unmarshal_seats b.seats) bad_json)
          λ ls. update_each-KeepsTokens b.event_id free_seat ls

pub from_result-KeepsTokens : {E A : Type 0} (r : Result E A) → KeepsTokens (from_result r)
from_result-KeepsTokens r env w = refl

pub publish-KeepsTokens : (p : FinalizePayload) → KeepsTokens (publish p)
unfolding publish
publish-KeepsTokens p env w = elim (Bool-cases (env.fault w.calls)) [
  | inl down ↦ rw down refl
  | inr up ↦ rw up refl
]

pub create_pending-KeepsTokens :
    (user event : Text) (key : Option Text) (seats : SeatsJson)
    → KeepsTokens (create_pending user event key seats)
unfolding create_pending
create_pending-KeepsTokens user event key seats = exec-tokens (insert_pending user event key seats)

-- A transaction that leaves the buckets alone until it ends does so when it ends.
pub with_tx-KeepsTokens :
    {A : Type 0} (body : Action Error A) → KeepsTokens body → KeepsTokens (with_tx body)
unfolding with_tx end_tx
with_tx-KeepsTokens {A} body h env w = elim (Bool-cases (env.fault w.calls)) [
  | inl down ↦ rw down refl
  | inr up ↦ rw up (go (body env (tick w)) (h env (tick w)))
]
  where
    go :
        (r : Result Error A × World)
        → r.1.tokens ≡ w.tokens
        → (end_tx env w.db r).1.tokens ≡ w.tokens
    go (ok a, w') q = elim (Bool-cases (env.fault w'.calls)) [
      | inl down ↦ rw down q
      | inr up ↦ rw up q
    ]
    go (err e, w') q = q
    go (panic, w') q = q

pub cancel_booking_tx-KeepsTokens : (id : Text) → KeepsTokens (cancel_booking_tx id)
unfolding cancel_booking_tx cancel_body
cancel_booking_tx-KeepsTokens id = with_tx-KeepsTokens (cancel_body id) (
    bind-KeepsTokens (query read) _ (query-KeepsTokens read) λ row.
      bind-KeepsTokens (or_raise row no_rows) _ (or_raise-KeepsTokens row no_rows) λ found.
        bind-KeepsTokens (from_result (scan_booking found)) _
          (from_result-KeepsTokens (scan_booking found))
          λ b.
            bind-KeepsTokens (exec (update_bookings (has_id id) cancel_row)) _
              (exec-tokens (update_bookings (has_id id) cancel_row))
              λ n.
                bind-KeepsTokens (if is_booked b.status then release_booked b else pure tt) _
                  (branch b) λ _ env w. refl)
  where
    read : Moment → Db → Result Error (Option BookingRow)
    read m db = ok (first_where (has_id id) db.bookings)

    branch : (b : Booking) → KeepsTokens (if is_booked b.status then release_booked b else pure tt)
    branch b = elim (Bool-cases (is_booked b.status)) [
      | inl was ↦ rw was (release_booked-KeepsTokens b)
      | inr not ↦ rw not (λ env w. refl)
    ]

-- After its first call the chain leaves the buckets alone.
pub bind-after :
    {E A B : Type 0} (m : Action E A) (f : A → Action E B)
    → ((a : A) → KeepsTokens (f a))
    → (env : Env) (w : World) → ((m >>= f) env w).1.tokens ≡ (m env w).1.tokens
unfolding ◌>>=◌
bind-after {E} {A} {B} m f k env w = go (m env w)
  where
    go : (r : Result E A × World) → (resume f env r).1.tokens ≡ r.1.tokens
    go (ok a, w') = k a env w'
    go (err e, w') = refl
    go (panic, w') = refl

pub next_active-KeepsTokens : (event : Text) → KeepsTokens (Waitlist.next_active event)
unfolding Waitlist.next_active
next_active-KeepsTokens event =
    query-KeepsTokens (λ m db. ok (Waitlist.next_result (Waitlist.head_of_line event db.waitlist)))

pub get_user-KeepsTokens : (id : Text) → KeepsTokens (Users.get_by_id id)
unfolding Users.get_by_id
get_user-KeepsTokens id = query-KeepsTokens (λ m db. ok (first_where (has_user_id id) db.users))

pub get_event-KeepsTokens : (id : Text) → KeepsTokens (Events.get id)
unfolding Events.get
get_event-KeepsTokens id = query-KeepsTokens (λ m db. ok (first_where (has_event_id id) db.events))

pub get_booking_row-KeepsTokens : (id : Text) → KeepsTokens (get_by_id id)
unfolding get_by_id
get_booking_row-KeepsTokens id =
    query-KeepsTokens (λ m db. scan_optional (first_where (has_id id) db.bookings))

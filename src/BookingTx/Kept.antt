-- ===== src/BookingTx/Kept.antt =====
-- The single statements on the bookings keep the counters of the events.
use high_concurrency_ticketi.Prelude.{◌≡◌, refl, pos, Bool, Option, [], ◌∷◌, ◌++◌, arith}
use high_concurrency_ticketi.Schema.{Text, Db, BookingRow, SeatsJson}
use high_concurrency_ticketi.Sql.{count_where}
use high_concurrency_ticketi.Sql.Laws.{count_where-append, count_where-update_where_same, All-map}
use high_concurrency_ticketi.World.{World, Env, Moment}
use high_concurrency_ticketi.World.Ensures.{exec-keeps}
use high_concurrency_ticketi.Tables.{update_bookings}
use high_concurrency_ticketi.Bookings.{has_id, insert_pending, create_pending, pending_row}
use high_concurrency_ticketi.BookingTx.Balance.{booked_of, booked_count, IsConsistent}

-- The update leaves the id, the event and the status of a row.
abbrev pub KeepsKind : (BookingRow → BookingRow) → Type 0
KeepsKind f =
    (r : BookingRow) → ((f r).id ≡ r.id) × ((f r).event_id ≡ r.event_id) × ((f r).status ≡ r.status)

pub update_bookings-IsConsistent :
    (p : BookingRow → Bool) (f : BookingRow → BookingRow) (m : Moment) (db : Db)
    → KeepsKind f
    → IsConsistent db
    → IsConsistent (update_bookings p f m db).1
update_bookings-IsConsistent p f m db kept c = record {
  unique = λ id.
      rw (count_where-update_where_same (has_id id) p g db.bookings (λ r. rw (kept r).0 refl))
        (c.unique id);
  balanced =
      All-map (λ ev. ev.reserved ≡ pos (booked_count ev.id db.bookings)) _ db.events
        (λ ev h.
          rw
            (count_where-update_where_same (booked_of ev.id) p g db.bookings
              (λ r. rw ((kept r).1, (kept r).2) refl))
            h)
        c.balanced;
}
  where
    g : BookingRow → BookingRow
    g r = let s = f r in record s { updated_at = m.now }

module _ (user event : Text) (key : Option Text) (seats : SeatsJson) where
  append_pending-IsConsistent :
      (m : Moment) (db : Db)
      → count_where (has_id m.fresh) db.bookings ≡ 0
      → IsConsistent db
      → IsConsistent
          (record db { bookings = db.bookings ++ (pending_row m user event key seats ∷ []) })
  append_pending-IsConsistent m db unused c = record {
    unique = λ id.
        ground (arith, c.unique id, unused, count_where-append (has_id id) db.bookings (row ∷ []));
    balanced =
        All-map (λ ev. ev.reserved ≡ pos (booked_count ev.id db.bookings)) _ db.events
          (λ ev h. ground (arith, count_where-append (booked_of ev.id) db.bookings (row ∷ []), h))
          c.balanced;
  }
    where
      row : BookingRow
      row = pending_row m user event key seats

  insert_pending-IsConsistent :
      (m : Moment) (db : Db)
      → count_where (has_id m.fresh) db.bookings ≡ 0
      → IsConsistent db
      → IsConsistent (insert_pending user event key seats m db).1
  unfolding insert_pending
  insert_pending-IsConsistent m db unused c =
      let more = append_pending-IsConsistent m db unused c in ground (arith, more, c)

  -- `CreatePending` under an id in nobody's use.
  pub create_pending-IsConsistent :
      (env : Env) (w : World)
      → count_where (has_id (env.moment w.calls).fresh) w.db.bookings ≡ 0
      → IsConsistent w.db
      → IsConsistent (create_pending user event key seats env w).1.db
  unfolding create_pending
  create_pending-IsConsistent env w unused c =
      exec-keeps IsConsistent (insert_pending user event key seats) env w c
        (insert_pending-IsConsistent (env.moment w.calls) w.db unused c)

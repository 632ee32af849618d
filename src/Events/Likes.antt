-- ===== src/Events/Likes.antt =====
-- Likes, and the job that lets events expire.
use high_concurrency_ticketi.Prelude.{
  suc, pos, ◌+ℤ◌, ◌≡◌, refl, true, ◌&&◌, negate, some, List, [], ◌∷◌, arith, ◌==◌, ltb,
}
use high_concurrency_ticketi.Schema.{Text, Time, Event, EventStatus}
use high_concurrency_ticketi.Sql.{count_where, update_where, first_where, select_where}
use high_concurrency_ticketi.Sql.Laws.{first_where-update_where, first_where_sound}
use high_concurrency_ticketi.World.{World, Env, ok, ◌>>=◌, with_tx, end_tx, exec}
use high_concurrency_ticketi.World.Ensures.{IsUp}
use high_concurrency_ticketi.Tables.{has_event_id}
use high_concurrency_ticketi.Events.{
  like_event, insert_like, liked, update_expired_events, has_ended,
}

-- An event that has ended is expired after the job, and every other event is as it was.
expire_rows :
    (t u : Time) (rows : List Event)
    → count_where (has_ended t) (
        update_where
          (has_ended t)
          (λ e. record e { status = EventStatus.expired; updated_at = u })
          rows)
      ≡ 0
expire_rows t u [] = refl
expire_rows t u (e ∷ rows) = ground (arith, expire_rows t u rows)

-- With every service up, the job reports how many events had ended without being expired, and
-- afterwards there is none: run again at the same time it would change nothing. The events that had
-- not ended are as they were.
pub update_expired_events-count :
    (env : Env) (w : World)
    → IsUp env
    → let (r, w') = update_expired_events env w in
      let now = (env.moment w.calls).now in
      (r ≡ ok (count_where (has_ended now) w.db.events))
      × (count_where (has_ended now) w'.db.events ≡ 0)
      × (select_where (λ e. negate (ltb e.end_time now)) w'.db.events
          ≡ select_where (λ e. negate (ltb e.end_time now)) w.db.events)
unfolding update_expired_events exec
update_expired_events-count env w up =
    rw (up w.calls) (refl, expire_rows _ _ w.db.events, kept (env.moment w.calls).now w.db.events)
  where
    kept :
        (t : Time) (rows : List Event)
        → select_where
            (λ e. negate (ltb e.end_time t))
            (update_where
              (has_ended t)
              (λ e. record e { status = EventStatus.expired; updated_at = t })
              rows)
          ≡ select_where (λ e. negate (ltb e.end_time t)) rows
    kept t [] = refl
    kept t (e ∷ rows) = ground (arith, kept t rows)

-- With every service up, liking an event that the user likes already adds no like but raises the
-- number of likes of the event again.
pub like_event_twice :
    (event user : Text) (env : Env) (w : World) (e : Event)
    → IsUp env
    → first_where (has_event_id event) w.db.events ≡ some e
    → liked event user w.db ≡ true
    → negate (count_where (λ r. r.id == event) w.db.events == 0)
        && negate (count_where (λ r. r.id == user) w.db.users == 0)
      ≡ true
    → let (r, w') = like_event event user env w in
      (r ≡ ok tt)
      × (w'.db.event_likes ≡ w.db.event_likes)
      × (t : Time) × (first_where (has_event_id event) w'.db.events
          ≡ some (record e { likes = e.likes +ℤ pos 1; updated_at = t }))
unfolding like_event with_tx end_tx insert_like exec ◌>>=◌
like_event_twice event user env w e up here before known =
    rw
      (
        up w.calls,
        up (suc w.calls),
        known,
        before,
        up (suc (suc w.calls)),
        up (suc (suc (suc w.calls))),
      )
      (refl, refl, _, raised (env.moment (suc (suc w.calls))).now)
  where
    raised :
        (t : Time)
        → first_where (has_event_id event) (
            update_where
              (λ x. has_event_id event x && liked event user w.db)
              (λ x. record x { likes = x.likes +ℤ pos 1; updated_at = t })
              w.db.events)
          ≡ some (record e { likes = e.likes +ℤ pos 1; updated_at = t })
    raised t =
        rw
          (
            first_where-update_where (has_event_id event)
                (λ x. has_event_id event x && liked event user w.db)
                (λ x. record x { likes = x.likes +ℤ pos 1; updated_at = t }) w.db.events
                (λ r. refl),
            here,
            before,
            first_where_sound (has_event_id event) w.db.events e here,
          )
          refl

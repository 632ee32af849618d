-- ===== src/Consumer.antt =====
-- The loop of the worker over the topic `bookings`: internal/worker/finalizer.go and
-- internal/kafka/consumer.go. A message that is no JSON of a payload is `none`; the messages are
-- handled by goroutines, here one call of `process_message` each.
use high_concurrency_ticketi.Prelude.{◌∷◌, Option, none, some, ⊤}
use high_concurrency_ticketi.World.{
  Action, Error, ok, err, panic, FinalizePayload, bad_json, call, raise, pure, attempt, ignore,
  ◌>>=◌,
}
use high_concurrency_ticketi.FinalizeService.{handle_booking_finalization}

unfoldable pub commit : Option FinalizePayload → Action Error ⊤
unfolding call
commit message = call λ m w. (ok tt, record w { committed = message ∷ w.committed })

-- Publishing to the topic `bookings-dlq`.
unfoldable pub publish_dead_letter : Option FinalizePayload → Action Error ⊤
unfolding call
publish_dead_letter message =
    call λ m w. (ok tt, record w { dead_letters = message ∷ w.dead_letters })

-- The type of the payload is not looked at.
unfoldable pub handle_message : Option FinalizePayload → Action Error ⊤
unfolding handle_booking_finalization
handle_message none = raise bad_json
handle_message (some p) = handle_booking_finalization p

-- The body of the goroutine of `Run`.
unfoldable pub process_message : Option FinalizePayload → Action Error ⊤
unfolding commit publish_dead_letter
process_message message = do
  handled ← attempt (handle_message message)
  elim handled [
    | ok _ ↦ ignore (commit message)
    | err _ ↦ ignore (publish_dead_letter message)
    | panic ↦ pure tt
  ]

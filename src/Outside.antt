-- ===== src/Outside.antt =====
-- Publishing to the topic `bookings` (internal/kafka/producer.go) and sending mail
-- (internal/service/mailer/mailer.go, internal/mailer/mailer.go), the errors that carry a status
-- code, and the reads that several services share.
use high_concurrency_ticketi.Prelude.{ℕ, ◌∷◌, ⊤, List, [], some, none}
use high_concurrency_ticketi.Schema.{SeatsJson, Text, unmarshal_seats}
use high_concurrency_ticketi.World.{
  Action, Error, Result, ok, err, panic, FinalizePayload, Mail, call,
}

unfoldable pub publish : FinalizePayload → Action Error ⊤
unfolding call
publish p = call λ m w. (ok tt, record w { topic = p ∷ w.topic })

unfoldable pub send : Mail → Action Error ⊤
unfolding call
send mail = call λ m w. (ok tt, record w { outbox = mail ∷ w.outbox })

-- `return nil, code, err`
pub record Failure : Type 0 where
  pub code : ℕ
  pub cause : Error

abbrev pub failure : ℕ → Error → Failure
failure code e = record { code = code; cause = e }

abbrev pub coded : {A : Type 0} → ℕ → Result Error A → Result Failure A
coded code (ok a) = ok a
coded code (err e) = err (failure code e)
coded code panic = panic

abbrev pub with_code : {A : Type 0} → ℕ → Action Error A → Action Failure A
with_code code m env w = let (r, w') = m env w in (coded code r, w')

-- `json.Unmarshal(b.Seats, &seats)` with its error dropped.
abbrev pub seats_or_none : SeatsJson → List Text
seats_or_none s = elim (unmarshal_seats s) [ none ↦ [] | some xs ↦ xs ]

-- ===== src/Api/Payment.antt =====
-- The routes of payments: internal/api/payment/payment.go.
use high_concurrency_ticketi.Prelude.{
  false, ℕ, ℤ, negsuc, leb_ℤ, ◌&&◌, Bool, true, Option, none, some, List, [], ◌∷◌, ⊤, ◌==◌,
  if◌then◌else◌,
}
use high_concurrency_ticketi.Money.{Money, cents, nan}
use high_concurrency_ticketi.Schema.{Text, empty_text}
use high_concurrency_ticketi.World.{
  Action, Error, pure, ◌>>=◌, booking_not_found, invalid_amount, already_paid,
}
use high_concurrency_ticketi.Auth.{Crypto}
use high_concurrency_ticketi.Api.{Reply, failed, done, serve, always, guarded}
use high_concurrency_ticketi.PaymentService.{
  PaymentResponse, process_booking_payment, process_cancellation_refund,
  process_event_cancellation_refund,
}

abbrev payment_code : Error → ℕ
payment_code booking_not_found = 404
payment_code invalid_amount = 400
payment_code already_paid = 409
payment_code _ = 500

abbrev refund_code : Error → ℕ
refund_code booking_not_found = 404
refund_code _ = 500

-- 402 instead of 200 for a response without success.
abbrev settled_code : Reply PaymentResponse → Reply PaymentResponse
settled_code r = elim r.body [ none ↦ r | some p ↦ if p.success then r else done 402 p ]

-- -1 in cents.
abbrev minus_one : ℤ
minus_one = negsuc 99

abbrev is_minus_one : Money → Bool
is_minus_one (cents n) = leb_ℤ n minus_one && leb_ℤ minus_one n
is_minus_one nan = false

-- `processBookingPayment`; the amount is `none` if it does not parse, and -1 if it is missing.
unfoldable pub pay : Text → Text → Option Money → Text → Action Error (Reply PaymentResponse)
unfolding process_booking_payment serve
pay seat1 booking none payment = pure (failed 400)
pay seat1 booking (some amount) payment =
    if is_minus_one amount
    then pure (failed 400)
    else (serve payment_code 200 (
          process_booking_payment seat1
            (record { booking_id = booking; amount = amount; payment_id = payment }))
        >>= λ r. pure (settled_code r))

-- `processRefund` does not return after the answer to an empty id: it has then written two answers.
unfoldable pub refund : Text → Action Error (List (Reply PaymentResponse))
unfolding process_cancellation_refund serve
refund booking = do
  r ← serve refund_code 200 (process_cancellation_refund booking)
  pure (if booking == empty_text then failed 400 ∷ settled_code r ∷ [] else settled_code r ∷ [])

unfoldable pub refund_event : Text → Action Error (Reply ⊤)
unfolding process_event_cancellation_refund serve
refund_event event = serve (always 500) 200 (process_event_cancellation_refund event)

-- The one route that `Register` puts behind the middleware; the other two are open.
unfoldable pub refund_event_route :
    {Token : Type 0} → Crypto Token → Text → Option Token → Text → Action Error (Reply ⊤)
unfolding refund_event guarded
refund_event_route c secret header event = guarded c secret true header (λ uid. refund_event event)

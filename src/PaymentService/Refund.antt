-- ===== src/PaymentService/Refund.antt =====
-- The amount that is refunded.
use high_concurrency_ticketi.Prelude.{
  ℤ, pos, ◌-ℤ◌, ◌+ℤ◌, ◌≤ℤ◌, ◌≡◌, ◌⊎◌, inl, inr, refl, arith, int_laws, ltb_ℤ, Bool-cases,
}
use high_concurrency_ticketi.Money.{cents}
use high_concurrency_ticketi.PaymentService.{false, true, refund_amount}

-- The refund of an amount paid less a fee, where both are numbers and neither is negative: it is a
-- number that is not negative and at most the payment, and it keeps back exactly the fee, or
-- everything that was paid if that was less.
pub refund_amount-bounds :
    (paid fee : ℤ)
    → pos 0 ≤ℤ paid
    → pos 0 ≤ℤ fee
    → (r : ℤ) × (refund_amount (cents paid) (cents fee) ≡ cents r)
      × (pos 0 ≤ℤ r)
      × (r ≤ℤ paid)
      × (((fee ≤ℤ paid) × (paid ≡ r +ℤ fee)) ⊎ (¬ (fee ≤ℤ paid) × (r ≡ pos 0)))
unfolding refund_amount
refund_amount-bounds paid fee p f = elim (Bool-cases (ltb_ℤ (paid -ℤ fee) (pos 0))) [
  | inl below ↦ (pos 0, rw below refl, omega arith, p, inr (below_fee below, refl))
  | inr above ↦
      (paid -ℤ fee, rw above refl, above_zero above, at_most, inl (above_fee above, exact))
]
  where
    above_zero_of : fee ≤ℤ paid → pos 0 ≤ℤ paid -ℤ fee
    above_zero_of c = omega (int_laws, c)

    below_fee : ltb_ℤ (paid -ℤ fee) (pos 0) ≡ true → ¬ (fee ≤ℤ paid)
    below_fee h c = ground (arith, above_zero_of c)

    above_zero : ltb_ℤ (paid -ℤ fee) (pos 0) ≡ false → pos 0 ≤ℤ paid -ℤ fee
    above_zero h = ground arith

    above_fee : ltb_ℤ (paid -ℤ fee) (pos 0) ≡ false → fee ≤ℤ paid
    above_fee h = omega (int_laws, above_zero h)

    at_most : paid -ℤ fee ≤ℤ paid
    at_most = omega (int_laws, f)

    exact : paid ≡ paid -ℤ fee +ℤ fee
    exact = omega int_laws

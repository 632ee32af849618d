-- ===== src/RateLimit/Tokens.antt =====
-- One bucket of the limiter in memory: what a request pays and what it leaves.
use high_concurrency_ticketi.Prelude.{
  ℕ, ◌+◌, ◌*◌, ◌≤◌, ◌<◌, ℤ, pos, ◌+ℤ◌, ◌-ℤ◌, pos_part, neg_part, ◌≤ℤ◌, +ℤ_parts, -ℤ_parts, ltb_ℤ,
  ◌≡◌, ◌⊎◌, refl, true, false, Bool-cases, inl, inr, arith,
}
use high_concurrency_ticketi.Schema.{Time, second}
use high_concurrency_ticketi.RateLimit.{Bucket, min, refilled, take_token}

min_cases : (a b : ℤ) → (min a b ≤ℤ a) × (min a b ≤ℤ b) × ((min a b ≡ a) ⊎ (min a b ≡ b))
min_cases a b = elim (Bool-cases (ltb_ℤ a b)) [
  | inl lt ↦ rw lt (omega arith, ground arith, inl refl)
  | inr ge ↦ rw ge (ground arith, omega arith, inr refl)
]

module _ (rps burst : ℕ) where
  refilled_bounds :
      (now : Time) (b : Bucket)
      → let r = refilled rps burst now b in
        (r ≤ℤ pos (burst * second))
        × (pos_part r + neg_part b.tokens + b.last * rps
            ≤ pos_part b.tokens + now * rps + neg_part r)
  unfolding refilled
  refilled_bounds now b =
      let full = pos (burst * second) in
      let credit = b.tokens +ℤ pos (now * rps) in
      let less = credit -ℤ pos (b.last * rps) in
      let cases = min_cases full less in
      let sum = +ℤ_parts b.tokens (pos (now * rps)) in
      let diff = -ℤ_parts credit (pos (b.last * rps)) in
      (cases.0, omega (arith, cases.1, sum, diff))

  -- A request that goes on pays a token out of what the time since the last one has added.
  pub take_token_pays :
      (now : Time) (b : Bucket)
      → (take_token rps burst now b).0 ≡ true
      → let b' = (take_token rps burst now b).1 in
        (pos 0 ≤ℤ b'.tokens)
        × (b'.last ≡ now)
        × (pos_part b'.tokens + neg_part b.tokens + second + b.last * rps
            ≤ pos_part b.tokens + now * rps + neg_part b'.tokens)
  unfolding take_token
  take_token_pays now b h =
      let r = refilled rps burst now b in
      let bounds = refilled_bounds now b in
      let diff = -ℤ_parts r (pos second) in
      elim (Bool-cases (ltb_ℤ r (pos second))) [
        | inl short ↦ ground (arith, rw short at h)
        | inr enough ↦
            let ge : second + neg_part r ≤ pos_part r = ground arith in
            rw enough (omega (arith, diff, ge), refl, omega (arith, diff, bounds.1))
      ]

  -- A request goes on if the tokens and what the time has added make one.
  pub take_token_after :
      (now : Time) (b : Bucket)
      → 1 ≤ burst
      → second + neg_part b.tokens + b.last * rps ≤ pos_part b.tokens + now * rps
      → (take_token rps burst now b).0 ≡ true
  unfolding take_token refilled
  take_token_after now b one waited =
      let full = pos (burst * second) in
      let credit = b.tokens +ℤ pos (now * rps) in
      let less = credit -ℤ pos (b.last * rps) in
      let sum = +ℤ_parts b.tokens (pos (now * rps)) in
      let diff = -ℤ_parts credit (pos (b.last * rps)) in
      let enough : second + neg_part less ≤ pos_part less = omega (arith, sum, diff) in
      elim (Bool-cases (ltb_ℤ full less)) [
        | inl lt ↦ rw lt (ground arith)
        | inr ge ↦ rw ge (ground (arith, enough))
      ]

  -- A request that is refused leaves `last`, and no debt.
  pub take_token_refuses :
      (now : Time) (b : Bucket)
      → pos 0 ≤ℤ b.tokens
      → b.last * rps ≤ now * rps
      → (take_token rps burst now b).0 ≡ false
      → let b' = (take_token rps burst now b).1 in (pos 0 ≤ℤ b'.tokens) × (b'.last ≡ b.last)
  unfolding take_token refilled
  take_token_refuses now b paid later h =
      let full = pos (burst * second) in
      let credit = b.tokens +ℤ pos (now * rps) in
      let less = credit -ℤ pos (b.last * rps) in
      let sum = +ℤ_parts b.tokens (pos (now * rps)) in
      let diff = -ℤ_parts credit (pos (b.last * rps)) in
      let cases = min_cases full less in
      elim (Bool-cases (ltb_ℤ (min full less) (pos second))) [
        | inl short ↦
            rw short (nonnegative full less (omega arith) (omega (arith, sum, diff)), refl)
        | inr enough ↦ ground (arith, rw enough at h)
      ]
    where
      nonnegative : (x y : ℤ) → pos 0 ≤ℤ x → pos 0 ≤ℤ y → pos 0 ≤ℤ min x y
      nonnegative x y p q = elim (Bool-cases (ltb_ℤ x y)) [ inl lt ↦ rw lt p | inr ge ↦ rw ge q ]

  -- A request is refused if they do not, and the bucket keeps what the time has added.
  pub take_token_short :
      (now : Time) (b : Bucket)
      → 1 ≤ burst
      → pos_part b.tokens + now * rps < second + neg_part b.tokens + b.last * rps
      → let (go_on, b') = take_token rps burst now b in
        (go_on ≡ false)
        × (b'.last ≡ b.last)
        × (pos_part b'.tokens + neg_part b.tokens + b.last * rps
            ≡ pos_part b.tokens + now * rps + neg_part b'.tokens)
  unfolding take_token refilled
  take_token_short now b one few =
      let full = pos (burst * second) in
      let credit = b.tokens +ℤ pos (now * rps) in
      let less = credit -ℤ pos (b.last * rps) in
      let sum = +ℤ_parts b.tokens (pos (now * rps)) in
      let diff = -ℤ_parts credit (pos (b.last * rps)) in
      let short : pos_part less < second + neg_part less = omega (arith, sum, diff) in
      let below : ltb_ℤ full less ≡ false = ground (arith, short) in
      let no_token : ltb_ℤ less (pos second) ≡ true = ground (arith, short) in
      rw (below, no_token) (refl, refl, omega (arith, sum, diff))

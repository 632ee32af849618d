-- ===== src/RateLimit/Admitted.antt =====
-- How much the limiter in memory lets through.
use high_concurrency_ticketi.Prelude.{
  ℕ, suc, ◌+◌, ◌*◌, ◌≤◌, ◌<◌, pos, pos_part, neg_part, ◌≤ℤ◌, ◌≡◌, refl, true, false, Bool-cases,
  inl, inr, ◌∙◌, sym, ap, Option, none, some, List, [], ◌∷◌, ◌&&◌, ◌≢◌, negate, All, ◌==◌, ==_refl,
  ==_iff, arith, if◌then◌else◌,
}
use high_concurrency_ticketi.Schema.{Text, Time, second}
use high_concurrency_ticketi.RateLimit.Tokens.{
  take_token_pays, take_token_after, take_token_refuses, take_token_short,
}
use high_concurrency_ticketi.RateLimit.{Bucket, Buckets, take_token, bucket_of, rate_limit}

module _ (rps burst : ℕ) where
  -- The requests one after the other, as host and time: the buckets after them, and how many of one
  -- host went on and were refused.
  abbrev pub run : List (Text × Time) → Buckets → Buckets
  run [] bs = bs
  run ((host, now) ∷ rest) bs = run rest (rate_limit rps burst host now bs).1

  abbrev pub passed : Text → List (Text × Time) → Buckets → ℕ
  passed h [] bs = 0
  passed h ((host, now) ∷ rest) bs =
      let after = rate_limit rps burst host now bs in
      let n = passed h rest after.1 in if (host == h) && after.0 then suc n else n

  abbrev pub refused : Text → List (Text × Time) → Buckets → ℕ
  refused h [] bs = 0
  refused h ((host, now) ∷ rest) bs =
      let after = rate_limit rps burst host now bs in
      let n = refused h rest after.1 in if (host == h) && negate after.0 then suc n else n

  -- The requests of the host lie between the two times.
  abbrev pub Between : Text → Time → Time → List (Text × Time) → Type 0
  Between h t0 t1 = All (λ r. r.0 ≡ h → (t0 * rps ≤ r.1 * rps) × (r.1 * rps ≤ t1 * rps))

  other :
      (h host : Text) (now : Time) (bs : Buckets)
      → host ≢ h
      → (rate_limit rps burst host now bs).1 h ≡ bs h
  unfolding rate_limit
  other h host now bs ne = ground arith

  own :
      (h host : Text) (now : Time) (bs : Buckets) (o : Option Bucket)
      → (host == h) ≡ true
      → bs h ≡ o
      → let after = rate_limit rps burst host now bs in
        let taken = take_token rps burst now (bucket_of burst now o) in
        (after.0 ≡ taken.0) × (after.1 h ≡ some taken.1)
  unfolding rate_limit
  own h host now bs o same here =
      let e : host ≡ h = (==_iff host h).0 same in rw (e, here, ==_refl h) (refl, refl)

  passed_from :
      (h : Text) (t0 t1 : Time) (reqs : List (Text × Time)) (bs : Buckets) (b : Bucket)
      → bs h ≡ some b
      → pos 0 ≤ℤ b.tokens
      → b.last * rps ≤ t1 * rps
      → Between h t0 t1 reqs
      → refused h reqs bs ≡ 0
      → passed h reqs bs * second + b.last * rps + neg_part b.tokens ≤ pos_part b.tokens + t1 * rps
  passed_from h t0 t1 [] bs b here paid last between none_refused = omega arith
  passed_from h t0 t1 ((host, now) ∷ rest) bs b here paid last (first, between) none_refused =
      let after = rate_limit rps burst host now bs in
      elim (Bool-cases (host == h)) [
        | inr ne ↦
            let kept = other h host now bs (λ e. ground (arith, ne, e)) ∙ here in
            let none_left = rw ne at none_refused in
            rw ne (passed_from h t0 t1 rest after.1 b kept paid last between none_left)
        | inl same ↦
            let facts = own h host now bs (some b) same here in
            elim (Bool-cases after.0) [
              | inr no_token ↦ ground (arith, same, no_token)
              | inl token ↦
                  let none_left = rw (same, token) at none_refused in
                  let b' = (take_token rps burst now b).1 in
                  let pays = take_token_pays rps burst now b (sym facts.0 ∙ token) in
                  let times = first ((==_iff host h).0 same) in
                  let more =
                    passed_from h t0 t1 rest after.1 b' facts.1 pays.0
                      (omega (arith, ap (λ (t : ℕ). t * rps) pays.1, times)) between none_left in
                  rw (same, token) (omega (arith, more, pays.2, ap (λ (t : ℕ). t * rps) pays.1))
            ]
      ]

  -- Of the requests of a host that the process has not seen before, which lie between two times and
  -- are mixed with those of other hosts: if none is refused, they are at most the burst and what the
  -- rate adds between the two times.
  pub passed_bound :
      (h : Text) (t0 t1 : Time) (reqs : List (Text × Time)) (bs : Buckets)
      → bs h ≡ none
      → t0 * rps ≤ t1 * rps
      → Between h t0 t1 reqs
      → refused h reqs bs ≡ 0
      → passed h reqs bs * second + t0 * rps ≤ burst * second + t1 * rps
  passed_bound h t0 t1 [] bs new order between none_refused = omega arith
  passed_bound h t0 t1 ((host, now) ∷ rest) bs new order (first, between) none_refused =
      let after = rate_limit rps burst host now bs in
      elim (Bool-cases (host == h)) [
        | inr ne ↦
            let kept = other h host now bs (λ e. ground (arith, ne, e)) ∙ new in
            let none_left = rw ne at none_refused in
            rw ne (passed_bound h t0 t1 rest after.1 kept order between none_left)
        | inl same ↦
            let facts = own h host now bs none same new in
            elim (Bool-cases after.0) [
              | inr no_token ↦ ground (arith, same, no_token)
              | inl token ↦
                  let none_left = rw (same, token) at none_refused in
                  let full = bucket_of burst now none in
                  let b' = (take_token rps burst now full).1 in
                  let pays = take_token_pays rps burst now full (sym facts.0 ∙ token) in
                  let times = first ((==_iff host h).0 same) in
                  let last = ap (λ (t : ℕ). t * rps) pays.1 in
                  let more =
                    passed_from h t0 t1 rest after.1 b' facts.1 pays.0 (omega (arith, last, times))
                      between none_left in
                  rw (same, token) (omega (arith, more, pays.2, last, times))
            ]
      ]

  -- A host whose bucket is in no debt, and of whose requests since then none went on, gets through
  -- once a rate's period has passed since its last request that went on, however often it was
  -- refused meanwhile and whatever other hosts asked, if the burst is at least one.
  pub next_passes :
      (h : Text) (t1 : Time) (reqs : List (Text × Time)) (bs : Buckets) (b : Bucket)
      → bs h ≡ some b
      → pos 0 ≤ℤ b.tokens
      → 1 ≤ burst
      → second + b.last * rps ≤ t1 * rps
      → Between h b.last t1 reqs
      → passed h reqs bs ≡ 0
      → (rate_limit rps burst h t1 (run reqs bs)).0 ≡ true
  next_passes h t1 [] bs b here paid one waited between none_passed =
      (own h h t1 bs (some b) (==_refl h) here).0
      ∙ take_token_after rps burst t1 b one (omega arith)
  next_passes h t1 ((host, now) ∷ rest) bs b here paid one waited (first, between) none_passed =
      let after = rate_limit rps burst host now bs in
      elim (Bool-cases (host == h)) [
        | inr ne ↦
            let kept = other h host now bs (λ e. ground (arith, ne, e)) ∙ here in
            let none_left = rw ne at none_passed in
            next_passes h t1 rest after.1 b kept paid one waited between none_left
        | inl same ↦
            let facts = own h host now bs (some b) same here in
            elim (Bool-cases after.0) [
              | inl token ↦ ground (arith, same, token)
              | inr no_token ↦
                  let none_left = rw (same, no_token) at none_passed in
                  let b' = (take_token rps burst now b).1 in
                  let times = first ((==_iff host h).0 same) in
                  let no_debt =
                    take_token_refuses rps burst now b paid times.0 (sym facts.0 ∙ no_token) in
                  next_passes h t1 rest after.1 b' facts.1 no_debt.0 one (rw no_debt.1 waited)
                    (rw no_debt.1 between) none_left
            ]
      ]

  -- A refused request keeps what the time has added but not the time: at the same instant the next
  -- request of the host is credited with that time again, and goes on if twice the credit is a token.
  pub refusal_credits_twice :
      (h : Text) (now : Time) (bs : Buckets) (b : Bucket)
      → bs h ≡ some b
      → pos_part b.tokens + now * rps < second + neg_part b.tokens + b.last * rps
      → second + neg_part b.tokens + 2 * (b.last * rps) ≤ pos_part b.tokens + 2 * (now * rps)
      → 1 ≤ burst
      → let first = rate_limit rps burst h now bs in
        (first.0 ≡ false) × ((rate_limit rps burst h now first.1).0 ≡ true)
  refusal_credits_twice h now bs b here few twice one =
      let facts = own h h now bs (some b) (==_refl h) here in
      let b' = (take_token rps burst now b).1 in
      let short = take_token_short rps burst now b one few in
      let again = own h h now (rate_limit rps burst h now bs).1 (some b') (==_refl h) facts.1 in
      let last = ap (λ (t : ℕ). t * rps) short.1 in
      (
        facts.0 ∙ short.0,
        again.0 ∙ take_token_after rps burst now b' one (omega (arith, short.2, last, twice)),
      )

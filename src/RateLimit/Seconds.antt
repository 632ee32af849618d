-- ===== src/RateLimit/Seconds.antt =====
-- What the sliding window in Redis counts: a member is a second, so at most one for each second of the
-- window.
use high_concurrency_ticketi.Prelude.{
  ℕ, suc, ◌+◌, ◌-◌, ◌/◌, ◌≤◌, ◌<◌, Bool, true, false, Bool-cases, inl, inr, List, [], ◌∷◌, ⊤, ◌≡◌,
  refl, ◌==◌, ==_refl, ltb, leb, length, arith, Option, none, some,
}
use high_concurrency_ticketi.Schema.{Time, second}
use high_concurrency_ticketi.World.{
  pure, attempt, Error, Result, tick, service_down, err, World, Window, WindowKey, by_address,
  by_user, Env, ok, ◌>>=◌,
}
use high_concurrency_ticketi.World.Returns.{Returns-attempt, Returns-bind, Returns}
use high_concurrency_ticketi.RateLimit.Redis.{
  judge, window_request, Headers, same_key, live_members, zrem_until, zadd, window_lua,
  window_seconds, next, eval_window, limit_by_key,
}

-- Strictly descending, and all below the bound.
abbrev pub Descends : ℕ → List ℕ → Type 0
Descends bound [] = ⊤
Descends bound (m ∷ ms) = (m < bound) × Descends m ms

Descends-weaken : (a b : ℕ) (ms : List ℕ) → a ≤ b → Descends a ms → Descends b ms
Descends-weaken a b [] le d = tt
Descends-weaken a b (m ∷ ms) le (below, d) = (omega arith, d)

zrem_until-Descends :
    (window now b : ℕ) (ms : List ℕ) → Descends b ms → Descends b (zrem_until window now ms)
zrem_until-Descends window now b [] d = tt
zrem_until-Descends window now b (m ∷ ms) (below, d) =
    let rest = zrem_until-Descends window now m ms d in
    elim (Bool-cases (ltb now (m + window))) [
      | inl young ↦ rw young (below, rest)
      | inr old ↦ rw old (Descends-weaken m b _ (omega arith) rest)
    ]

zadd-Descends : (now b : ℕ) (ms : List ℕ) → now < b → Descends b ms → Descends b (zadd now ms)
zadd-Descends now b [] lt d = (lt, tt)
zadd-Descends now b (m ∷ ms) lt (below, d) = elim (Bool-cases (now == m)) [
  | inl same ↦ rw same (below, d)
  | inr ne ↦ elim (Bool-cases (ltb m now)) [
    | inl newest ↦ rw (ne, newest) (lt, (ground arith, d))
    | inr older ↦ rw (ne, older) (below, zadd-Descends now m ms (ground arith) d)
  ]
]

-- What survives lies in the window, one member for each second.
length-zrem_until :
    (window now b : ℕ) (ms : List ℕ)
    → Descends b ms
    → length (zrem_until window now ms) ≤ (b + window) - (now + 1)
length-zrem_until window now b [] d = omega arith
length-zrem_until window now b (m ∷ ms) (below, d) =
    let rest = length-zrem_until window now m ms d in
    elim (Bool-cases (ltb now (m + window))) [
      | inl young ↦
          let inside : now < m + window = ground arith in rw young (omega (arith, rest, inside))
      | inr old ↦ rw old (omega (arith, rest))
    ]

live_members-Descends :
    (b : ℕ) (clock : Time) (v : Window) → Descends b v.members → Descends b (live_members clock v)
live_members-Descends b clock v d = elim (Bool-cases (leb v.expires clock)) [
  | inl gone ↦ rw gone tt
  | inr live ↦ rw live d
]

window_lua-allows :
    (window limit now : ℕ) (clock : Time) (v : Window)
    → window < limit
    → Descends (suc now) v.members
    → let (allowed, remaining, v') = window_lua window limit now clock v in
      (allowed ≡ true) × Descends (suc now) v'.members
unfolding window_lua
window_lua-allows window limit now clock v small d =
    let live = live_members-Descends (suc now) clock v d in
    let kept = zrem_until-Descends window now (suc now) _ live in
    let few = length-zrem_until window now (suc now) (live_members clock v) live in
    let room : ltb (length (zrem_until window now (live_members clock v))) limit ≡ true =
      ground (arith, few) in
    rw room (refl, zadd-Descends now (suc now) _ (omega arith) kept)

same_key_refl : (key : WindowKey) → same_key key key ≡ true
same_key_refl (by_address a) = ==_refl a
same_key_refl (by_user u) = ==_refl u

module _ (key : WindowKey) (window limit now : ℕ) (env : Env) (w : World) where
  eval_window-down :
      env.fault w.calls ≡ true → eval_window key window limit now env w ≡ (err service_down, tick w)
  unfolding eval_window
  eval_window-down down = rw down refl

  eval_window-up :
      env.fault w.calls ≡ false
      → window < limit
      → Descends (suc now) (w.windows key).members
      → (remaining : ℕ) × (w' : World) × (eval_window key window limit now env w
          ≡ (ok (true, remaining), w'))
        × Descends (suc now) (w'.windows key).members
  unfolding eval_window
  eval_window-up up small d =
      let clock = (env.moment w.calls).now in
      let allows = window_lua-allows window limit now clock (w.windows key) small d in
      rw (up, allows.0) (_, _, refl, rw (same_key_refl key) allows.1)

window_request-passes :
    (key : WindowKey) (rps burst : ℕ) (env : Env) (w : World)
    → window_seconds rps burst < burst
    → let now = (env.moment w.calls).now / second in
      Descends (suc now) (w.windows key).members
      → Returns (window_request key rps burst env w) (λ v w'.
        ((h : Option Headers) × (v ≡ next h)) × Descends (suc now) (w'.windows key).members)
unfolding window_request ◌>>=◌
window_request-passes key rps burst env w small d =
    let now = (env.moment w.calls).now / second in
    let window = window_seconds rps burst in
    let P : Result Error (Bool × ℕ) → World → Type 0 = λ r w'.
      ((h : Option Headers) × (judge burst window now r ≡ next h))
      × Descends (suc now) (w'.windows key).members in
    let m = eval_window key window burst now in
    Returns-bind (attempt {F = Error} m) (λ r. pure (judge burst window now r)) env w P
      (λ v w'. ((h : Option Headers) × (v ≡ next h)) × Descends (suc now) (w'.windows key).members)
      (elim (Bool-cases (env.fault w.calls)) [
        | inl down ↦
            let e = eval_window-down key window burst now env w down in
            Returns-attempt Error m env w P (rw e (cc)) (rw e ((none, refl), d))
        | inr up ↦
            let (remaining, w', e, kept) = eval_window-up key window burst now env w up small d in
            let headers : Headers = record {
              limit = burst;
              remaining = remaining;
              reset = now + window;
            } in
            Returns-attempt Error m env w P (rw e (cc)) (rw e ((some headers, refl), kept))
      ])
      (λ r w' p. p)

-- If the window has fewer seconds than the limit, as it has whenever the rate is above one request a
-- second and the burst is positive, the limiter lets every request of the address or user go on,
-- whichever calls of Redis fail: while no member of the sorted set lies in the future, the request
-- goes on and the same holds of the sorted set after it.
pub limit_by_key_never_refuses :
    (key : WindowKey) (rps burst : ℕ) (env : Env) (w : World)
    → (rps == 0) ≡ false
    → window_seconds rps burst < burst
    → let now = (env.moment w.calls).now / second in
      Descends (suc now) (w.windows key).members
      → Returns (limit_by_key key rps burst env w) (λ v w'.
        ((h : Option Headers) × (v ≡ next h)) × Descends (suc now) (w'.windows key).members)
unfolding limit_by_key
limit_by_key_never_refuses key rps burst env w positive small d =
    rw positive (window_request-passes key rps burst env w small d)

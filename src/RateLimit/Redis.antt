-- ===== src/RateLimit/Redis.antt =====
-- The rate limiters over Redis: internal/middleware/redis_ratelimit.go. The scores are Unix times in
-- seconds; Redis keeps a clock of its own for EXPIRE.
use high_concurrency_ticketi.Prelude.{
  ℕ, ◌+◌, ◌-◌, ◌*◌, ◌/◌, Bool, true, false, List, [], ◌∷◌, ⊤, ◌==◌, ltb, leb, if◌then◌else◌, length,
  Option, none, some,
}
use high_concurrency_ticketi.Schema.{Text, Time, second, empty_text}
use high_concurrency_ticketi.World.{
  Window, WindowKey, by_address, by_user, Action, Error, Result, ok, err, panic, pure,
  nil_dereference, time_now, call, attempt, ◌>>=◌,
}
use high_concurrency_ticketi.RateLimit.{Buckets, rate_limit}

abbrev pub same_key : WindowKey → WindowKey → Bool
same_key (by_address a) (by_address b) = a == b
same_key (by_user a) (by_user b) = a == b
same_key _ _ = false

abbrev put_window : (WindowKey → Window) → WindowKey → Window → WindowKey → Window
put_window ws key v key' = if same_key key key' then v else ws key'

-- A key whose time has come is gone.
abbrev pub live_members : Time → Window → List ℕ
live_members clock v = if leb v.expires clock then [] else v.members

-- ZREMRANGEBYSCORE key 0 (now - window)
abbrev pub zrem_until : ℕ → ℕ → List ℕ → List ℕ
zrem_until window now [] = []
zrem_until window now (m ∷ ms) =
    let rest = zrem_until window now ms in if ltb now (m + window) then m ∷ rest else rest

-- ZADD key now now
abbrev pub zadd : ℕ → List ℕ → List ℕ
zadd now [] = now ∷ []
zadd now (m ∷ ms) =
    let rest = zadd now ms in
    if now == m then m ∷ ms else if ltb m now then now ∷ m ∷ ms else m ∷ rest

-- The script: whether the request is allowed, what remains, and the key.
unfoldable pub window_lua : ℕ → ℕ → ℕ → Time → Window → Bool × ℕ × Window
window_lua window limit now clock v =
    let kept = zrem_until window now (live_members clock v) in
    if ltb (length kept) limit
    then (
      true,
      limit - length kept - 1,
      record { members = zadd now kept; expires = clock + window * second },
    )
    else (false, 0, record v { members = kept })

-- `int((time.Duration(burst) * time.Second / time.Duration(rps)).Seconds())`
abbrev pub window_seconds : ℕ → ℕ → ℕ
window_seconds rps burst = burst * second / rps / second

pub record Headers : Type 0 where
  pub limit : ℕ
  pub remaining : ℕ
  pub reset : ℕ

-- What the handler did, `c.Next()` or 429, and the headers that it set, Retry-After among them for 429;
-- none are set in memory and when Redis failed.
pub data Verdict : Type 0 where
  next : Option Headers → Verdict
  too_many : Option (Headers × ℕ) → Verdict

-- `redisClient.Eval(…)` with the script.
unfoldable pub eval_window : WindowKey → ℕ → ℕ → ℕ → Action Error (Bool × ℕ)
unfolding call
eval_window key window limit now = call λ m w.
    let (allowed, remaining, v) = window_lua window limit now m.now (w.windows key) in
    (ok (allowed, remaining), record w { windows = put_window w.windows key v })

abbrev pub judge : ℕ → ℕ → ℕ → Result Error (Bool × ℕ) → Verdict
judge limit window now (ok (allowed, remaining)) =
    let headers : Headers = record { limit = limit; remaining = remaining; reset = now + window } in
    if allowed then next (some headers) else too_many (some (headers, window))
judge limit window now (err _) = next none
judge limit window now panic = next none

-- What `RedisRateLimit` and `RedisRateLimitByUser` do with a key.
unfoldable pub window_request : WindowKey → ℕ → ℕ → Action Error Verdict
unfolding eval_window
window_request key rps burst = do
  clock ← time_now
  answer ← attempt (eval_window key (window_seconds rps burst) burst (clock / second))
  pure (judge burst (window_seconds rps burst) (clock / second) answer)

-- A rate of 0 divides by zero.
unfoldable pub limit_by_key : WindowKey → ℕ → ℕ → Action Error Verdict
unfolding window_request
limit_by_key key rps burst = if rps == 0 then nil_dereference else window_request key rps burst

-- The address "unknown" stands for one that is empty.
unfoldable pub redis_rate_limit : Text → Text → ℕ → ℕ → Action Error Verdict
unfolding limit_by_key
redis_rate_limit unknown address rps burst =
    limit_by_key (by_address (if address == empty_text then unknown else address)) rps burst

unfoldable pub redis_rate_limit_by_user : Text → Text → Text → ℕ → ℕ → Action Error Verdict
unfolding limit_by_key redis_rate_limit
redis_rate_limit_by_user unknown user address rps burst =
    if user == empty_text
    then redis_rate_limit unknown address rps burst
    else limit_by_key (by_user user) rps burst

-- `redisClient.Ping(ctx)`
unfoldable pub ping : Action Error ⊤
unfolding call
ping = call λ m w. (ok tt, w)

-- The limiter in memory, as a verdict, on the host of the connection.
abbrev in_memory : ℕ → ℕ → Text → Buckets → Action Error (Verdict × Buckets)
in_memory rps burst host bs env w =
    let (go_on, bs') = rate_limit rps burst host (env.moment w.calls).now bs in
    (ok ((if go_on then next none else too_many none), bs'), w)

-- `HybridRateLimit`: the limiter in memory if Redis does not answer, else the one in Redis.
unfoldable pub hybrid_rate_limit :
    Text → Text → Text → ℕ → ℕ → Buckets → Action Error (Verdict × Buckets)
unfolding ping rate_limit redis_rate_limit
hybrid_rate_limit unknown address host rps burst bs = do
  alive ← attempt ping
  elim alive [
    | ok _ ↦ (redis_rate_limit unknown address rps burst >>= λ v. pure (v, bs))
    | err _ ↦ in_memory rps burst host bs
    | panic ↦ nil_dereference
  ]

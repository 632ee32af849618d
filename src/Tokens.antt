-- ===== src/Tokens.antt =====
-- The token bucket of an event and the timeout marks of bookings, in Redis: internal/redis/tokens.go
-- and internal/redis/bookingTimeout.go. A Redis integer is taken without its 64-bit bound.
pub mod Bucket
pub mod Keeps
use high_concurrency_ticketi.Prelude.{
  ℕ, ℤ, pos, ◌+ℤ◌, ◌-ℤ◌, ltb_ℤ, leb_ℤ, Bool, true, false, ◌&&◌, Option, none, some, ⊤, ◌==◌,
  if◌then◌else◌,
}
use high_concurrency_ticketi.Schema.{Text}
use high_concurrency_ticketi.World.{World, Action, Error, ok, TimeoutMark, processing, call}

-- A value under a key.
abbrev pub put : (Text → Option ℤ) → Text → ℤ → Text → Option ℤ
put m e v e' = if e == e' then some v else m e'

-- `tonumber(redis.call('GET', key) or '0')`; INCRBY and DECRBY read a missing key so, too.
abbrev pub value_or_zero : Option ℤ → ℤ
value_or_zero none = pos 0
value_or_zero (some v) = v

unfoldable pub init_tokens : Text → ℤ → Action Error ⊤
unfolding call
init_tokens event capacity = call λ m w. (ok tt, record w { tokens = put w.tokens event capacity })

-- The script `reserveLua`, which Redis runs as one step.
unfoldable pub reserve_lua : Text → ℤ → (Text → Option ℤ) → ℤ × (Text → Option ℤ)
reserve_lua event n tokens =
    let current = value_or_zero (tokens event) in
    if leb_ℤ n current then (pos 1, put tokens event (current -ℤ n)) else (pos 0, tokens)

abbrev is_one : ℤ → Bool
is_one v = leb_ℤ v (pos 1) && leb_ℤ (pos 1) v

unfoldable pub reserve : Text → ℤ → Action Error Bool
unfolding call reserve_lua
reserve event n = call λ m w.
    let (v, tokens) = reserve_lua event n w.tokens in (ok (is_one v), record w { tokens = tokens })

unfoldable pub release : Text → ℤ → Action Error ⊤
unfolding call
release event n =
    call
      λ m w. (ok tt, record w { tokens = put w.tokens event (value_or_zero (w.tokens event) +ℤ n) })

unfoldable pub remaining : Text → Action Error ℤ
unfolding call
remaining event = call λ m w. (ok (value_or_zero (w.tokens event)), w)

abbrev put_mark :
    (Text → Text → Option TimeoutMark)
    → Text
    → Text
    → Option TimeoutMark
    → Text
    → Text
    → Option TimeoutMark
put_mark m e b v e' b' = if (e == e') && (b == b') then v else m e' b'

unfoldable pub add_booking : Text → Text → Action Error ⊤
unfolding call
add_booking event booking =
    call λ m w. (ok tt, record w { timeouts = put_mark w.timeouts event booking (some processing) })

abbrev mark_or_processing : Option TimeoutMark → TimeoutMark
mark_or_processing none = processing
mark_or_processing (some v) = v

unfoldable pub get_booking : Text → Text → Action Error TimeoutMark
unfolding call
get_booking event booking = call λ m w. (ok (mark_or_processing (w.timeouts event booking)), w)

abbrev keys_at : Option TimeoutMark → ℕ
keys_at none = 0
keys_at (some _) = 1

-- DEL answers the number of keys that it removed.
unfoldable pub delete_booking : Text → Text → Action Error ℕ
unfolding call
delete_booking event booking = call λ m w. (
  ok (keys_at (w.timeouts event booking)),
  record w { timeouts = put_mark w.timeouts event booking none },
)

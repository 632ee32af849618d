-- ===== src/Api.antt =====
-- What the HTTP handlers of internal/api share: the answer, the query parameters, and the middleware in
-- front of a group of routes.
pub mod Bookings
pub mod Payment
pub mod Auth
pub mod Events
pub mod Waitlist
pub mod Admin
pub mod Guarded
use high_concurrency_ticketi.Prelude.{ℕ, Bool, Option, none, some, ⊤}
use high_concurrency_ticketi.Schema.{Text}
use high_concurrency_ticketi.World.{Action, Error, Result, ok, err, panic, pure, attempt, ◌>>=◌}
use high_concurrency_ticketi.Auth.{Crypto, Access, next, abort, middleware}

-- `c.JSON(code, body)`; a body that is only a message or an error is `none`.
pub record Reply (A : Type 0) : Type 0 where
  pub code : ℕ
  pub body : Option A

abbrev pub failed : {A : Type 0} → ℕ → Reply A
failed code = record { code = code; body = none }

abbrev pub done : {A : Type 0} → ℕ → A → Reply A
done code a = record { code = code; body = some a }

-- `if err != nil { c.JSON(…); return }; c.JSON(code, …)`, with the code for each error. `attempt` has
-- let a panic through, which gin.Recovery answers with 500.
abbrev pub reply_of : {A : Type 0} → (Error → ℕ) → ℕ → Result Error A → Reply A
reply_of codes code (ok a) = done code a
reply_of codes code (err e) = failed (codes e)
reply_of codes code panic = failed 500

unfoldable pub serve : {A : Type 0} → (Error → ℕ) → ℕ → Action Error A → Action Error (Reply A)
serve codes code m = attempt m >>= λ r. pure (reply_of codes code r)

abbrev pub always : ℕ → Error → ℕ
always code e = code

-- gin.Recovery (cmd/server/main.go): a panic is answered with 500.
unfoldable pub recovered : {A : Type 0} → Action Error (Reply A) → Action Error (Reply A)
recovered m env w =
    let (r, w') = m env w in
    elim r [ ok a ↦ (ok a, w') | err e ↦ (err e, w') | panic ↦ (ok (failed 500), w') ]

-- The body of a request after `ShouldBindJSON`; `none` is an error of the binding.
abbrev pub with_body :
    {B A : Type 0} → Option B → (B → Action Error (Reply A)) → Action Error (Reply A)
with_body none f = pure (failed 400)
with_body (some b) f = f b

-- A query parameter for a number, read by `strconv.Atoi` with the error dropped.
pub data Param : Type 0 where
  missing unreadable : Param
  number : ℕ → Param

abbrev pub number_or : ℕ → Param → ℕ
number_or default missing = default
number_or default unreadable = 0
number_or default (number n) = n

abbrev pub admit : {A : Type 0} → (Text → Action Error (Reply A)) → Access → Action Error (Reply A)
admit handler (next uid adm) = handler uid
admit handler (abort code) = pure (failed code)

-- A route behind `Middleware(secret, requireAdmin)`; the handler reads `c.GetString("uid")`.
unfoldable pub guarded :
    {Token A : Type 0}
    → Crypto Token
    → Text
    → Bool
    → Option Token
    → (Text → Action Error (Reply A))
    → Action Error (Reply A)
unfolding middleware
guarded c secret required header handler =
    middleware c secret required header >>= λ access. admit handler access

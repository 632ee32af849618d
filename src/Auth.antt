-- ===== src/Auth.antt =====
-- Tokens of access and the middleware that asks for them: internal/middleware/authMiddleware.go.
-- golang-jwt and bcrypt are parameters.
pub mod Admission
pub mod Revoked
use high_concurrency_ticketi.Prelude.{
  ℕ, ◌+◌, ◌/◌, ◌<◌, ◌*◌, Bool, true, false, Option, none, some, ◌≡◌, ◌≢◌, if◌then◌else◌, ⊤,
}
use high_concurrency_ticketi.Schema.{Text, Time, Db, User, Role, second, is_admin, empty_text}
use high_concurrency_ticketi.Sql.{first_where}
use high_concurrency_ticketi.World.{
  Action, Error, Result, ok, err, panic, Moment, pure, time_now, or_raise, attempt, call, query,
  ◌>>=◌, ◌>>◌, no_rows, token_failed,
}
use high_concurrency_ticketi.Users.{has_user_id}

-- The struct `Claims`; the time of expiry is a JWT NumericDate, in whole seconds.
pub record Claims : Type 0 where
  pub uid : Text
  pub adm : Bool
  pub expires_at : ℕ

-- What the code calls of jwt (HS256 under the secret) and of bcrypt, for tokens of some type.
pub record Crypto (Token : Type 0) : Type 0 where
  -- `jwt.NewWithClaims(…).SignedString(secret)`
  pub sign : (secret : Text) → Claims → Option Token
  -- `jwt.ParseWithClaims`, at a time; `none` is an error or a token that is not valid.
  pub parse : (secret : Text) → Time → Token → Option Claims
  -- `bcrypt.GenerateFromPassword` with the salt that it draws; `none` is an error.
  pub generate : (salt : Text) → (password : Text) → Option Text
  -- `bcrypt.CompareHashAndPassword(hash, password) == nil`
  pub compare : (hash : Text) → (password : Text) → Bool

-- What their documentation promises: claims are signed with the secret, and a signed token parses
-- under that secret to its claims before it expires; a hash is not empty, and its password compares.
pub record CryptoLaws {Token : Type 0} (c : Crypto Token) : Type 0 where
  pub signs : (secret : Text) (k : Claims) → (t : Token) × (c.sign secret k ≡ some t)
  pub parses :
      (secret : Text) (k : Claims) (t : Token) (now : Time)
      → c.sign secret k ≡ some t
      → now < k.expires_at * second
      → c.parse secret now t ≡ some k
  pub hashes :
      (salt password hash : Text)
      → c.generate salt password ≡ some hash
      → (hash ≢ empty_text) × (c.compare hash password ≡ true)

-- What the middleware did: `c.Next()` with the user id and the flag that it had set, or the code of
-- the answer.
pub data Access : Type 0 where
  next : (uid : Text) (adm : Bool) → Access
  abort : (code : ℕ) → Access

-- The new connection of `isUserAdminInDB`.
unfoldable pub connect : Action Error ⊤
unfolding call
connect = call λ m w. (ok tt, w)

abbrev role_of : Option User → Result Error Role
role_of none = err no_rows
role_of (some u) = ok u.role

unfoldable pub select_role : Text → Action Error Role
unfolding query
select_role id = query λ m db. role_of (first_where (has_user_id id) db.users)

abbrev pub is_admin_result : Result Error Role → Bool
is_admin_result (ok r) = is_admin r
is_admin_result (err _) = false
is_admin_result panic = false

unfoldable pub is_user_admin_in_db : Text → Action Error Bool
unfolding connect select_role
is_user_admin_in_db id = do r ← attempt (connect >> select_role id); pure (is_admin_result r)

unfoldable pub check_admin : Claims → Action Error Access
unfolding is_user_admin_in_db
check_admin k = do
  listed ← is_user_admin_in_db k.uid
  pure (if listed then next k.uid k.adm else abort 403)

module _ {Token : Type 0} (c : Crypto Token) where
  unfoldable pub check_claims : Bool → Option Claims → Action Error Access
  unfolding check_admin
  check_claims require_admin none = pure (abort 401)
  check_claims require_admin (some k) =
      if require_admin
      then (if k.adm then check_admin k else pure (abort 403))
      else pure (next k.uid k.adm)

  -- `Middleware(secret, requireAdmin)`, on the token after "Bearer " in the Authorization header, if
  -- the header begins so.
  unfoldable pub middleware : Text → Bool → Option Token → Action Error Access
  unfolding check_claims
  middleware secret require_admin none = pure (abort 401)
  middleware secret require_admin (some token) = do
    now ← time_now
    check_claims require_admin (c.parse secret now token)

  unfoldable pub user_middleware : Text → Option Token → Action Error Access
  unfolding middleware
  user_middleware secret = middleware secret false

  unfoldable pub admin_middleware : Text → Option Token → Action Error Access
  unfolding middleware
  admin_middleware secret = middleware secret true

  unfoldable pub issue : Text → Text → Bool → Time → Action Error Token
  issue secret user admin ttl = do
    now ← time_now
    or_raise (c.sign secret (record { uid = user; adm = admin; expires_at = (now + ttl) / second }))
        token_failed

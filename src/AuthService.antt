-- ===== src/AuthService.antt =====
-- Accounts, passwords and one-time codes: internal/service/auth/auth.go.
pub mod SignIn
pub mod Codes
pub mod Requested
use high_concurrency_ticketi.Prelude.{
  ℕ, ◌+◌, ◌*◌, Bool, true, false, negate, Option, none, some, ⊤, ◌==◌, leb, if◌then◌else◌,
}
use high_concurrency_ticketi.Schema.{Text, Time, User, Role, second, is_admin, empty_text}
use high_concurrency_ticketi.World.{
  World, Otp, Mail, Action, Error, Result, ok, err, panic, pure, raise_if, or_raise, or_error,
  deref, attempt, ignore, random, time_now, call, ◌>>=◌, ◌>>◌, no_rows, invalid_credentials,
  user_exists, user_not_found, invalid_otp, oauth_user, hash_failed,
}
use high_concurrency_ticketi.Outside.{send}
use high_concurrency_ticketi.Users.{
  get_by_email, get_by_id, create, update_password, update_profile as update_stored_profile,
}
use high_concurrency_ticketi.Auth.{Crypto, issue}

pub record SignupRequest : Type 0 where
  pub name : Text
  pub email : Text
  pub password : Text
  pub phone : Text

pub record LoginRequest : Type 0 where
  pub email : Text
  pub password : Text

pub record UserInfo : Type 0 where
  pub id : Text
  pub name : Text
  pub email : Text
  pub phone : Text
  pub role : Role

pub record LoginResponse (Token : Type 0) : Type 0 where
  pub token : Token
  pub user : UserInfo
  pub expires : Time

pub record PasswordChangeRequest : Type 0 where
  pub current_password : Text
  pub new_password : Text

pub record OtpVerifyRequest : Type 0 where
  pub email : Text
  pub otp : Text
  pub new_password : Text

abbrev pub user_to_info : User → UserInfo
user_to_info u = record {
  id = u.id;
  name = u.name;
  email = u.email;
  phone = u.phone;
  role = u.role;
}

-- The struct that `Signup` inserts; the other fields are zero.
abbrev pub new_user : SignupRequest → Text → User
new_user req hash = record {
  id = empty_text;
  name = req.name;
  email = req.email;
  phone = req.phone;
  password_hash = hash;
  oauth_provider = empty_text;
  oauth_sub = empty_text;
  role = Role.user;
  created_at = 0;
  updated_at = 0;
}

-- `err == nil && existing != nil`
abbrev pub is_found : Result Error (Option User) → Bool
is_found (ok (some u)) = true
is_found _ = false

-- 24 hours.
abbrev pub token_ttl : Time
token_ttl = 86400 * second

-- 15 minutes.
abbrev pub otp_ttl : Time
otp_ttl = 900 * second

abbrev put_otp : (Text → Option Otp) → Text → Option Otp → Text → Option Otp
put_otp m email v email' = if email == email' then v else m email'

-- SET of the key of the address, with the time to live.
unfoldable pub set_otp : Text → Text → Action Error ⊤
unfolding call
set_otp email code = call λ m w. (
  ok tt,
  record w {
    otps = put_otp w.otps email (some (record { code = code; expires = m.now + otp_ttl }));
  },
)

-- GET: a missing key, or one whose time has come, is the error redis.Nil.
abbrev pub live_code : Time → Option Otp → Result Error Text
live_code now none = err no_rows
live_code now (some o) = if leb o.expires now then err no_rows else ok o.code

unfoldable pub get_otp : Text → Action Error Text
unfolding call
get_otp email = call λ m w. (live_code m.now (w.otps email), w)

-- DEL
unfoldable pub delete_otp : Text → Action Error ⊤
unfolding call
delete_otp email = call λ m w. (ok tt, record w { otps = put_otp w.otps email none })

unfoldable pub get_profile : Text → Action Error UserInfo
unfolding get_by_id
get_profile id = do
  found ← or_error (get_by_id id) user_not_found
  u ← or_raise found user_not_found
  pure (user_to_info u)

unfoldable pub update_profile : Text → Text → Text → Action Error ⊤
unfolding get_by_id update_stored_profile
update_profile id name phone = do
  found ← or_error (get_by_id id) user_not_found
  u ← or_raise found user_not_found
  update_stored_profile id name phone

-- The rest of `RequestPasswordChangeOTP`, for a user that was read.
unfoldable pub send_otp : Text → User → Action Error ⊤
unfolding set_otp send
send_otp email u =
    if u.password_hash == empty_text
    then pure tt
    else do otp ← random; set_otp email otp; ignore (send (Mail.password_change_otp email otp))

-- `RequestPasswordChangeOTP`; the error of the read is not shown.
unfoldable pub request_password_change_otp : Text → Action Error ⊤
unfolding get_by_email
request_password_change_otp email = do
  found ← attempt (get_by_email email)
  elim found [ ok o ↦ (deref o >>= λ u. send_otp email u) | err _ ↦ pure tt | panic ↦ pure tt ]

module _ {Token : Type 0} (c : Crypto Token) where
  -- `bcrypt.GenerateFromPassword`
  abbrev pub hash_password : Text → Action Error Text
  hash_password password = do salt ← random; or_raise (c.generate salt password) hash_failed

  unfoldable pub generate_token : Text → Text → Bool → Action Error (Token × Time)
  unfolding issue
  generate_token secret user admin = do
    now ← time_now
    token ← issue c secret user admin token_ttl
    pure (token, now + token_ttl)

  -- The end of `Signup` and of `Login`.
  unfoldable pub respond : Text → User → Action Error (LoginResponse Token)
  unfolding generate_token
  respond secret u = do
    issued ← generate_token secret u.id (is_admin u.role)
    pure (record { token = issued.0; user = user_to_info u; expires = issued.1 })

  unfoldable pub signup : Text → SignupRequest → Action Error (LoginResponse Token)
  unfolding get_by_email create respond
  signup secret req = do
    existing ← attempt (get_by_email req.email)
    raise_if (is_found existing) user_exists
    hash ← hash_password req.password
    u ← create (new_user req hash)
    respond secret u

  -- What `Login` asks of the user that it has read.
  unfoldable pub check_password : User → Text → Action Error ⊤
  check_password u password =
      raise_if (u.password_hash == empty_text) invalid_credentials
      >> raise_if (negate (c.compare u.password_hash password)) invalid_credentials

  unfoldable pub login : Text → LoginRequest → Action Error (LoginResponse Token)
  unfolding get_by_email check_password respond
  login secret req = do
    found ← or_error (get_by_email req.email) invalid_credentials
    u ← or_raise found user_not_found
    check_password u req.password
    respond secret u

  unfoldable pub change_password : Text → PasswordChangeRequest → Action Error ⊤
  unfolding get_by_id update_password
  change_password id req = do
    found ← or_error (get_by_id id) user_not_found
    u ← deref found
    raise_if (u.password_hash == empty_text) oauth_user
    raise_if (negate (c.compare u.password_hash req.current_password)) invalid_credentials
    hash ← hash_password req.new_password
    update_password id hash

  unfoldable pub verify_password_change_otp : OtpVerifyRequest → Action Error ⊤
  unfolding get_otp get_by_email update_password delete_otp
  verify_password_change_otp req = do
    stored ← or_error (get_otp req.email) invalid_otp
    raise_if (negate (stored == req.otp)) invalid_otp
    found ← or_error (get_by_email req.email) user_not_found
    u ← deref found
    raise_if (u.password_hash == empty_text) oauth_user
    hash ← hash_password req.new_password
    update_password u.id hash
    ignore (delete_otp req.email)

-- ===== src/Api/Auth.antt =====
-- The routes of accounts: internal/api/auth/auth.go.
use high_concurrency_ticketi.Prelude.{ℕ, false, Option, ⊤, ◌==◌, if◌then◌else◌}
use high_concurrency_ticketi.Schema.{Text, empty_text}
use high_concurrency_ticketi.World.{
  Action, Error, pure, invalid_credentials, user_exists, user_not_found, invalid_otp, oauth_user,
}
use high_concurrency_ticketi.Auth.{Crypto}
use high_concurrency_ticketi.Api.{Reply, failed, done, serve, always, with_body, guarded}
use high_concurrency_ticketi.AuthService
use high_concurrency_ticketi.AuthService.{
  SignupRequest, LoginRequest, LoginResponse, UserInfo, PasswordChangeRequest, OtpVerifyRequest,
}

abbrev signup_code : Error → ℕ
signup_code user_exists = 409
signup_code _ = 500

abbrev login_code : Error → ℕ
login_code invalid_credentials = 401
login_code user_not_found = 404
login_code _ = 500

abbrev profile_code : Error → ℕ
profile_code user_not_found = 404
profile_code _ = 500

abbrev change_code : Error → ℕ
change_code invalid_credentials = 401
change_code oauth_user = 400
change_code user_not_found = 404
change_code _ = 500

abbrev verify_code : Error → ℕ
verify_code invalid_otp = 400
verify_code oauth_user = 400
verify_code user_not_found = 404
verify_code _ = 500

-- `if userID == "" { … 401 }`
abbrev for_user : {A : Type 0} → Text → Action Error (Reply A) → Action Error (Reply A)
for_user user m = if user == empty_text then pure (failed 401) else m

-- The struct that `updateProfile` binds.
pub record ProfileUpdate : Type 0 where
  pub name : Text
  pub phone : Text

unfoldable pub logout : Action Error (Reply ⊤)
logout = pure (done 200 tt)

unfoldable pub get_profile : Text → Action Error (Reply UserInfo)
unfolding AuthService.get_profile serve
get_profile user = for_user user (serve profile_code 200 (AuthService.get_profile user))

unfoldable pub update_profile : Text → Option ProfileUpdate → Action Error (Reply ⊤)
unfolding AuthService.update_profile serve
update_profile user body = for_user user (
    with_body body
      λ req. serve profile_code 200 (AuthService.update_profile user req.name req.phone))

unfoldable pub request_password_change_otp : Option Text → Action Error (Reply ⊤)
unfolding AuthService.request_password_change_otp serve
request_password_change_otp body =
    with_body body λ email. serve (always 500) 200 (AuthService.request_password_change_otp email)

module _ {Token : Type 0} (c : Crypto Token) where
  unfoldable pub signup : Text → Option SignupRequest → Action Error (Reply (LoginResponse Token))
  unfolding AuthService.signup serve
  signup secret body = with_body body λ req. serve signup_code 201 (AuthService.signup c secret req)

  unfoldable pub login : Text → Option LoginRequest → Action Error (Reply (LoginResponse Token))
  unfolding AuthService.login serve
  login secret body = with_body body λ req. serve login_code 200 (AuthService.login c secret req)

  unfoldable pub change_password : Text → Option PasswordChangeRequest → Action Error (Reply ⊤)
  unfolding AuthService.change_password serve
  change_password user body =
      for_user user
        (with_body body λ req. serve change_code 200 (AuthService.change_password c user req))

  unfoldable pub verify_password_change_otp : Option OtpVerifyRequest → Action Error (Reply ⊤)
  unfolding AuthService.verify_password_change_otp serve
  verify_password_change_otp body =
      with_body body λ req. serve verify_code 200 (AuthService.verify_password_change_otp c req)

  -- The routes that `Register` puts behind the middleware.
  module _ (secret : Text) (header : Option Token) where
    unfoldable pub get_profile_route : Action Error (Reply UserInfo)
    unfolding get_profile guarded
    get_profile_route = guarded c secret false header get_profile

    unfoldable pub update_profile_route : Option ProfileUpdate → Action Error (Reply ⊤)
    unfolding update_profile guarded
    update_profile_route body = guarded c secret false header (λ uid. update_profile uid body)

    unfoldable pub change_password_route : Option PasswordChangeRequest → Action Error (Reply ⊤)
    unfolding change_password guarded
    change_password_route body = guarded c secret false header (λ uid. change_password uid body)

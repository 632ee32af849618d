-- ===== src/Tests/Access.antt =====
-- Accounts and access on the sample data, with a toy for golang-jwt and bcrypt.
use high_concurrency_ticketi.Prelude.{
  ℕ, suc, ◌+◌, ◌*◌, ◌<◌, true, false, ◌&&◌, none, some, ◌≡◌, ◌≢◌, ◌↔◌, ◌⊎◌, inl, refl, sym, subst,
  [], ◌∷◌, arith, ◌==◌, ltb, ==_refl, if◌then◌else◌,
}
use high_concurrency_ticketi.Schema.{Text, Time, Role, second, empty_text}
use high_concurrency_ticketi.Sql.{first_where}
use high_concurrency_ticketi.World.{World, ok, err, panic, tick, invalid_otp, ◌>>=◌}
use high_concurrency_ticketi.World.Ensures.{Ensures}
use high_concurrency_ticketi.World.Returns.{Returns}
use high_concurrency_ticketi.Users.{has_email}
use high_concurrency_ticketi.AdminStore.{remove_admin}
use high_concurrency_ticketi.Auth.{Claims, Crypto, CryptoLaws, next, abort, middleware}
use high_concurrency_ticketi.Auth.Admission.{Entitled, middleware_iff}
use high_concurrency_ticketi.Auth.Revoked.{removed_admin_is_refused}
use high_concurrency_ticketi.AuthService.{
  SignupRequest, LoginResponse, UserInfo, OtpVerifyRequest, signup, login,
  verify_password_change_otp, request_password_change_otp,
}
use high_concurrency_ticketi.AuthService.SignIn.{signup-login}
use high_concurrency_ticketi.AuthService.Codes.{
  Changed, verify_password_change_otp-outcome, code_serves_once,
}
use high_concurrency_ticketi.AuthService.Requested.{request_reveals_address}
use high_concurrency_ticketi.Api.{failed, guarded}
use high_concurrency_ticketi.Api.Bookings.{cancel, cancel_route}
use high_concurrency_ticketi.Api.Guarded.{view, guarded_refuses, cancel_for_anyone}
use high_concurrency_ticketi.Samples.{always_up, always_up-IsUp, alice, bob, shop, town}

-- A token is the secret with the claims, and a hash is the password plus one.
abbrev toy : Crypto (Text × Claims)
toy = record {
  sign = λ secret k. some (secret, k);
  parse = λ secret now t.
      if (t.0 == secret) && ltb now (t.1.expires_at * second) then some t.1 else none;
  generate = λ salt password. some (suc password);
  compare = λ hash password. hash == suc password;
}

toy_parses :
    (secret : Text) (k : Claims) (t : Text × Claims) (now : Time)
    → toy.sign secret k ≡ some t
    → now < k.expires_at * second
    → toy.parse secret now t ≡ some k
toy_parses secret k t now signed soon =
    let same : (secret, k) ≡ t = cc in
    let young : ltb now (k.expires_at * second) ≡ true = ground arith in
    subst (λ (u : Text × Claims). toy.parse secret now u ≡ some k) same
      (rw (==_refl secret, young) refl)

toy_hashes :
    (salt password hash : Text)
    → toy.generate salt password ≡ some hash
    → (hash ≢ empty_text) × (toy.compare hash password ≡ true)
toy_hashes salt password hash made =
    let same : suc password ≡ hash = cc in
    (λ e. omega arith, rw (sym same, ==_refl (suc password)) refl)

toy_laws : CryptoLaws toy
toy_laws = record {
  signs = λ secret k. ((secret, k), refl);
  parses = toy_parses;
  hashes = toy_hashes;
}

abbrev signup_request : SignupRequest
signup_request = record { name = 13; email = 23; password = 43; phone = 33 }

abbrev carol : UserInfo
carol = record { id = 102; name = 13; email = 23; phone = 33; role = Role.user }

abbrev carol_claims : Claims
carol_claims = record { uid = 102; adm = false; expires_at = 86400 }

abbrev signed_up : LoginResponse (Text × Claims)
signed_up = record { token = (99, carol_claims); user = carol; expires = 1003 + 86400 * second }

abbrev after_signup : World
after_signup = (signup toy 99 signup_request always_up town).1

signup-login_example :
    Returns
      (login toy 99 (record { email = 23; password = 43 }) always_up after_signup)
      (λ again w1.
        (again.user ≡ carol)
        × (w1 ≡ tick after_signup)
        × ((middleware toy 99 false (some again.token) always_up town).0 ≡ ok (next 102 false)))
unfolding signup ◌>>=◌
signup-login_example =
    signup-login toy toy_laws 99 signup_request always_up always_up always_up town after_signup town
      signed_up refl refl refl (omega arith)

abbrev admin_claims : Claims
admin_claims = record { uid = 1; adm = true; expires_at = 5 }

middleware_iff_example :
    ((middleware toy 99 true (some (99, admin_claims)) always_up town).0 ≡ ok (next 1 true))
    ↔ Entitled toy 99 true (some (99, admin_claims)) 1000 shop 1 true
middleware_iff_example =
    middleware_iff toy 99 true (some (99, admin_claims)) always_up town 1 true always_up-IsUp

abbrev ruled_town : World
ruled_town = record town {
  db = record shop { users = record alice { role = Role.admin } ∷ bob ∷ [] };
}

removed_admin_is_refused_example :
    (code : ℕ) × ((middleware toy 99 true
        (some (99, admin_claims))
        always_up
        (remove_admin 1 always_up ruled_town).1).0
      ≡ ok (abort code))
    × ((code ≡ 401) ⊎ (code ≡ 403))
unfolding remove_admin ◌>>=◌
removed_admin_is_refused_example =
    removed_admin_is_refused toy 99 1 (some (99, admin_claims)) always_up always_up ruled_town
      (remove_admin 1 always_up ruled_town).1 refl refl refl

guarded_refuses_example :
    Returns
      (guarded toy 99 false none (λ uid. cancel 52) always_up town)
      (λ r w'. ((r ≡ failed 401) ⊎ (r ≡ failed 403)) × (view w' ≡ view town))
guarded_refuses_example =
    guarded_refuses toy 99 false none (λ uid. cancel 52) always_up town (inl refl)

cancel_for_anyone_example :
    cancel_route toy 99 (some (99, carol_claims)) 52 always_up town
    ≡ cancel_route toy 99 (some (99, admin_claims)) 52 always_up town
cancel_for_anyone_example =
    cancel_for_anyone toy 99 (some (99, carol_claims)) (some (99, admin_claims)) 52 always_up town
      carol_claims admin_claims refl refl

abbrev coded_town : World
coded_town = record town {
  otps = λ e. if e == 21 then some (record { code = 5; expires = 5000 }) else none;
}

abbrev new_password : OtpVerifyRequest
new_password = record { email = 21; otp = 5; new_password = 44 }

verify_password_change_otp-outcome_example :
    Ensures
      (verify_password_change_otp toy new_password always_up coded_town)
      (Changed toy new_password always_up coded_town)
verify_password_change_otp-outcome_example =
    verify_password_change_otp-outcome toy toy_laws new_password always_up coded_town always_up-IsUp

abbrev changed_town : World
changed_town = (verify_password_change_otp toy new_password always_up coded_town).1

code_serves_once_example :
    (verify_password_change_otp toy new_password always_up changed_town).0 ≡ err invalid_otp
unfolding verify_password_change_otp ◌>>=◌
code_serves_once_example =
    code_serves_once toy toy_laws new_password new_password always_up always_up coded_town
      changed_town always_up-IsUp refl refl refl

request_reveals_address_example :
    (((request_password_change_otp 29 always_up town).0 ≡ panic)
      ↔ (first_where (has_email 29) shop.users ≡ none))
    × (((request_password_change_otp 29 always_up town).0 ≡ ok tt)
        ↔ (first_where (has_email 29) shop.users ≢ none))
request_reveals_address_example = request_reveals_address 29 always_up town always_up-IsUp

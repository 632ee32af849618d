-- ===== src/AuthService/Requested.antt =====
-- Requests for a one-time code.
use high_concurrency_ticketi.Prelude.{
  suc, Bool-cases, Option-cases, none, some, inl, inr, ◌≡◌, ◌≢◌, ◌↔◌, refl, ◌==◌,
}
use high_concurrency_ticketi.Schema.{Text, User, empty_text}
use high_concurrency_ticketi.Sql.{first_where}
use high_concurrency_ticketi.World.{World, Env, ok, panic, ◌>>=◌, ignore, attempt}
use high_concurrency_ticketi.World.Ensures.{IsUp}
use high_concurrency_ticketi.Users.{has_email, get_by_email}
use high_concurrency_ticketi.Outside.{send}
use high_concurrency_ticketi.AuthService.{request_password_change_otp, send_otp, set_otp}

send_otp_answers :
    (email : Text) (u : User) (env : Env) (w : World)
    → IsUp env
    → (send_otp email u env w).0 ≡ ok tt
unfolding send_otp set_otp send ◌>>=◌
send_otp_answers email u env w up = elim (Bool-cases (u.password_hash == empty_text)) [
  | inl oauth ↦ rw oauth refl
  | inr own ↦ rw (own, up (suc w.calls), ignore, up (suc (suc w.calls))) refl
]

request_lem :
    (email : Text) (env : Env) (w : World)
    → IsUp env
    → (request_password_change_otp email env w).0
      ≡ elim (first_where (has_email email) w.db.users) [ none ↦ panic | some u ↦ ok tt ]
unfolding request_password_change_otp get_by_email ◌>>=◌
request_lem email env w up = elim (Option-cases (first_where (has_email email) w.db.users)) [
  | inl missing ↦ rw (up w.calls, missing, attempt) refl
  | inr (u, found) ↦ rw (up w.calls, found, attempt) (send_otp_answers email u env _ up)
]

-- The answer to a request for a code tells whether an address has an account: with every service up,
-- the handler panics exactly when no user has the address, and else answers as if a code was sent.
pub request_reveals_address :
    (email : Text) (env : Env) (w : World)
    → IsUp env
    → (((request_password_change_otp email env w).0 ≡ panic)
        ↔ (first_where (has_email email) w.db.users ≡ none))
      × (((request_password_change_otp email env w).0 ≡ ok tt)
          ↔ (first_where (has_email email) w.db.users ≢ none))
request_reveals_address email env w up =
    elim (Option-cases (first_where (has_email email) w.db.users)) [
      | inl missing ↦
          rw (request_lem email env w up, missing)
            (((λ e. refl), λ e. refl), ((λ e. cc), λ ne. absurd (ne refl)))
      | inr (u, found) ↦
          rw (request_lem email env w up, found) (((λ e. cc), λ e. cc), ((λ e x. cc), λ ne. refl))
    ]

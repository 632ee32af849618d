-- ===== src/AuthService/Codes.antt =====
-- One-time codes for a new password.
use high_concurrency_ticketi.Prelude.{
  ℕ, true, false, negate, Bool-cases, none, some, inl, inr, ◌≡◌, refl, sym, ◌∙◌, ap, ⊤, ◌==◌,
  ==_refl, arith, subst,
}
use high_concurrency_ticketi.Schema.{Text, Time, Db, User, empty_text}
use high_concurrency_ticketi.Sql.{first_where, update_where}
use high_concurrency_ticketi.World.{
  World, Env, Moment, Error, Result, ok, err, ◌>>=◌, raise_if, deref, or_error, ignore, exec, tick,
  invalid_otp, user_not_found, oauth_user,
}
use high_concurrency_ticketi.World.Ensures.{
  Ensures-weaken, IsUp, Ensures, Ensures-bind, Ensures-exec, Ensures-query,
}
use high_concurrency_ticketi.World.Services.{
  Ensures-elim, Ensures-intro, Ensures-or_error, Ensures-call, Ensures-raise_if, Ensures-deref,
  Ensures-ignore, Ensures-require_rows,
}
use high_concurrency_ticketi.Users.{
  has_email, has_user_id, get_by_email, update_users, update_password,
}
use high_concurrency_ticketi.Auth.{Crypto, CryptoLaws}
use high_concurrency_ticketi.AuthService.{
  OtpVerifyRequest, live_code, get_otp, delete_otp, hash_password, verify_password_change_otp,
}
use high_concurrency_ticketi.AuthService.SignIn.{hash_password-Ensures}

-- The passwords of one user are set to a hash.
abbrev pub PasswordSet : Text → Text → Db → Db → Type 0
PasswordSet id hash before after =
    (t : Time) × (after ≡ record before {
      users =
          update_where (has_user_id id) (λ u. record u { password_hash = hash; updated_at = t })
            before.users;
    })

update_password-Ensures :
    (id hash : Text) (env : Env) (w : World)
    → Ensures (update_password id hash env w) (λ _ w'. PasswordSet id hash w.db w'.db)
unfolding update_password
update_password-Ensures id hash env w =
    Ensures-bind (exec set) _ env w Set Set
      (Ensures-exec set env w Set (λ n e. ((env.moment w.calls).now, refl)))
      (λ n w' p. Ensures-require_rows n env w' (λ _ w'. PasswordSet id hash w.db w'.db) p)
  where
    set : Moment → Db → Result Error ℕ × Db
    set = update_users (has_user_id id) (λ u. record u { password_hash = hash })

    Set : {A : Type 0} → A → World → Type 0
    Set _ w' = PasswordSet id hash w.db w'.db

get_otp-Ensures :
    (email : Text) (env : Env) (w : World)
    → Ensures (get_otp email env w) (λ stored w'.
      (live_code (env.moment w.calls).now (w.otps email) ≡ ok stored) × (w' ≡ tick w))
unfolding get_otp
get_otp-Ensures email env w =
    Ensures-call (λ m v. (live_code m.now (v.otps email), v)) env w Read
      (Ensures-intro (live_code (env.moment w.calls).now (w.otps email), tick w) Read
        (λ stored e. (e, refl)))
  where
    Read : Text → World → Type 0
    Read stored w' = (live_code (env.moment w.calls).now (w.otps email) ≡ ok stored) × (w' ≡ tick w)

get_by_email-Ensures :
    (email : Text) (env : Env) (w : World)
    → Ensures
        (get_by_email email env w)
        (λ o w'. (first_where (has_email email) w.db.users ≡ o) × (w' ≡ tick w))
unfolding get_by_email
get_by_email-Ensures email env w =
    Ensures-query (λ m db. ok (first_where (has_email email) db.users)) env w
      (λ o w'. (first_where (has_email email) w.db.users ≡ o) × (w' ≡ tick w)) (λ o e. (cc e, refl))

delete_otp-lem :
    (email : Text) (env : Env) (w : World)
    → env.fault w.calls ≡ false
    → let w' = (delete_otp email env w).1 in (w'.db ≡ w.db) × (w'.otps email ≡ none)
unfolding delete_otp
delete_otp-lem email env w up = rw up (refl, rw (==_refl email) refl)

-- What an accepted code has checked and done.
abbrev pub Changed :
    {Token : Type 0} (c : Crypto Token) (req : OtpVerifyRequest) (env : Env) (w : World)
    → ⊤
    → World
    → Type 0
Changed c req env w _ w' =
    (live_code (env.moment w.calls).now (w.otps req.email) ≡ ok req.otp)
    × (u : User) × (first_where (has_email req.email) w.db.users ≡ some u)
    × (hash : Text) × (c.compare hash req.new_password ≡ true)
    × PasswordSet u.id hash w.db w'.db
    × (w'.otps req.email ≡ none)

without_code :
    {Token : Type 0} (c : Crypto Token) (req : OtpVerifyRequest) (env : Env) (w : World)
    → w.otps req.email ≡ none
    → (verify_password_change_otp c req env w).0 ≡ err invalid_otp
unfolding verify_password_change_otp get_otp ◌>>=◌
without_code c req env w missing = elim (Bool-cases (env.fault w.calls)) [
  | inl down ↦ rw down refl
  | inr up ↦ rw (up, missing) refl
]

module _ {Token : Type 0} (c : Crypto Token) (laws : CryptoLaws c) where
  -- With every service up, a code that is accepted is the one that is stored for the address and has
  -- not expired; then the user with that address has a hash that the new password fits, no other
  -- row changes, and the code is gone.
  pub verify_password_change_otp-outcome :
      (req : OtpVerifyRequest) (env : Env) (w : World)
      → IsUp env
      → Ensures (verify_password_change_otp c req env w) (Changed c req env w)
  unfolding verify_password_change_otp get_otp get_by_email
  verify_password_change_otp-outcome req env w up =
      Ensures-bind (or_error (get_otp req.email) invalid_otp) _ env w
        (λ stored w'. (live_code now (w.otps req.email) ≡ ok stored) × (w' ≡ tick w)) Done
        (Ensures-or_error (get_otp req.email) invalid_otp env w _ (get_otp-Ensures req.email env w))
        λ stored w1 (live, same1).
          Ensures-bind (raise_if (negate (stored == req.otp)) invalid_otp) _ env w1
            (λ _ w'. (stored ≡ req.otp) × (w' ≡ w1)) Done
            (Ensures-raise_if (negate (stored == req.otp)) invalid_otp env w1
              (λ _ w'. (stored ≡ req.otp) × (w' ≡ w1)) (λ e. (ground (arith, e), refl)))
            λ _ w2 (equal, same2).
              Ensures-bind (or_error (get_by_email req.email) user_not_found) _ env w2
                (λ o w'. (first_where (has_email req.email) w2.db.users ≡ o) × (w' ≡ tick w2)) Done
                (Ensures-or_error (get_by_email req.email) user_not_found env w2 _
                  (get_by_email-Ensures req.email env w2))
                λ o w3 (read, same3).
                  Ensures-bind (deref o) _ env w3 (λ u w'. (o ≡ some u) × (w' ≡ w3)) Done
                    (Ensures-deref Error o env w3 (λ u w'. (o ≡ some u) × (w' ≡ w3))
                      (λ u e. (e, refl)))
                    λ u w4 (is_u, same4).
                      set_new u w4 (sym (cc (live, equal))) (cc (read, is_u, same1, same2))
                        (ap db_of same4 ∙ (ap db_of same3 ∙ (ap db_of same2 ∙ ap db_of same1)))
    where
      db_of : World → Db
      db_of v = v.db

      now : Time
      now = (env.moment w.calls).now

      Done : ⊤ → World → Type 0
      Done = Changed c req env w

      set_new :
          (u : User) (w4 : World)
          → live_code now (w.otps req.email) ≡ ok req.otp
          → first_where (has_email req.email) w.db.users ≡ some u
          → w4.db ≡ w.db
          → Ensures
              ((raise_if (u.password_hash == empty_text) oauth_user >>= λ _.
                  hash_password c req.new_password >>= λ hash.
                  update_password u.id hash >>= λ _. ignore (delete_otp req.email))
                env w4)
              Done
      set_new u w4 live found same =
          Ensures-bind (raise_if (u.password_hash == empty_text) oauth_user) _ env w4
            (λ _ w'. w' ≡ w4) Done
            (Ensures-raise_if (u.password_hash == empty_text) oauth_user env w4 (λ _ w'. w' ≡ w4)
              (λ _. refl))
            λ _ w5 same5.
              Ensures-bind (hash_password c req.new_password) _ env w5
                (λ hash w'. (c.compare hash req.new_password ≡ true) × (w' ≡ tick w5)) Done
                (Ensures-weaken (hash_password c req.new_password env w5)
                  (λ hash w'.
                    ((hash == empty_text) ≡ false)
                    × (c.compare hash req.new_password ≡ true)
                    × (w' ≡ tick w5))
                  (λ hash w'. (c.compare hash req.new_password ≡ true) × (w' ≡ tick w5))
                  (hash_password-Ensures c laws req.new_password env w5)
                  (λ hash w' (a, b, d). (b, d)))
                λ hash w6 (matches, same6).
                  Ensures-bind (update_password u.id hash) _ env w6
                    (λ _ w'. PasswordSet u.id hash w6.db w'.db) Done
                    (update_password-Ensures u.id hash env w6)
                    λ _ w7 set.
                      let gone = delete_otp-lem req.email env w7 (up w7.calls) in
                      let base : w6.db ≡ w.db = ap db_of same6 ∙ (ap db_of same5 ∙ same) in
                      Ensures-ignore Error (delete_otp req.email) env w7 Done (
                        live,
                        u,
                        found,
                        hash,
                        matches,
                        subst (PasswordSet u.id hash w.db) (sym gone.0)
                            (subst (λ d. PasswordSet u.id hash d w7.db) base set),
                        gone.1,
                      )

  -- A code serves once if every service is up while it is accepted: after that, and until another one
  -- is stored for the address, no code is accepted for it, whichever calls fail then.
  pub code_serves_once :
      (req req' : OtpVerifyRequest) (env env' : Env) (w w' : World)
      → IsUp env
      → (verify_password_change_otp c req env w).0 ≡ ok tt
      → w'.otps req.email ≡ (verify_password_change_otp c req env w).1.otps req.email
      → req'.email ≡ req.email
      → (verify_password_change_otp c req' env' w').0 ≡ err invalid_otp
  code_serves_once req req' env env' w w' up done kept again =
      let (live, u, found, hash, matches, set, gone) =
        Ensures-elim (verify_password_change_otp c req env w) (Changed c req env w) tt
          (verify_password_change_otp-outcome req env w up) done in
      without_code c req' env' w' (rw again (kept ∙ gone))

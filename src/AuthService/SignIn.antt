-- ===== src/AuthService/SignIn.antt =====
-- From signing up to a request that is let through.
use high_concurrency_ticketi.Prelude.{
  suc, ◌+◌, ◌/◌, ◌≤◌, true, false, Bool-cases, Option-cases, some, inl, inr, ◌≡◌, refl, sym, ◌∙◌,
  ap, ⊤, ◌==◌, ==_iff, ==_refl, arith, [], ◌∷◌,
}
use high_concurrency_ticketi.Schema.{Text, Db, User, Role, second, is_admin, empty_text}
use high_concurrency_ticketi.Sql.{first_where, count_where}
use high_concurrency_ticketi.Sql.Laws.{first_where-append, first_where-none}
use high_concurrency_ticketi.World.{
  World, Env, Moment, Error, ok, ◌>>=◌, raise_if, random, attempt, tick, user_exists, hash_failed,
}
use high_concurrency_ticketi.World.Ensures.{
  Ensures, Ensures-bind, Ensures-exec, Ensures-or_raise, Ensures-weaken,
}
use high_concurrency_ticketi.World.Services.{Ensures-attempt, Ensures-raise_if, Ensures-elim}
use high_concurrency_ticketi.World.Returns.{Returns}
use high_concurrency_ticketi.Users.{has_email, get_by_email, create, insert_user, inserted_user}
use high_concurrency_ticketi.Auth.{
  Claims, Crypto, CryptoLaws, next, middleware, check_claims, issue,
}
use high_concurrency_ticketi.AuthService.{
  SignupRequest, LoginResponse, UserInfo, user_to_info, new_user, is_found, token_ttl,
  hash_password, generate_token, respond, signup, login, check_password,
}

module _ {Token : Type 0} (c : Crypto Token) (laws : CryptoLaws c) where
  -- The row that signs in with a password.
  abbrev pub SignsIn : Text → Text → UserInfo → Db → Type 0
  SignsIn email password info db =
      (u : User) × (first_where (has_email email) db.users ≡ some u)
      × (user_to_info u ≡ info)
      × (u.role ≡ Role.user)
      × ((u.password_hash == empty_text) ≡ false)
      × (c.compare u.password_hash password ≡ true)

  pub hash_password-Ensures :
      (password : Text) (env : Env) (w : World)
      → Ensures (hash_password c password env w) (λ hash w'.
        ((hash == empty_text) ≡ false) × (c.compare hash password ≡ true) × (w' ≡ tick w))
  hash_password-Ensures password env w =
      Ensures-bind random _ env w (λ _ w'. w' ≡ tick w) _ refl
        λ salt w' same.
          Ensures-or_raise (c.generate salt password) hash_failed env w' _ λ hash made.
            let facts = laws.hashes salt password hash made in
            (ground (arith, facts.0), facts.1, same)

  insert_user-found :
      (u : User) (m : Moment) (db : Db) (v : User)
      → (insert_user u m db).0 ≡ ok v
      → (v ≡ record u { id = m.fresh; created_at = m.now; updated_at = m.now })
        × (first_where (has_email u.email) (insert_user u m db).1.users ≡ some (inserted_user m u))
  unfolding insert_user
  insert_user-found u m db v done =
      elim (Bool-cases (count_where (has_email u.email) db.users == 0)) [
        | inr taken ↦ cc (rw taken at done)
        | inl new ↦
            let free = first_where-none (has_email u.email) db.users ((==_iff _ 0).0 new) in
            let last = first_where-append (has_email u.email) db.users (inserted_user m u ∷ []) in
            rw new (sym (cc (rw new at done)), last ∙ rw (free, ==_refl u.email) refl)
      ]

  respond-Ensures :
      (secret : Text) (u : User) (env : Env) (w : World)
      → Ensures (respond c secret u env w) (λ resp w'. (resp.user ≡ user_to_info u) × (w' ≡ w))
  unfolding respond generate_token issue ◌>>=◌
  respond-Ensures secret u env w =
      elim (Option-cases (
        c.sign secret (record {
          uid = u.id;
          adm = is_admin u.role;
          expires_at = ((env.moment w.calls).now + token_ttl) / second;
        }))) [
          | inl failed ↦ rw (failed, Ensures) tt
          | inr (t, signed) ↦ rw (signed, Ensures) (refl, refl)
        ]

  -- The row of a user who has just signed up.
  signup-Ensures :
      (secret : Text) (req : SignupRequest) (env : Env) (w : World)
      → Ensures
          (signup c secret req env w)
          (λ resp w'. SignsIn req.email req.password resp.user w'.db)
  unfolding signup create
  signup-Ensures secret req env w =
      Ensures-bind (attempt (get_by_email req.email)) _ env w (λ _ _. ⊤) Done
        (Ensures-attempt Error (get_by_email req.email) env w (λ _ _. ⊤) tt)
        λ existing w1 _.
          Ensures-bind (raise_if (is_found existing) user_exists) _ env w1 (λ _ _. ⊤) Done
            (Ensures-raise_if (is_found existing) user_exists env w1 (λ _ _. ⊤) (λ _. tt))
            λ _ w2 _.
              Ensures-bind (hash_password c req.password) _ env w2
                (λ hash w'.
                  ((hash == empty_text) ≡ false)
                  × (c.compare hash req.password ≡ true)
                  × (w' ≡ tick w2))
                Done (hash_password-Ensures req.password env w2)
                λ hash w3 hashed.
                  Ensures-bind (create (new_user req hash)) _ env w3
                    (λ u w'. SignsIn req.email req.password (user_to_info u) w'.db) Done
                    (Ensures-exec (insert_user (new_user req hash)) env w3 _ (λ v done.
                      let facts =
                        insert_user-found (new_user req hash) (env.moment w3.calls) w3.db v done in
                      (_, facts.1, rw facts.0 refl, refl, hashed.0, hashed.1)))
                    λ u w4 stored.
                      Ensures-weaken (respond c secret u env w4) _ Done
                        (respond-Ensures secret u env w4)
                        (λ resp w5 (same, still). rw (still, same) stored)
    where
      Done : LoginResponse Token → World → Type 0
      Done resp w' = SignsIn req.email req.password resp.user w'.db

  -- A user who signs in with a password gets a token that the middleware accepts for a day, but for
  -- the second that the time of expiry is rounded down by.
  login-accepted :
      (secret email password : Text) (info : UserInfo) (env env' : Env) (w w' : World)
      → SignsIn email password info w.db
      → env.fault w.calls ≡ false
      → (env'.moment w'.calls).now + second ≤ (env.moment (suc w.calls)).now + token_ttl
      → Returns (login c secret (record { email = email; password = password }) env w) (λ resp w1.
        (resp.user ≡ info)
        × (w1 ≡ tick w)
        × ((middleware c secret false (some resp.token) env' w').0 ≡ ok (next info.id false)))
  unfolding login get_by_email check_password respond generate_token issue middleware check_claims
      ◌>>=◌
  login-accepted secret email password info env env' w w' (u, found, same, plain, hashed, matches)
        up soon =
      let claims : Claims = record {
        uid = u.id;
        adm = is_admin u.role;
        expires_at = ((env.moment (suc w.calls)).now + token_ttl) / second;
      } in
      let (t, signed) = laws.signs secret claims in
      let parsed = laws.parses secret claims t (env'.moment w'.calls).now signed (omega arith) in
      let flag : is_admin u.role ≡ false = rw plain refl in
      let id : u.id ≡ info.id = ap (λ (i : UserInfo). i.id) same in
      rw (up, found, hashed, matches, signed, Returns) (same, refl, rw (parsed, flag, id) refl)

  -- After a successful sign-up, and while the database stays so, a login with the same address and
  -- password returns, if Postgres answers it, a token for the new user; and until a second before
  -- the day is over the middleware lets a request with that token through, as this user and as no
  -- administrator.
  pub signup-login :
      (secret : Text) (req : SignupRequest) (env0 env env' : Env) (w0 w w' : World)
      (resp : LoginResponse Token)
      → (signup c secret req env0 w0).0 ≡ ok resp
      → w.db ≡ (signup c secret req env0 w0).1.db
      → env.fault w.calls ≡ false
      → (env'.moment w'.calls).now + second ≤ (env.moment (suc w.calls)).now + token_ttl
      → Returns
          (login c secret (record { email = req.email; password = req.password }) env w)
          (λ again w1.
            (again.user ≡ resp.user)
            × (w1 ≡ tick w)
            × ((middleware c secret false (some again.token) env' w').0
                ≡ ok (next resp.user.id false)))
  signup-login secret req env0 env env' w0 w w' resp done kept up soon =
      let signs =
        Ensures-elim (signup c secret req env0 w0)
          (λ r v. SignsIn req.email req.password r.user v.db) resp
          (signup-Ensures secret req env0 w0) done in
      login-accepted secret req.email req.password resp.user env env' w w' (rw kept signs) up soon

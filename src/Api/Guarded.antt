-- ===== src/Api/Guarded.antt =====
-- What stands between a request and a handler.
use high_concurrency_ticketi.Prelude.{
  ℕ, Bool, true, false, Bool-cases, Option, none, some, inl, inr, ◌≡◌, ◌⊎◌, refl, sym, ◌∙◌, ap,
  arith, if◌then◌else◌,
}
use high_concurrency_ticketi.Schema.{Text}
use high_concurrency_ticketi.World.{
  resume, World, Env, Action, Error, Result, ok, err, panic, pure, ◌>>=◌, ◌>>◌, attempt, exec,
  query,
}
use high_concurrency_ticketi.World.Services.{bind-unchanged, attempt-unchanged}
use high_concurrency_ticketi.World.Returns.{Returns}
use high_concurrency_ticketi.Auth.{
  Claims, Crypto, Access, abort, connect, select_role, is_user_admin_in_db, check_admin,
  check_claims, middleware,
}
use high_concurrency_ticketi.Auth.Admission.{
  answers, is_listed, verdict, uid_of, claims_in, middleware_lem,
}
use high_concurrency_ticketi.Api.{Reply, failed, guarded, admit}
use high_concurrency_ticketi.Api.Bookings.{cancel, cancel_route}

-- The state of the services, without the number of the calls that were made.
abbrev pub view : World → World
view w = record w { calls = 0 }

connect-untouched : (env : Env) (w : World) → view (connect env w).1 ≡ view w
unfolding connect
connect-untouched env w = elim (Bool-cases (env.fault w.calls)) [
  | inl down ↦ rw down refl
  | inr up ↦ rw up refl
]

select_role-untouched : (id : Text) (env : Env) (w : World) → view (select_role id env w).1 ≡ view w
unfolding select_role query exec
select_role-untouched id env w = elim (Bool-cases (env.fault w.calls)) [
  | inl down ↦ rw down refl
  | inr up ↦ rw up refl
]

check_admin-untouched : (k : Claims) (env : Env) (w : World) → view (check_admin k env w).1 ≡ view w
unfolding check_admin is_user_admin_in_db
check_admin-untouched k env w =
    bind-unchanged view (is_user_admin_in_db k.uid) _ env w
      (bind-unchanged view (attempt (connect >> select_role k.uid)) _ env w
        (attempt-unchanged view Error (connect >> select_role k.uid) env w (
          bind-unchanged view connect _ env w (connect-untouched env w)
            (λ _ w'. select_role-untouched k.uid env w')))
        (λ r w'. refl))
      (λ listed w'. refl)

-- The flag in the claims.
abbrev pub flag_of : Option Claims → Bool
flag_of none = false
flag_of (some k) = k.adm

-- Without what entitles, the middleware's decision is a refusal.
verdict_refuses :
    (required : Bool) (found : Option Claims) (listed clear : Bool)
    → ((found ≡ none) ⊎ ((required ≡ true) × ((listed ≡ false) ⊎ (flag_of found ≡ false))))
    → (code : ℕ) × (verdict required found (if clear then listed else false) ≡ abort code)
      × ((code ≡ 401) ⊎ (code ≡ 403))
verdict_refuses required none listed clear lacking = (401, refl, inl refl)
verdict_refuses false (some k) listed clear (inl e) = cc
verdict_refuses false (some k) listed clear (inr (e, x)) = cc
verdict_refuses true (some k) listed clear lacking = (403, ground arith, inr refl)

module _ {Token : Type 0} (c : Crypto Token) (secret : Text) where
  check_claims-untouched :
      (required : Bool) (found : Option Claims) (env : Env) (w : World)
      → view (check_claims c required found env w).1 ≡ view w
  unfolding check_claims
  check_claims-untouched required none env w = refl
  check_claims-untouched false (some k) env w = refl
  check_claims-untouched true (some k) env w = go k.adm
    where
      go :
          (flag : Bool) → view ((if flag then check_admin k else pure (abort 403)) env w).1 ≡ view w
      go true = check_admin-untouched k env w
      go false = refl

  middleware-untouched :
      (required : Bool) (header : Option Token) (env : Env) (w : World)
      → view (middleware c secret required header env w).1 ≡ view w
  unfolding middleware ◌>>=◌
  middleware-untouched required none env w = refl
  middleware-untouched required (some t) env w =
      check_claims-untouched required (c.parse secret (env.moment w.calls).now t) env w

  -- What a handler answers does not matter if the middleware does not let the request through: the
  -- answer is 401 or 403, and the services are as they were.
  refused :
      {A : Type 0} (handler : Text → Action Error (Reply A)) (env : Env)
      (r : Result Error Access × World) (code : ℕ)
      → r.0 ≡ ok (abort code)
      → resume {E = Error} (λ access. admit handler access) env r ≡ (ok (failed code), r.1)
  refused handler env (ok access, w) code e = let same : access ≡ abort code = cc in rw same refl
  refused handler env (err x, w) code e = cc
  refused handler env (panic, w) code e = cc

  -- A request to a protected route, whatever its handler does, whose bearer token is missing or does
  -- not parse now, or, on a route of administrators, lacks the flag, or names a user whom the
  -- database does not list as an administrator, is answered with 401 or 403, and changes nothing in
  -- any store, whichever calls fail.
  pub guarded_refuses :
      {A : Type 0} (required : Bool) (header : Option Token)
      (handler : Text → Action Error (Reply A)) (env : Env) (w : World)
      → ((claims_in c secret header (env.moment w.calls).now ≡ none)
          ⊎ ((required ≡ true)
              × ((is_listed (uid_of (claims_in c secret header (env.moment w.calls).now)) w.db
                    ≡ false)
                  ⊎ (flag_of (claims_in c secret header (env.moment w.calls).now) ≡ false))))
      → Returns
          (guarded c secret required header handler env w)
          (λ r w'. ((r ≡ failed 401) ⊎ (r ≡ failed 403)) × (view w' ≡ view w))
  unfolding guarded ◌>>=◌
  guarded_refuses {A} required header handler env w lacking =
      let found = claims_in c secret header (env.moment w.calls).now in
      let (code, e, which) =
        verdict_refuses required found (is_listed (uid_of found) w.db) (answers env w) lacking in
      let decided = middleware_lem c secret required header env w ∙ ap ok e in
      rw (refused handler env (middleware c secret required header env w) code decided, Returns)
        (answer code which, middleware-untouched required header env w)
    where
      answer :
          (code : ℕ)
          → (code ≡ 401) ⊎ (code ≡ 403)
          → (failed {A = A} code ≡ failed 401) ⊎ (failed {A = A} code ≡ failed 403)
      answer code (inl e) = inl (ap failed e)
      answer code (inr e) = inr (ap failed e)

  -- A token that parses is enough for a route that is not of administrators.
  guarded_passes :
      {A : Type 0} (header : Option Token) (handler : Text → Action Error (Reply A)) (env : Env)
      (w : World) (k : Claims)
      → claims_in c secret header (env.moment w.calls).now ≡ some k
      → guarded c secret false header handler env w ≡ handler k.uid env w
  unfolding guarded middleware check_claims ◌>>=◌
  guarded_passes none handler env w k p = cc
  guarded_passes {A} (some t) handler env w k p = go (c.parse secret (env.moment w.calls).now t) p
    where
      go :
          (found : Option Claims)
          → found ≡ some k
          → resume {E = Error}
              (λ access. admit handler access)
              env
              (check_claims c false found env w)
            ≡ handler k.uid env w
      go none e = cc
      go (some j) e = let same : j ≡ k = cc in ap (λ (i : Claims). handler i.uid env w) same

  -- The route that cancels a booking does not look at who asks: two requests for the same booking
  -- whose tokens parse now have the same answer and the same effect, whosever tokens they are.
  pub cancel_for_anyone :
      (mine other : Option Token) (id : Text) (env : Env) (w : World) (k l : Claims)
      → claims_in c secret mine (env.moment w.calls).now ≡ some k
      → claims_in c secret other (env.moment w.calls).now ≡ some l
      → cancel_route c secret mine id env w ≡ cancel_route c secret other id env w
  unfolding cancel_route cancel
  cancel_for_anyone mine other id env w k l p q =
      guarded_passes mine (λ uid. cancel id) env w k p
      ∙ sym (guarded_passes other (λ uid. cancel id) env w l q)

-- ===== src/Auth/Admission.antt =====
-- Whom the middleware lets through.
use high_concurrency_ticketi.Prelude.{
  subst, ◌⊎◌, suc, Bool, true, false, negate, ◌&&◌, Bool-cases, Option, none, some, Option-cases,
  inl, inr, ◌≡◌, ◌↔◌, refl, sym, ◌∙◌, ap, if◌then◌else◌, arith,
}
use high_concurrency_ticketi.Schema.{Text, Time, Db, is_admin}
use high_concurrency_ticketi.Sql.{first_where}
use high_concurrency_ticketi.World.{
  resume, World, Env, Action, Result, ok, err, panic, ◌>>=◌, attempt,
}
use high_concurrency_ticketi.World.Ensures.{IsUp}
use high_concurrency_ticketi.Users.{has_user_id}
use high_concurrency_ticketi.Auth.{
  pure, Claims, Crypto, Access, next, abort, connect, select_role, is_user_admin_in_db, check_admin,
  check_claims, middleware,
}

-- The row of the user has the role of an administrator.
abbrev pub is_listed : Text → Db → Bool
is_listed id db = elim (first_where (has_user_id id) db.users) [
  | none ↦ false
  | some u ↦ is_admin u.role
]

-- Postgres answers the middleware's connection and its query.
abbrev pub answers : Env → World → Bool
answers env w = negate (env.fault w.calls) && negate (env.fault (suc w.calls))

is_user_admin_in_db_lem :
    (id : Text) (env : Env) (w : World)
    → (is_user_admin_in_db id env w).0 ≡ ok (if answers env w then is_listed id w.db else false)
unfolding is_user_admin_in_db connect select_role ◌>>=◌
is_user_admin_in_db_lem id env w = elim (Bool-cases (env.fault w.calls)) [
  | inl down ↦ rw (down, attempt) refl
  | inr up ↦ elim (Bool-cases (env.fault (suc w.calls))) [
    | inl down ↦ rw (up, down, attempt) refl
    | inr up' ↦ elim (Option-cases (first_where (has_user_id id) w.db.users)) [
      | inl missing ↦ rw (up, up', missing, attempt, is_listed) refl
      | inr (u, found) ↦ rw (up, up', found, attempt, is_listed) refl
    ]
  ]
]

-- A function of what a call returned.
bind-pure_value :
    {E A B : Type 0} (m : Action E A) (f : A → B) (env : Env) (w : World) (a : A)
    → (m env w).0 ≡ ok a
    → ((m >>= λ x. pure (f x)) env w).0 ≡ ok (f a)
unfolding ◌>>=◌
bind-pure_value {E} {A} {B} m f env w a h = go (m env w) h
  where
    go :
        (r : Result E A × World)
        → r.0 ≡ ok a
        → (resume {E = E} (λ x. pure (f x)) env r).0 ≡ ok (f a)
    go (ok x, w') e = cc
    go (err x, w') e = cc
    go (panic, w') e = cc

check_admin_lem :
    (k : Claims) (env : Env) (w : World)
    → let listed = (if answers env w then is_listed k.uid w.db else false) in
      (check_admin k env w).0 ≡ ok (if listed then next k.uid k.adm else abort 403)
unfolding check_admin
check_admin_lem k env w =
    bind-pure_value (is_user_admin_in_db k.uid)
      (λ listed. if listed then next k.uid k.adm else abort 403) env w _
      (is_user_admin_in_db_lem k.uid env w)

-- What the middleware decides, by cases.
abbrev pub verdict : Bool → Option Claims → Bool → Access
verdict required none listed = abort 401
verdict required (some k) listed =
    if required
    then (if k.adm then (if listed then next k.uid k.adm else abort 403) else abort 403)
    else next k.uid k.adm

abbrev pub uid_of : Option Claims → Text
uid_of none = 0
uid_of (some k) = k.uid

module _ {Token : Type 0} (c : Crypto Token) (secret : Text) where
  -- The claims in a header at a time.
  abbrev pub claims_in : Option Token → Time → Option Claims
  claims_in none now = none
  claims_in (some t) now = c.parse secret now t

  gate :
      (k : Claims) (flag : Bool) (env : Env) (w : World)
      → let listed = (if answers env w then is_listed k.uid w.db else false) in
        ((if flag then check_admin k else pure (abort 403)) env w).0
        ≡ ok (if flag then (if listed then next k.uid k.adm else abort 403) else abort 403)
  gate k true env w = check_admin_lem k env w
  gate k false env w = refl

  pub middleware_lem :
      (required : Bool) (header : Option Token) (env : Env) (w : World)
      → let found = claims_in header (env.moment w.calls).now in
        let listed = (if answers env w then is_listed (uid_of found) w.db else false) in
        (middleware c secret required header env w).0 ≡ ok (verdict required found listed)
  unfolding middleware check_claims ◌>>=◌
  middleware_lem required none env w = refl
  middleware_lem required (some t) env w = go required (c.parse secret (env.moment w.calls).now t)
    where
      go :
          (required : Bool) (found : Option Claims)
          → (check_claims c required found env w).0
            ≡ ok (
                verdict required found
                  (if answers env w then is_listed (uid_of found) w.db else false))
      go required none = refl
      go false (some k) = refl
      go true (some k) = gate k k.adm env w

  -- What entitles to a route: a token whose claims parse now, and for a route of administrators the
  -- flag in the claims and the role in the database.
  abbrev pub Entitled : Bool → Option Token → Time → Db → Text → Bool → Type 0
  Entitled required header now db uid adm =
      (k : Claims) × (claims_in header now ≡ some k)
      × (k.uid ≡ uid)
      × (k.adm ≡ adm)
      × ((required ≡ false) ⊎ ((k.adm ≡ true) × (is_listed k.uid db ≡ true)))

  verdict-eq-next :
      (required : Bool) (found : Option Claims) (listed : Bool) (uid : Text) (adm : Bool)
      → (verdict required found listed ≡ next uid adm) ↔ (
          (k : Claims) × (found ≡ some k)
          × (k.uid ≡ uid)
          × (k.adm ≡ adm)
          × ((required ≡ false) ⊎ ((k.adm ≡ true) × (listed ≡ true))))
  verdict-eq-next required none listed uid adm = ((λ e. cc), λ (k, e, u, a, x). cc)
  verdict-eq-next false (some k) listed uid adm =
      ((λ e. (k, refl, (cc), (cc), inl refl)), λ (j, e, u, a, x). ground arith)
  verdict-eq-next true (some k) listed uid adm =
      (admitted (Bool-cases k.adm) (Bool-cases listed), λ (j, e, u, a, x). ground arith)
    where
      admitted :
          (k.adm ≡ true) ⊎ (k.adm ≡ false)
          → (listed ≡ true) ⊎ (listed ≡ false)
          → verdict true (some k) listed ≡ next uid adm
          → (j : Claims) × (some k ≡ some j)
            × (j.uid ≡ uid)
            × (j.adm ≡ adm)
            × ((true ≡ false) ⊎ ((j.adm ≡ true) × (listed ≡ true)))
      admitted (inl flag) (inl on) e = (k, refl, ground arith, ground arith, inr (flag, on))
      admitted (inl flag) (inr off) e = ground arith
      admitted (inr flag) on e = ground arith

  -- With every service up, the middleware lets a request through with a user id and a flag exactly
  -- when they are those of the claims of a bearer token that parses now, and, on a route of
  -- administrators, the flag is set and the database lists the user as an administrator.
  pub middleware_iff :
      (required : Bool) (header : Option Token) (env : Env) (w : World) (uid : Text) (adm : Bool)
      → IsUp env
      → ((middleware c secret required header env w).0 ≡ ok (next uid adm))
        ↔ Entitled required header (env.moment w.calls).now w.db uid adm
  middleware_iff required header env w uid adm up =
      let found = claims_in header (env.moment w.calls).now in
      let listed = is_listed (uid_of found) w.db in
      let clear : answers env w ≡ true = rw (up w.calls, up (suc w.calls)) refl in
      let decides : (middleware c secret required header env w).0
          ≡ ok (verdict required found listed) =
        rw clear at (middleware_lem required header env w) in
      let cases = verdict-eq-next required found listed uid adm in
      (
        λ h.
            let (k, e, u, a, x) = cases.0 (cc (decides, h)) in
            (
              k,
              e,
              u,
              a,
              subst
                  (λ (o : Option Claims).
                    (required ≡ false) ⊎ ((k.adm ≡ true) × (is_listed (uid_of o) w.db ≡ true)))
                  e x,
            ),
        λ (k, e, u, a, x).
            decides
            ∙ ap ok (
                cases.1 (
                  k,
                  e,
                  u,
                  a,
                  subst
                      (λ (o : Option Claims).
                        (required ≡ false) ⊎ ((k.adm ≡ true) × (is_listed (uid_of o) w.db ≡ true)))
                      (sym e) x,
                )),
      )

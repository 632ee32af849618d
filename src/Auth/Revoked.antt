-- ===== src/Auth/Revoked.antt =====
-- The middleware after an administrator was removed.
use high_concurrency_ticketi.Prelude.{
  ℕ, Bool, true, false, Option, none, some, inl, inr, ◌≡◌, ◌⊎◌, refl, ◌∙◌, ap, arith, List, [], ◌∷◌,
  if◌then◌else◌, ◌&&◌,
}
use high_concurrency_ticketi.Schema.{Text, Db, User, Role, is_admin}
use high_concurrency_ticketi.Sql.{first_where, update_where}
use high_concurrency_ticketi.World.{World, Env, Moment, Error, Result, ok, exec}
use high_concurrency_ticketi.World.Ensures.{Ensures, Ensures-bind, Ensures-exec}
use high_concurrency_ticketi.World.Services.{Ensures-elim, Ensures-require_rows}
use high_concurrency_ticketi.Users.{has_user_id, update_users}
use high_concurrency_ticketi.AdminStore.{remove_admin}
use high_concurrency_ticketi.Auth.{Claims, Crypto, abort, middleware}
use high_concurrency_ticketi.Auth.Admission.{
  answers, is_listed, verdict, uid_of, claims_in, middleware_lem,
}

demoted_rows :
    (id : Text) (m : Moment) (us : List User)
    → (elim (first_where (has_user_id id) (
          update_where
            (λ u. has_user_id id u && is_admin u.role)
            (λ u. record u { role = Role.user; updated_at = m.now })
            us))
        as (λ _. Bool) [ none ↦ false | some u ↦ is_admin u.role ])
      ≡ false
demoted_rows id m [] = refl
demoted_rows id m (u ∷ us) = ground (arith, demoted_rows id m us)

remove_admin-unlisted :
    (id : Text) (env : Env) (w : World)
    → Ensures (remove_admin id env w) (λ _ w'. is_listed id w'.db ≡ false)
unfolding remove_admin
remove_admin-unlisted id env w =
    Ensures-bind (exec demote) _ env w (λ _ w'. is_listed id w'.db ≡ false) _
      (Ensures-exec demote env w _ (λ n e. demoted_rows id (env.moment w.calls) w.db.users))
      (λ n w' p. Ensures-require_rows n env w' (λ _ w'. is_listed id w'.db ≡ false) p)
  where
    demote : Moment → Db → Result Error ℕ × Db
    demote =
        update_users (λ u. has_user_id id u && is_admin u.role) (λ u. record u { role = Role.user })

refused :
    (found : Option Claims) (listed : Bool)
    → listed ≡ false
    → (code : ℕ) × (verdict true found listed ≡ abort code) × ((code ≡ 401) ⊎ (code ≡ 403))
refused none listed off = (401, refl, inl refl)
refused (some k) listed off = (403, ground arith, inr refl)

-- Once an administrator was removed, and while the database stays so, a route of administrators
-- refuses every token with that user id, also one that was issued before and is still valid, and
-- whichever calls fail: the answer is 401 or 403.
pub removed_admin_is_refused :
    {Token : Type 0} (c : Crypto Token) (secret id : Text) (header : Option Token) (env env' : Env)
    (w w' : World)
    → (remove_admin id env w).0 ≡ ok tt
    → w'.db ≡ (remove_admin id env w).1.db
    → uid_of (claims_in c secret header (env'.moment w'.calls).now) ≡ id
    → (code : ℕ) × ((middleware c secret true header env' w').0 ≡ ok (abort code))
      × ((code ≡ 401) ⊎ (code ≡ 403))
removed_admin_is_refused c secret id header env env' w w' done same mine =
    let unlisted =
      Ensures-elim (remove_admin id env w) (λ _ v. is_listed id v.db ≡ false) tt
        (remove_admin-unlisted id env w) done in
    let found = claims_in c secret header (env'.moment w'.calls).now in
    let off : (if answers env' w' then is_listed (uid_of found) w'.db else false) ≡ false =
      rw (mine, same, unlisted) (never (answers env' w')) in
    let (code, e, which) = refused found _ off in
    (code, middleware_lem c secret true header env' w' ∙ ap ok e, which)
  where
    never : (b : Bool) → (if b then false else false) ≡ false
    never true = refl
    never false = refl

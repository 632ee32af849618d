-- ===== src/World/Returns.antt =====
-- Calls that are sure to return a value when no service fails, with a rule for each way to build one.
use high_concurrency_ticketi.Prelude.{◌≢◌, ◌≡◌, refl, subst, inl, inr, Option, some, ⊤}
use high_concurrency_ticketi.Schema.{Db}
use high_concurrency_ticketi.World.{
  dropped, ignore, attempt, World, Moment, Env, Action, Error, Result, ok, err, panic, ◌>>=◌,
  resume, or_raise, from_result, tick, exec, query, end_tx, with_tx,
}
use high_concurrency_ticketi.World.Ensures.{IsUp, CommitsOrFails}

-- The call returned a value, which satisfies `P` with the world after it.
abbrev pub Returns : {E A : Type 0} → Result E A × World → (A → World → Type 0) → Type 0
Returns (ok a, w) P = P a w
Returns (err _, w) P = ⊥
Returns (panic, w) P = ⊥

pub Returns-bind :
    {E A B : Type 0} (m : Action E A) (f : A → Action E B) (env : Env) (w : World)
    (Q : A → World → Type 0) (P : B → World → Type 0)
    → Returns (m env w) Q
    → ((a : A) (w' : World) → Q a w' → Returns (f a env w') P)
    → Returns ((m >>= f) env w) P
unfolding ◌>>=◌
Returns-bind {E} {A} {B} m f env w Q P h k = go (m env w) h
  where
    go : (r : Result E A × World) → Returns r Q → Returns (resume f env r) P
    go (ok a, w') q = k a w' q
    go (err e, w') q = absurd q
    go (panic, w') q = absurd q

module _ {E A : Type 0} (env : Env) (w : World) (P : A → World → Type 0) where
  pub Returns-or_raise :
      (o : Option A) (e : E) (a : A) → o ≡ some a → P a w → Returns (or_raise o e env w) P
  Returns-or_raise o e a found p = rw found p

  pub Returns-from_result :
      (r : Result E A) (a : A) → r ≡ ok a → P a w → Returns (from_result r env w) P
  Returns-from_result r a found p = rw found p

  pub Returns-weaken :
      (r : Result E A × World) (Q : A → World → Type 0)
      → Returns r Q
      → ((a : A) (w' : World) → Q a w' → P a w')
      → Returns r P
  Returns-weaken (ok a, w') Q q h = h a w' q
  Returns-weaken (err _, w') Q q h = q
  Returns-weaken (panic, w') Q q h = q

module _ {A : Type 0} (env : Env) (up : IsUp env) (w : World) (P : A → World → Type 0) where
  pub Returns-exec :
      (f : Moment → Db → Result Error A × Db) (a : A)
      → (f (env.moment w.calls) w.db).0 ≡ ok a
      → P a (record (tick w) { db = (f (env.moment w.calls) w.db).1 })
      → Returns (exec f env w) P
  unfolding exec
  Returns-exec f a e p = rw (up w.calls, e) p

  pub Returns-query :
      (f : Moment → Db → Result Error A) (a : A)
      → f (env.moment w.calls) w.db ≡ ok a
      → P a (tick w)
      → Returns (query f env w) P
  unfolding query exec
  Returns-query f a e p = rw (up w.calls, e) p

module _ {A : Type 0} (P : A → Db → Type 0) (env : Env) (up : IsUp env) where
  Returns-end_tx :
      (before : Db) (r : Result Error A × World)
      → Returns r (λ a w'. P a w'.db)
      → Returns (end_tx env before r) (λ a w'. P a w'.db)
  unfolding end_tx
  Returns-end_tx before (ok a, w') p = rw (up w'.calls) p
  Returns-end_tx before (err e, w') p = p
  Returns-end_tx before (panic, w') p = p

  pub Returns-with_tx :
      (body : Action Error A) (w : World)
      → Returns (body env (tick w)) (λ a w'. P a w'.db)
      → Returns (with_tx body env w) (λ a w'. P a w'.db)
  unfolding with_tx
  Returns-with_tx body w p = rw (up w.calls) (Returns-end_tx w.db (body env (tick w)) p)

pub Returns-ok :
    {E : Type 0} {A : Type 0} (r : Result E A × World) (P : A → World → Type 0)
    → Returns r P
    → (a : A) × (r.0 ≡ ok a) × P a r.1
Returns-ok (ok a, w) P p = (a, refl, p)
Returns-ok (err e, w) P p = absurd p
Returns-ok (panic, w) P p = absurd p

-- A transaction that is sure to return has committed.
pub Returns-CommitsOrFails :
    {A : Type 0} (before : Db) (r : Result Error A × World) (P : A → Db → Type 0)
    → Returns r (λ _ _. ⊤)
    → CommitsOrFails before r P
    → Returns r (λ a w. P a w.db)
Returns-CommitsOrFails before (ok a, w) P h (inl (inl (e, x), d)) = cc
Returns-CommitsOrFails before (ok a, w) P h (inl (inr x, d)) = cc
Returns-CommitsOrFails before (ok a, w) P h (inr (b, x, p)) = subst (λ c. P c w.db) (cc) p
Returns-CommitsOrFails before (err e, w) P h q = absurd h
Returns-CommitsOrFails before (panic, w) P h q = absurd h

-- A call whose error is a value returns unless it panics.
pub Returns-attempt :
    (F : Type 0) {E A : Type 0} (m : Action E A) (env : Env) (w : World)
    (P : Result E A → World → Type 0)
    → (m env w).0 ≢ panic
    → P (m env w).0 (m env w).1
    → Returns (attempt {F = F} m env w) P
Returns-attempt F {E} {A} m env w P h q = go (m env w) h q
  where
    go :
        (r : Result E A × World)
        → r.0 ≢ panic
        → P r.0 r.1
        → let c : Result F (Result E A) × World = elim r.0 [
          | ok a ↦ (ok (ok a), r.1)
          | err e ↦ (ok (err e), r.1)
          | panic ↦ (panic, r.1)
        ] in
          Returns c P
    go (ok a, w') ne p = p
    go (err e, w') ne p = p
    go (panic, w') ne p = absurd (ne refl)

-- A call whose error is ignored, if it has none.
pub Returns-ignore :
    (E : Type 0) {F A : Type 0} (m : Action F A) (env : Env) (w : World) (P : World → Type 0)
    → Returns (m env w) (λ _ w'. P w')
    → Returns (ignore {E = F} {F = E} m env w) (λ _ w'. P w')
Returns-ignore E {F} {A} m env w P h = go (m env w) h
  where
    go :
        (r : Result F A × World)
        → Returns r (λ _ w'. P w')
        → Returns {E = E} (dropped r.0, r.1) (λ _ w'. P w')
    go (ok a, w') p = p
    go (err e, w') p = absurd p
    go (panic, w') p = absurd p

-- What is known of the world after a call is known with what it returned.
pub Returns-and :
    {E A : Type 0} (r : Result E A × World) (P : A → World → Type 0) (Q : World → Type 0)
    → Returns r P
    → Q r.1
    → Returns r (λ a w. P a w × Q w)
Returns-and (ok a, w) P Q p q = (p, q)
Returns-and (err e, w) P Q p q = absurd p
Returns-and (panic, w) P Q p q = absurd p

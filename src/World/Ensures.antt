-- ===== src/World/Ensures.antt =====
-- Postconditions of calls that return a value, with a rule for each way to build a call.
use high_concurrency_ticketi.Prelude.{
  ℕ, false, ◌≡◌, refl, sym, ◌∙◌, Option, none, some, ⊤, ◌⊎◌, inl, inr, Bool-cases,
}
use high_concurrency_ticketi.Schema.{Db}
use high_concurrency_ticketi.World.{
  World, Moment, Env, Action, Error, Result, ok, err, panic, ◌>>=◌, resume, or_raise, from_result,
  tick, exec, query, end_tx, with_tx,
}
use high_concurrency_ticketi.World.Atomic.{IsFailure, AllOrNothing, with_tx_atomic}

-- If the call returned a value, the value and the world after it satisfy `P`.
abbrev pub Ensures : {E A : Type 0} → Result E A × World → (A → World → Type 0) → Type 0
Ensures (ok a, w) P = P a w
Ensures (err _, w) P = ⊤
Ensures (panic, w) P = ⊤

module _ {E A B : Type 0} where
  pub Ensures-bind :
      (m : Action E A) (f : A → Action E B) (env : Env) (w : World) (Q : A → World → Type 0)
      (P : B → World → Type 0)
      → Ensures (m env w) Q
      → ((a : A) (w' : World) → Q a w' → Ensures (f a env w') P)
      → Ensures ((m >>= f) env w) P
  unfolding ◌>>=◌
  Ensures-bind m f env w Q P h k = go (m env w) h
    where
      go : (r : Result E A × World) → Ensures r Q → Ensures (resume f env r) P
      go (ok a, w') q = k a w' q
      go (err e, w') q = tt
      go (panic, w') q = tt

module _ {E A : Type 0} where
  pub Ensures-or_raise :
      (o : Option A) (e : E) (env : Env) (w : World) (P : A → World → Type 0)
      → ((a : A) → o ≡ some a → P a w)
      → Ensures (or_raise o e env w) P
  Ensures-or_raise none e env w P h = tt
  Ensures-or_raise (some a) e env w P h = h a refl

  pub Ensures-from_result :
      (r : Result E A) (env : Env) (w : World) (P : A → World → Type 0)
      → ((a : A) → r ≡ ok a → P a w)
      → Ensures (from_result r env w) P
  Ensures-from_result (ok a) env w P h = h a refl
  Ensures-from_result (err e) env w P h = tt
  Ensures-from_result panic env w P h = tt

  pub Ensures-weaken :
      (r : Result E A × World) (Q P : A → World → Type 0)
      → Ensures r Q
      → ((a : A) (w : World) → Q a w → P a w)
      → Ensures r P
  Ensures-weaken (ok a, w) Q P q h = h a w q
  Ensures-weaken (err _, w) Q P q h = tt
  Ensures-weaken (panic, w) Q P q h = tt

module _ {A : Type 0} where
  answered :
      (r : Result Error A) (w : World) (P : A → World → Type 0)
      → ((a : A) → r ≡ ok a → P a w)
      → Ensures (r, w) P
  answered (ok a) w P h = h a refl
  answered (err _) w P h = tt
  answered panic w P h = tt

  pub Ensures-exec :
      (f : Moment → Db → Result Error A × Db) (env : Env) (w : World) (P : A → World → Type 0)
      → ((a : A)
          → (f (env.moment w.calls) w.db).0 ≡ ok a
          → P a (record (tick w) { db = (f (env.moment w.calls) w.db).1 }))
      → Ensures (exec f env w) P
  unfolding exec
  Ensures-exec f env w P h = elim (Bool-cases (env.fault w.calls)) [
    | inl down ↦ rw down tt
    | inr up ↦ rw up (answered _ _ P h)
  ]

  pub Ensures-query :
      (f : Moment → Db → Result Error A) (env : Env) (w : World) (P : A → World → Type 0)
      → ((a : A) → f (env.moment w.calls) w.db ≡ ok a → P a (tick w))
      → Ensures (query f env w) P
  unfolding query
  Ensures-query f env w P h = Ensures-exec (λ m db. (f m db, db)) env w P h

  end_tx-keeps :
      (Inv : Db → Type 0) (env : Env) (before : Db) (inner : Result Error A × World)
      → Inv before
      → Ensures inner (λ _ w'. Inv w'.db)
      → Inv (end_tx env before inner).1.db
  unfolding end_tx
  end_tx-keeps Inv env before (ok a, w) old new = elim (Bool-cases (env.fault w.calls)) [
    | inl down ↦ rw down old
    | inr up ↦ rw up new
  ]
  end_tx-keeps Inv env before (err e, w) old new = old
  end_tx-keeps Inv env before (panic, w) old new = old

  -- A property of the database that the body's writes keep is kept by the transaction, whichever
  -- calls fail.
  pub with_tx-keeps :
      (Inv : Db → Type 0) (body : Action Error A) (env : Env) (w : World)
      → Inv w.db
      → Ensures (body env (tick w)) (λ _ w'. Inv w'.db)
      → Inv (with_tx body env w).1.db
  unfolding with_tx
  with_tx-keeps Inv body env w old new = elim (Bool-cases (env.fault w.calls)) [
    | inl down ↦ rw down old
    | inr up ↦ rw up (end_tx-keeps Inv env w.db (body env (tick w)) old new)
  ]

  -- The same for a statement outside a transaction.
  pub exec-keeps :
      (Inv : Db → Type 0) (f : Moment → Db → Result Error A × Db) (env : Env) (w : World)
      → Inv w.db
      → Inv (f (env.moment w.calls) w.db).1
      → Inv (exec f env w).1.db
  unfolding exec
  exec-keeps Inv f env w old new = elim (Bool-cases (env.fault w.calls)) [
    | inl down ↦ rw down old
    | inr up ↦ rw up new
  ]

-- A transaction failed and left the database alone, or returned a value that fits the new database.
abbrev pub CommitsOrFails : {A : Type 0} → Db → Result Error A × World → (A → Db → Type 0) → Type 0
CommitsOrFails {A} before r P =
    (IsFailure r.0 × (r.1.db ≡ before)) ⊎ ((a : A) × (r.0 ≡ ok a) × P a r.1.db)

module _ {A : Type 0} where
  pub with_tx-CommitsOrFails :
      (P : A → Db → Type 0) (body : Action Error A) (env : Env) (w : World)
      → Ensures (body env (tick w)) (λ a w'. P a w'.db)
      → CommitsOrFails w.db (with_tx body env w) P
  with_tx-CommitsOrFails P body env w h =
      go (body env (tick w)) h (with_tx body env w) (with_tx_atomic body env w)
    where
      go :
          (inner : Result Error A × World)
          → Ensures inner (λ a w'. P a w'.db)
          → (outer : Result Error A × World) → AllOrNothing w.db inner outer
          → CommitsOrFails w.db outer P
      go inner q outer (inl failed) = inl failed
      go (ok b, w') q outer (inr (a, e, r, d)) = inr (b, r ∙ sym e, rw d q)
      go (err x, w') q outer (inr (a, e, r, d)) = cc
      go (panic, w') q outer (inr (a, e, r, d)) = cc

-- No call of a service fails.
abbrev pub IsUp : Env → Type 0
IsUp env = (n : ℕ) → env.fault n ≡ false

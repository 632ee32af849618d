-- ===== src/World/Services.antt =====
-- The rules of `Ensures` for the ways in which the services call: a status code added to an error, an
-- error that is ignored, and an error as a value.
use high_concurrency_ticketi.Prelude.{
  suc, subst, ◌∙◌, ℕ, ◌≡◌, refl, Bool, true, false, Option, some, none, inl, inr, Bool-cases, ⊤,
}
use high_concurrency_ticketi.Schema.{Db}
use high_concurrency_ticketi.World.{
  replaced, call, require_rows, or_error, resume, ◌>>=◌, World, Moment, Env, Action, Error, Result,
  ok, err, panic, ignore, attempt, raise_if, dropped, tick, exec, query, deref,
}
use high_concurrency_ticketi.World.Ensures.{Ensures, CommitsOrFails}
use high_concurrency_ticketi.Outside.{with_code, coded}

pub Ensures-with_code :
    {A : Type 0} (code : ℕ) (m : Action Error A) (env : Env) (w : World) (P : A → World → Type 0)
    → Ensures (m env w) P
    → Ensures (with_code code m env w) P
Ensures-with_code {A} code m env w P h = go (m env w) h
  where
    go : (r : Result Error A × World) → Ensures r P → Ensures (coded code r.0, r.1) P
    go (ok a, w') q = q
    go (err e, w') q = tt
    go (panic, w') q = tt

module _ (E : Type 0) where
  pub Ensures-ignore :
      {F A : Type 0} (m : Action F A) (env : Env) (w : World) (P : ⊤ → World → Type 0)
      → P tt (m env w).1
      → Ensures (ignore {E = F} {F = E} m env w) P
  Ensures-ignore {F} {A} m env w P h = go (m env w) h
    where
      go : (r : Result F A × World) → P tt r.1 → Ensures {E = E} (dropped r.0, r.1) P
      go (ok a, w') q = q
      go (err e, w') q = q
      go (panic, w') q = tt

  pub Ensures-attempt :
      {F A : Type 0} (m : Action F A) (env : Env) (w : World) (P : Result F A → World → Type 0)
      → P (m env w).0 (m env w).1
      → Ensures (attempt {F = E} m env w) P
  Ensures-attempt {F} {A} m env w P h = go (m env w) h
    where
      go :
          (r : Result F A × World)
          → P r.0 r.1
          → Ensures {E = E}
              (elim r.0 [
                | ok a ↦ (ok (ok a), r.1)
                | err e ↦ (ok (err e), r.1)
                | panic ↦ (panic, r.1)
              ])
              P
      go (ok a, w') q = q
      go (err e, w') q = q
      go (panic, w') q = tt

  pub Ensures-deref :
      {A : Type 0} (o : Option A) (env : Env) (w : World) (P : A → World → Type 0)
      → ((a : A) → o ≡ some a → P a w)
      → Ensures (deref {E = E} o env w) P
  Ensures-deref none env w P h = tt
  Ensures-deref (some a) env w P h = h a refl

pub Ensures-raise_if :
    {E : Type 0} (c : Bool) (e : E) (env : Env) (w : World) (P : ⊤ → World → Type 0)
    → (c ≡ false → P tt w)
    → Ensures (raise_if c e env w) P
Ensures-raise_if true e env w P h = tt
Ensures-raise_if false e env w P h = h refl

-- The stores that a call has not touched.
pub query-untouched :
    {A : Type 0} (f : Moment → Db → Result Error A) (env : Env) (w : World)
    → (query f env w).1 ≡ tick w
unfolding query exec
query-untouched f env w = elim (Bool-cases (env.fault w.calls)) [
  | inl down ↦ rw down refl
  | inr up ↦ rw up refl
]

pub exec-tokens :
    {A : Type 0} (f : Moment → Db → Result Error A × Db) (env : Env) (w : World)
    → (exec f env w).1.tokens ≡ w.tokens
unfolding exec
exec-tokens f env w = elim (Bool-cases (env.fault w.calls)) [
  | inl down ↦ rw down refl
  | inr up ↦ rw up refl
]

pub Ensures-intro :
    {E A : Type 0} (r : Result E A × World) (P : A → World → Type 0)
    → ((a : A) → r.0 ≡ ok a → P a r.1)
    → Ensures r P
Ensures-intro (ok a, w) P h = h a refl
Ensures-intro (err _, w) P h = tt
Ensures-intro (panic, w) P h = tt

-- What each part of a chain leaves alone, the chain leaves alone, however it ends.
module _ {X : Type 0} (view : World → X) where
  pub bind-unchanged :
      {E A B : Type 0} (m : Action E A) (f : A → Action E B) (env : Env) (w : World)
      → view (m env w).1 ≡ view w
      → ((a : A) (w' : World) → view (f a env w').1 ≡ view w')
      → view ((m >>= f) env w).1 ≡ view w
  unfolding ◌>>=◌
  bind-unchanged {E} {A} {B} m f env w h k = go (m env w) h
    where
      go : (r : Result E A × World) → view r.1 ≡ view w → view (resume f env r).1 ≡ view w
      go (ok a, w') q = k a w' ∙ q
      go (err e, w') q = q
      go (panic, w') q = q

  pub attempt-unchanged :
      (F : Type 0) {E A : Type 0} (m : Action E A) (env : Env) (w : World)
      → view (m env w).1 ≡ view w
      → view (attempt {F = F} m env w).1 ≡ view w
  attempt-unchanged F {E} {A} m env w h = go (m env w) h
    where
      go :
          (r : Result E A × World)
          → view r.1 ≡ view w
          → let c : Result F (Result E A) × World = elim r.0 [
            | ok a ↦ (ok (ok a), r.1)
            | err e ↦ (ok (err e), r.1)
            | panic ↦ (panic, r.1)
          ] in
            view c.1 ≡ view w
      go (ok a, w') q = q
      go (err e, w') q = q
      go (panic, w') q = q

pub Ensures-CommitsOrFails :
    {A : Type 0} (before : Db) (r : Result Error A × World) (P : A → Db → Type 0)
    → CommitsOrFails before r P
    → Ensures r (λ a w. P a w.db)
Ensures-CommitsOrFails before (ok a, w) P (inl (inl (e, x), d)) = cc
Ensures-CommitsOrFails before (ok a, w) P (inl (inr x, d)) = cc
Ensures-CommitsOrFails before (ok a, w) P (inr (b, x, p)) = subst (λ c. P c w.db) (cc) p
Ensures-CommitsOrFails before (err e, w) P h = tt
Ensures-CommitsOrFails before (panic, w) P h = tt

-- What holds of every value that is returned holds of this one.
pub Ensures-elim :
    {E A : Type 0} (r : Result E A × World) (P : A → World → Type 0) (a : A)
    → Ensures r P
    → r.0 ≡ ok a
    → P a r.1
Ensures-elim (ok b, w) P a h e = subst (λ x. P x w) (cc) h
Ensures-elim (err x, w) P a h e = cc
Ensures-elim (panic, w) P a h e = cc

pub Ensures-or_error :
    {E F A : Type 0} (m : Action E A) (e : F) (env : Env) (w : World) (P : A → World → Type 0)
    → Ensures (m env w) P
    → Ensures (or_error m e env w) P
Ensures-or_error {E} {F} {A} m e env w P h = go (m env w) h
  where
    go : (r : Result E A × World) → Ensures r P → Ensures (replaced e r.0, r.1) P
    go (ok a, w') q = q
    go (err x, w') q = tt
    go (panic, w') q = tt

pub Ensures-call :
    {A : Type 0} (f : Moment → World → Result Error A × World) (env : Env) (w : World)
    (P : A → World → Type 0)
    → Ensures (f (env.moment w.calls) (tick w)) P
    → Ensures (call f env w) P
unfolding call
Ensures-call f env w P h = elim (Bool-cases (env.fault w.calls)) [
  | inl down ↦ rw down tt
  | inr up ↦ rw up h
]

pub Ensures-require_rows :
    (n : ℕ) (env : Env) (w : World) (P : ⊤ → World → Type 0)
    → P tt w
    → Ensures (require_rows n env w) P
Ensures-require_rows ℕ.zero env w P p = tt
Ensures-require_rows (suc n) env w P p = p

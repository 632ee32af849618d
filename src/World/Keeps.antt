-- ===== src/World/Keeps.antt =====
-- Properties of the database that calls keep, however they end.
use high_concurrency_ticketi.Prelude.{
  Bool-cases, suc, ℕ, ◌≡◌, refl, Bool, Option, none, some, ◌∷◌, inl, inr,
}
use high_concurrency_ticketi.Schema.{Db}
use high_concurrency_ticketi.Outside.{send, publish, with_code}
use high_concurrency_ticketi.World.{
  call, deref, Mail, FinalizePayload, World, Moment, Env, Action, Error, Result, ok, err, panic,
  ◌>>=◌, resume, or_raise, raise_if, exec, query, require_rows, tick, ignore, attempt,
}
use high_concurrency_ticketi.World.Ensures.{Ensures, exec-keeps}
use high_concurrency_ticketi.World.Services.{query-untouched}

module _ (Inv : Db → Type 0) where
  -- The call keeps the property.
  abbrev pub Keeps : {E A : Type 0} → Action E A → Type 0
  Keeps m = (env : Env) (w : World) → Inv w.db → Inv (m env w).1.db

  module _ {E A B : Type 0} (m : Action E A) (f : A → Action E B) where
    -- What follows may use what the call ensures.
    pub bind-keeps :
        (env : Env) (w : World) (Q : A → World → Type 0)
        → Inv (m env w).1.db
        → Ensures (m env w) Q
        → ((a : A) (w' : World) → Q a w' → Inv w'.db → Inv (f a env w').1.db)
        → Inv ((m >>= f) env w).1.db
    unfolding ◌>>=◌
    bind-keeps env w Q i q h = go (m env w) i q
      where
        go : (r : Result E A × World) → Inv r.1.db → Ensures r Q → Inv (resume f env r).1.db
        go (ok a, w') j p = h a w' p j
        go (err e, w') j p = j
        go (panic, w') j p = j

    pub bind-kept :
        (env : Env) (w : World)
        → Inv (m env w).1.db
        → ((a : A) (w' : World) → Inv w'.db → Inv (f a env w').1.db)
        → Inv ((m >>= f) env w).1.db
    unfolding ◌>>=◌
    bind-kept env w i h = go (m env w) i
      where
        go : (r : Result E A × World) → Inv r.1.db → Inv (resume f env r).1.db
        go (ok a, w') j = h a w' j
        go (err e, w') j = j
        go (panic, w') j = j

    pub bind-Keeps : Keeps m → ((a : A) → Keeps (f a)) → Keeps (m >>= f)
    bind-Keeps k h env w i = bind-kept env w (k env w i) (λ a w' j. h a env w' j)

  pub query-Keeps : {A : Type 0} (f : Moment → Db → Result Error A) → Keeps (query f)
  query-Keeps f env w i = rw (query-untouched f env w) i

  pub exec-Keeps :
      {A : Type 0} (f : Moment → Db → Result Error A × Db)
      → ((m : Moment) (db : Db) → Inv db → Inv (f m db).1)
      → Keeps (exec f)
  exec-Keeps f h env w i = exec-keeps Inv f env w i (h (env.moment w.calls) w.db i)

  pub or_raise-Keeps : {E A : Type 0} (o : Option A) (e : E) → Keeps (or_raise o e)
  or_raise-Keeps none e env w i = i
  or_raise-Keeps (some a) e env w i = i

  pub raise_if-Keeps : {E : Type 0} (c : Bool) (e : E) → Keeps (raise_if c e)
  raise_if-Keeps c e env w i = i

  pub require_rows-Keeps : (n : ℕ) → Keeps (require_rows n)
  require_rows-Keeps ℕ.zero env w i = i
  require_rows-Keeps (suc n) env w i = i

  pub ignore-Keeps :
      (E : Type 0) {F A : Type 0} (m : Action F A) → Keeps m → Keeps (ignore {E = F} {F = E} m)
  ignore-Keeps E m k env w i = k env w i

  pub attempt-Keeps :
      (F : Type 0) {E A : Type 0} (m : Action E A) → Keeps m → Keeps (attempt {F = F} m)
  attempt-Keeps F {E} {A} m k env w i = go (m env w) (k env w i)
    where
      go :
          (r : Result E A × World)
          → Inv r.1.db
          → let c : Result F (Result E A) × World = elim r.0 [
            | ok a ↦ (ok (ok a), r.1)
            | err e ↦ (ok (err e), r.1)
            | panic ↦ (panic, r.1)
          ] in
            Inv c.1.db
      go (ok a, w') j = j
      go (err e, w') j = j
      go (panic, w') j = j

  pub deref-Keeps : (E : Type 0) {A : Type 0} (o : Option A) → Keeps (deref {E = E} o)
  deref-Keeps E none env w i = i
  deref-Keeps E (some a) env w i = i

  -- A call of another service.
  pub call-Keeps :
      {A : Type 0} (f : Moment → World → Result Error A × World)
      → ((m : Moment) (w : World) → (f m w).1.db ≡ w.db)
      → Keeps (call f)
  unfolding call
  call-Keeps f same env w i = elim (Bool-cases (env.fault w.calls)) [
    | inl down ↦ rw down i
    | inr up ↦ rw (up, same (env.moment w.calls) (tick w)) i
  ]

  pub send-Keeps : (mail : Mail) → Keeps (send mail)
  unfolding send
  send-Keeps mail = call-Keeps (λ m w. (ok tt, record w { outbox = mail ∷ w.outbox })) (λ m w. refl)

  pub publish-Keeps : (p : FinalizePayload) → Keeps (publish p)
  unfolding publish
  publish-Keeps p = call-Keeps (λ m w. (ok tt, record w { topic = p ∷ w.topic })) (λ m w. refl)

  pub with_code-Keeps :
      {A : Type 0} (code : ℕ) (m : Action Error A) → Keeps m → Keeps (with_code code m)
  with_code-Keeps code m k env w i = k env w i

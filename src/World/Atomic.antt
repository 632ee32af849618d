-- ===== src/World/Atomic.antt =====
-- Transactions: internal/store/db.go.
use high_concurrency_ticketi.Prelude.{◌≡◌, refl, ◌⊎◌, inl, inr, Bool-cases}
use high_concurrency_ticketi.Schema.{Db}
use high_concurrency_ticketi.World.{
  World, Env, Action, Error, Result, ok, err, panic, tick, end_tx, with_tx,
}

-- How a call ended: with an error or a panic, or with a value.
abbrev pub IsFailure : {E A : Type 0} → Result E A → Type 0
IsFailure {E} {A} r = ((e : E) × (r ≡ err e)) ⊎ (r ≡ panic)

-- What a transaction that began at `before` and whose body ended at `inner` has done.
abbrev pub AllOrNothing :
    {A : Type 0} → Db → Result Error A × World → Result Error A × World → Type 0
AllOrNothing {A} before inner outer =
    (IsFailure outer.0 × (outer.1.db ≡ before))
    ⊎ ((a : A) × (inner.0 ≡ ok a) × (outer.0 ≡ ok a) × (outer.1.db ≡ inner.1.db))

end_tx_atomic :
    {A : Type 0} (env : Env) (before : Db) (inner : Result Error A × World)
    → AllOrNothing before inner (end_tx env before inner)
unfolding end_tx
end_tx_atomic env before (ok a, w) = elim (Bool-cases (env.fault w.calls)) [
  | inl down ↦ rw down (inl (inl (_, refl), refl))
  | inr up ↦ rw up (inr (a, refl, refl, refl))
]
end_tx_atomic env before (err e, w) = inl (inl (e, refl), refl)
end_tx_atomic env before (panic, w) = inl (inr refl, refl)

-- Whatever the body does and whichever calls fail, a transaction either fails and leaves the
-- database as it was when it began, or returns what its body returned with all of its writes.
pub with_tx_atomic :
    {A : Type 0} (body : Action Error A) (env : Env) (w : World)
    → AllOrNothing w.db (body env (tick w)) (with_tx body env w)
unfolding with_tx
with_tx_atomic body env w = elim (Bool-cases (env.fault w.calls)) [
  | inl down ↦ rw down (inl (inl (_, refl), refl))
  | inr up ↦ rw up (end_tx_atomic env w.db (body env (tick w)))
]

-- ===== src/Reconcile/Overfill.antt =====
-- What the job does to a row whose tokens it cannot read.
use high_concurrency_ticketi.Prelude.{
  sym, ℤ, leb_ℤ, +ℤ_parts, ◌+ℤ◌, ltb_ℤ, suc, pos, ◌-ℤ◌, ◌≤ℤ◌, true, false, ◌≡◌, refl, ⊤, arith,
}
use high_concurrency_ticketi.Schema.{Text, EventCapacity}
use high_concurrency_ticketi.World.{World, Env, Error, ok, ignore, tick}
use high_concurrency_ticketi.World.Ensures.{IsUp}
use high_concurrency_ticketi.World.Returns.{Returns-attempt, Returns, Returns-bind, Returns-weaken}
use high_concurrency_ticketi.Tokens.{remaining, release, reserve, reserve_lua}
use high_concurrency_ticketi.Reconcile.{count_or_zero, attempt, correct, fix_row, desired}
use high_concurrency_ticketi.Reconcile.Restored.{sub-zero, release_some, tokens_of}

reserve_enough :
    (id : Text) (n : ℤ) (env : Env) (w : World)
    → IsUp env
    → leb_ℤ n (tokens_of id w) ≡ true
    → (reserve id n env w).0 ≡ ok true
unfolding reserve reserve_lua
reserve_enough id n env w up fits = rw (up w.calls, fits) refl

-- When the read of the tokens of a row fails and the job can then write, it takes them to be 0 and adds
-- everything that the row wants to the tokens that are there. If there was one, and the row wants
-- some, more tickets can then be reserved than its capacity less what is reserved.
pub fix_row_overfills :
    (r : EventCapacity) (env env' : Env) (w : World)
    → env.fault w.calls ≡ true
    → env.fault (suc w.calls) ≡ false
    → IsUp env'
    → pos 1 ≤ℤ desired r
    → pos 1 ≤ℤ tokens_of r.event_id w
    → Returns (fix_row r env w) (λ _ w'.
      (tokens_of r.event_id w' ≡ tokens_of r.event_id w +ℤ desired r)
      × ((reserve r.event_id (desired r +ℤ pos 1) env' w').0 ≡ ok true))
unfolding fix_row correct remaining
fix_row_overfills r env env' w down up up' wanted some_left =
    Returns-bind (attempt {F = Error} (remaining r.event_id))
      (λ left. correct r.event_id (desired r -ℤ count_or_zero left)) env w
      (λ left w'. (count_or_zero left ≡ pos 0) × (w' ≡ tick w)) Overfilled
      (Returns-attempt Error (remaining r.event_id) env w _ (rw down (cc)) (rw down (refl, refl)))
      λ left w1 (zero_left, same).
        rw (zero_left, same, sym (sub-zero (desired r)), positive)
          (Returns-weaken env (tick w) Overfilled
            (ignore {E = Error} {F = Error} (release r.event_id (desired r)) env (tick w)) _
            (release_some r.event_id (desired r) env (tick w) up)
            (λ _ w2 set. (set.1, reserves w2 set.1)))
  where
    Overfilled : ⊤ → World → Type 0
    Overfilled _ w' =
        (tokens_of r.event_id w' ≡ tokens_of r.event_id w +ℤ desired r)
        × ((reserve r.event_id (desired r +ℤ pos 1) env' w').0 ≡ ok true)

    positive : ltb_ℤ (pos 0) (desired r) ≡ true
    positive = ground (arith, wanted)

    enough : (v : ℤ) → v ≡ tokens_of r.event_id w +ℤ desired r → leb_ℤ (desired r +ℤ pos 1) v ≡ true
    enough v e =
        let more : desired r +ℤ pos 1 ≤ℤ tokens_of r.event_id w +ℤ desired r = omega (
          arith,
          some_left,
          +ℤ_parts (desired r) (pos 1),
          +ℤ_parts (tokens_of r.event_id w) (desired r),
        ) in
        rw e (ground (arith, more))

    reserves :
        (w2 : World)
        → tokens_of r.event_id w2 ≡ tokens_of r.event_id w +ℤ desired r
        → (reserve r.event_id (desired r +ℤ pos 1) env' w2).0 ≡ ok true
    reserves w2 e = reserve_enough r.event_id (desired r +ℤ pos 1) env' w2 up' (enough _ e)

-- ===== src/Reconcile/Restored.antt =====
-- After the job the tokens of every event are what Postgres says.
use high_concurrency_ticketi.Prelude.{
  ℕ, zero, suc, ℤ, pos, negsuc, pos_part, neg_part, ◌+ℤ◌, ◌-ℤ◌, ◌≤ℤ◌, +ℤ_parts, -ℤ_parts,
  eq_of_parts, leb_ℤ, ltb_ℤ, true, false, Bool-cases, inl, inr, ◌≡◌, refl, ◌∙◌, ap, subst, List, [],
  ◌∷◌, ⊤, ◌==◌, ==_refl, All, arith,
}
use high_concurrency_ticketi.Schema.{Text, EventCapacity}
use high_concurrency_ticketi.World.{World, Env, Error, Result, ok, ignore, attempt, tick}
use high_concurrency_ticketi.World.Ensures.{IsUp}
use high_concurrency_ticketi.World.Returns.{Returns, Returns-bind, Returns-weaken, Returns-attempt}
use high_concurrency_ticketi.Tokens.{remaining, release, reserve, reserve_lua, value_or_zero, put}
use high_concurrency_ticketi.EventsService.{count_or_zero}
use high_concurrency_ticketi.Reconcile.{reserve_each, desired, correct, fix_row, fix_rows}

-- The tokens of an event, with a missing key as 0.
abbrev pub tokens_of : Text → World → ℤ
tokens_of id w = value_or_zero (w.tokens id)

-- Only the tokens of one event changed, to a number.
abbrev pub SetTokens : Text → ℤ → World → World → Type 0
SetTokens id n w w' =
    (w'.db ≡ w.db)
    × (tokens_of id w' ≡ n)
    × ((e : Text) → (id == e) ≡ false → w'.tokens e ≡ w.tokens e)

pub sub-zero : (v : ℤ) → v ≡ v -ℤ pos 0
sub-zero v = eq_of_parts v (v -ℤ pos 0) (omega (arith, -ℤ_parts v (pos 0)))

sub-sub : (v : ℤ) (n : ℕ) → (v -ℤ pos 1) -ℤ pos n ≡ v -ℤ pos (suc n)
sub-sub v n =
    eq_of_parts ((v -ℤ pos 1) -ℤ pos n) (v -ℤ pos (suc n))
      (omega (arith, -ℤ_parts v (pos 1), -ℤ_parts (v -ℤ pos 1) (pos n), -ℤ_parts v (pos (suc n))))

fewer_left : (v : ℤ) (n : ℕ) → pos (suc n) ≤ℤ v → pos n ≤ℤ v -ℤ pos 1
fewer_left v n h = omega (arith, -ℤ_parts v (pos 1), h)

-- What is short is added.
add-short : (v d : ℤ) → v +ℤ (d -ℤ v) ≡ d
add-short v d = eq_of_parts (v +ℤ (d -ℤ v)) d (omega (arith, -ℤ_parts d v, +ℤ_parts v (d -ℤ v)))

pos_part-zero : (x : ℤ) → ltb_ℤ (pos 0) x ≡ false → pos_part x ≡ 0
pos_part-zero (pos n) h = ground arith
pos_part-zero (negsuc n) h = refl

-- What is too much can be taken, and leaves what is wanted.
take-excess :
    (v d : ℤ)
    → pos 0 ≤ℤ d
    → ltb_ℤ (pos 0) (d -ℤ v) ≡ false
    → (pos (neg_part (d -ℤ v)) ≤ℤ v) × (v -ℤ pos (neg_part (d -ℤ v)) ≡ d)
take-excess v d positive not_short =
    let x = d -ℤ v in
    let none_short = pos_part-zero x not_short in
    let diff = -ℤ_parts d v in
    (
      omega (arith, diff, none_short, positive),
      eq_of_parts (v -ℤ pos (neg_part x)) d
          (omega (arith, diff, none_short, -ℤ_parts v (pos (neg_part x)))),
    )

put-SetTokens :
    (id : Text) (n : ℤ) (w : World)
    → SetTokens id n w (record (tick w) { tokens = put w.tokens id n })
put-SetTokens id n w = (refl, rw (==_refl id) refl, λ e ne. rw ne refl)

pub release_some :
    (id : Text) (n : ℤ) (env : Env) (w : World)
    → env.fault w.calls ≡ false
    → Returns {E = Error}
        (ignore {E = Error} {F = Error} (release id n) env w)
        (λ _ w'. SetTokens id (tokens_of id w +ℤ n) w w')
unfolding release
release_some id n env w up = rw (up, Returns) (put-SetTokens id (tokens_of id w +ℤ n) w)

module _ (env : Env) (up : IsUp env) where
  reserve_one :
      (id : Text) (w : World)
      → leb_ℤ (pos 1) (tokens_of id w) ≡ true
      → Returns {E = Error}
          (ignore {E = Error} {F = Error} (reserve id (pos 1)) env w)
          (λ _ w'. SetTokens id (tokens_of id w -ℤ pos 1) w w')
  unfolding reserve reserve_lua
  reserve_one id w enough =
      rw (up w.calls, enough, Returns) (put-SetTokens id (tokens_of id w -ℤ pos 1) w)

  reserve_each-Returns :
      (id : Text) (n : ℕ) (w : World)
      → pos n ≤ℤ tokens_of id w
      → Returns (reserve_each id n env w) (λ _ w'. SetTokens id (tokens_of id w -ℤ pos n) w w')
  unfolding reserve_each
  reserve_each-Returns id zero w enough = (refl, sub-zero (tokens_of id w), λ e ne. refl)
  reserve_each-Returns id (suc n) w enough =
      Returns-bind (ignore {E = Error} {F = Error} (reserve id (pos 1))) (λ _. reserve_each id n)
        env w (λ _ w'. SetTokens id (tokens_of id w -ℤ pos 1) w w')
        (λ _ w'. SetTokens id (tokens_of id w -ℤ pos (suc n)) w w')
        (reserve_one id w (ground arith))
        λ _ w1 (db1, own1, others1).
          Returns-weaken env w1 (λ _ w'. SetTokens id (tokens_of id w -ℤ pos (suc n)) w w')
            (reserve_each id n env w1) (λ _ w'. SetTokens id (tokens_of id w1 -ℤ pos n) w1 w')
            (reserve_each-Returns id n w1 (rw own1 (fewer_left (tokens_of id w) n enough)))
            λ _ w2 (db2, own2, others2). (
              db2 ∙ db1,
              own2 ∙ rw own1 (sub-sub (tokens_of id w) n),
              λ e ne. others2 e ne ∙ others1 e ne,
            )

  correct-Returns :
      (id : Text) (d : ℤ) (w : World)
      → pos 0 ≤ℤ d
      → Returns (correct id (d -ℤ tokens_of id w) env w) (λ _ w'. SetTokens id d w w')
  unfolding correct
  correct-Returns id d w positive =
      let v = tokens_of id w in
      elim (Bool-cases (ltb_ℤ (pos 0) (d -ℤ v))) [
        | inl short ↦ rw short (
            subst
              (λ n.
                Returns {E = Error} (ignore {E = Error} {F = Error} (release id (d -ℤ v)) env w)
                  (λ _ w'. SetTokens id n w w'))
              (add-short v d) (release_some id (d -ℤ v) env w (up w.calls)))
        | inr enough ↦
            let excess = take-excess v d positive enough in
            rw enough (
              subst
                (λ n.
                  Returns (reserve_each id (neg_part (d -ℤ v)) env w) (λ _ w'. SetTokens id n w w'))
                excess.1 (reserve_each-Returns id (neg_part (d -ℤ v)) w excess.0))
      ]

  remaining_lem : (id : Text) (w : World) → remaining id env w ≡ (ok (tokens_of id w), tick w)
  unfolding remaining
  remaining_lem id w = rw (up w.calls) refl

  fix_row-Returns :
      (r : EventCapacity) (w : World)
      → pos 0 ≤ℤ desired r
      → Returns (fix_row r env w) (λ _ w'. SetTokens r.event_id (desired r) w w')
  unfolding fix_row
  fix_row-Returns r w positive =
      Returns-bind (attempt {F = Error} (remaining r.event_id))
        (λ left. correct r.event_id (desired r -ℤ count_or_zero left)) env w Read
        (λ _ w'. SetTokens r.event_id (desired r) w w')
        (Returns-attempt Error (remaining r.event_id) env w Read
          (rw (remaining_lem r.event_id w) (cc)) (rw (remaining_lem r.event_id w) (refl, refl)))
        λ left w1 (is_left, same).
          rw (is_left, same) (correct-Returns r.event_id (desired r) (tick w) positive)
    where
      Read : Result Error ℤ → World → Type 0
      Read left w' = (left ≡ ok (tokens_of r.event_id w)) × (w' ≡ tick w)

-- The rows have different events.
abbrev pub Apart : List EventCapacity → Type 0
Apart [] = ⊤
Apart (r ∷ rs) = All (λ s. (s.event_id == r.event_id) ≡ false) rs × Apart rs

-- No row promises more than it has.
abbrev pub IsCovered : EventCapacity → Type 0
IsCovered r = pos 0 ≤ℤ desired r

-- Postgres and Redis agree.
abbrev pub IsRestored : World → EventCapacity → Type 0
IsRestored w r = tokens_of r.event_id w ≡ desired r

abbrev pub Fixed : List EventCapacity → World → World → Type 0
Fixed rows w w' =
    (w'.db ≡ w.db)
    × All (IsRestored w') rows
    × ((e : Text) → All (λ s. (s.event_id == e) ≡ false) rows → w'.tokens e ≡ w.tokens e)

module _ (env : Env) (up : IsUp env) where
  pub fix_rows-Returns :
      (rows : List EventCapacity) (w : World)
      → Apart rows
      → All IsCovered rows
      → Returns (fix_rows rows env w) (λ _ w'. Fixed rows w w')
  unfolding fix_rows
  fix_rows-Returns [] w apart covered = (refl, tt, λ e none. refl)
  fix_rows-Returns (r ∷ rest) w (alone, apart) (enough, covered) =
      Returns-bind (fix_row r) (λ _. fix_rows rest) env w
        (λ _ w'. SetTokens r.event_id (desired r) w w') (λ _ w'. Fixed (r ∷ rest) w w')
        (fix_row-Returns env up r w enough)
        λ _ w1 (db1, own1, others1).
          Returns-weaken env w1 (λ _ w'. Fixed (r ∷ rest) w w') (fix_rows rest env w1)
            (λ _ w'. Fixed rest w1 w') (fix_rows-Returns rest w1 apart covered)
            λ _ w2 (db2, fixed, others2). (
              db2 ∙ db1,
              (ap value_or_zero (others2 r.event_id alone) ∙ own1, fixed),
              λ e (ne, nes). others2 e nes ∙ others1 e ne,
            )

-- ===== src/Reconcile/Job.antt =====
-- The whole job: the rows that it adds, and the state that it leaves.
use high_concurrency_ticketi.Prelude.{
  pos, ◌-ℤ◌, ◌≤ℤ◌, Bool, false, Bool-cases, inl, inr, ◌≡◌, refl, ◌∙◌, List, [], ◌∷◌, ◌++◌, ⊤, All,
  arith,
}
use high_concurrency_ticketi.Schema.{Db, Event, EventCapacity}
use high_concurrency_ticketi.Sql.{select_where, count_where}
use high_concurrency_ticketi.Sql.Laws.{count_where-append}
use high_concurrency_ticketi.World.{
  World, Env, Moment, Error, Result, ok, ignore, exec, query, tick,
}
use high_concurrency_ticketi.World.Ensures.{IsUp}
use high_concurrency_ticketi.World.Returns.{Returns, Returns-bind, Returns-weaken, Returns-query}
use high_concurrency_ticketi.Reconcile.{
  is_of_event, has_no_row, capacity_row, insert_capacity, insert_missing, fix_rows, reconcile,
}
use high_concurrency_ticketi.Reconcile.Restored.{
  Apart, IsCovered, IsRestored, Fixed, fix_rows-Returns,
}

All-append {ℓ} :
    {A : Type 0} (P : A → Type ℓ) (xs : List A) (y : A) → All P xs → P y → All P (xs ++ (y ∷ []))
All-append P [] y a p = (p, tt)
All-append P (x ∷ xs) y (q, a) p = (q, All-append P xs y a p)

Apart-append :
    (rs : List EventCapacity) (r : EventCapacity)
    → Apart rs
    → count_where (is_of_event r.event_id) rs ≡ 0
    → Apart (rs ++ (r ∷ []))
Apart-append [] r apart none = (tt, tt)
Apart-append (s ∷ rs) r (alone, apart) none =
    (All-append _ rs r alone (ground (arith, none)), Apart-append rs r apart (ground (arith, none)))

-- The event does not promise more than it has.
abbrev pub IsSound : Event → Type 0
IsSound e = pos 0 ≤ℤ e.capacity -ℤ e.reserved

abbrev Inserted : List Event → World → World → Type 0
Inserted es w w' =
    (w'.tokens ≡ w.tokens)
    × (w'.db.events ≡ w.db.events)
    × Apart w'.db.capacities
    × All IsCovered w'.db.capacities
    × All (λ e. has_no_row w'.db e ≡ false) es
    × ((e : Event) → has_no_row w.db e ≡ false → has_no_row w'.db e ≡ false)

module _ (env : Env) (up : IsUp env) where
  insert_one :
      (e : Event) (w : World)
      → Apart w.db.capacities
      → All IsCovered w.db.capacities
      → IsSound e
      → Returns {E = Error}
          (ignore {E = Error} {F = Error} (exec (insert_capacity e)) env w)
          (λ _ w'. Inserted (e ∷ []) w w')
  unfolding exec insert_capacity
  insert_one e w apart covered sound = elim (Bool-cases (has_no_row w.db e)) [
    | inr known ↦
        rw (up w.calls, known, Returns) (refl, refl, apart, covered, (known, tt), λ f h. h)
    | inl new ↦
        let row = capacity_row (env.moment w.calls) e in
        rw (up w.calls, new, Returns)
          (
            refl,
            refl,
            Apart-append w.db.capacities row apart (ground (arith, new)),
            All-append IsCovered w.db.capacities row covered sound,
            (ground (arith, count_where-append (is_of_event e.id) w.db.capacities (row ∷ [])), tt),
            λ f h.
                ground (arith, h, count_where-append (is_of_event f.id) w.db.capacities (row ∷ [])),
          )
  ]

  insert_missing-Returns :
      (es : List Event) (w : World)
      → Apart w.db.capacities
      → All IsCovered w.db.capacities
      → All IsSound es
      → Returns (insert_missing es env w) (λ _ w'. Inserted es w w')
  unfolding insert_missing
  insert_missing-Returns [] w apart covered sounds = (refl, refl, apart, covered, tt, λ e h. h)
  insert_missing-Returns (e ∷ es) w apart covered (sound, sounds) =
      Returns-bind (ignore {E = Error} {F = Error} (exec (insert_capacity e)))
        (λ _. insert_missing es) env w (λ _ w'. Inserted (e ∷ []) w w')
        (λ _ w'. Inserted (e ∷ es) w w') (insert_one e w apart covered sound)
        λ _ w1 (t1, v1, apart1, covered1, (has, _), grows1).
          Returns-weaken env w1 (λ _ w'. Inserted (e ∷ es) w w') (insert_missing es env w1)
            (λ _ w'. Inserted es w1 w') (insert_missing-Returns es w1 apart1 covered1 sounds)
            λ _ w2 (t2, v2, apart2, covered2, have, grows2). (
              t2 ∙ t1,
              v2 ∙ v1,
              apart2,
              covered2,
              (grows2 e has, have),
              λ f h. grows2 f (grows1 f h),
            )

All-select {ℓ} :
    {A : Type 0} (P : A → Type ℓ) (p : A → Bool) (xs : List A)
    → All P xs
    → All P (select_where p xs)
All-select P p [] a = tt
All-select P p (x ∷ xs) (q, a) = elim (Bool-cases (p x)) [
  | inl yes' ↦ rw yes' (q, All-select P p xs a)
  | inr no' ↦ rw no' (All-select P p xs a)
]

-- What holds of the selected elements and of the others holds of all.
All-split :
    {A : Type 0} (Q : A → Type 0) (p : A → Bool) (xs : List A)
    → All Q (select_where p xs)
    → ((x : A) → p x ≡ false → Q x)
    → All Q xs
All-split Q p [] a h = tt
All-split Q p (x ∷ xs) a h = elim (Bool-cases (p x)) [
  | inl on ↦ let (q, rest) = rw on at a in (q, All-split Q p xs rest h)
  | inr off ↦ (h x off, All-split Q p xs (rw off at a) h)
]

-- What the job leaves: every event has a row, and the tokens of every row are its capacity less what
-- is reserved.
abbrev pub Reconciled : World → Type 0
Reconciled w = All (λ e. has_no_row w.db e ≡ false) w.db.events × All (IsRestored w) w.db.capacities

-- With every service up the job ends, and then every event has its row of counters and as many
-- tokens in Redis as the capacity in the row less the number reserved in it, whatever tokens there
-- were before; the events are left alone. The rows must have different events, and neither a row nor
-- an event may have more reserved than its capacity.
pub reconcile-Reconciled :
    (env : Env) (w : World)
    → IsUp env
    → Apart w.db.capacities
    → All IsCovered w.db.capacities
    → All IsSound w.db.events
    → Returns (reconcile env w) (λ _ w'. Reconciled w' × (w'.db.events ≡ w.db.events))
unfolding reconcile
reconcile-Reconciled env w up apart covered sounds =
    Returns-bind (query select_missing) _ env w (λ es w1. (es ≡ missing) × (w1 ≡ tick w)) Done
      (Returns-query env up w _ select_missing missing refl (refl, refl))
      λ es w1 (is_missing, same).
        Returns-bind (insert_missing es) _ env w1 (λ _ w2. Inserted missing w w2) Done
          (rw (is_missing, same)
            (insert_missing-Returns env up missing (tick w) apart covered
              (All-select IsSound (has_no_row w.db) w.db.events sounds)))
          λ _ w2 (t2, v2, apart2, covered2, have, grows).
            Returns-bind (query select_rows) _ env w2
              (λ rows w3. (rows ≡ w2.db.capacities) × (w3 ≡ tick w2)) Done
              (Returns-query env up w2 _ select_rows w2.db.capacities refl (refl, refl))
              λ rows w3 (are_rows, same3).
                rw (are_rows, same3)
                  (Returns-weaken env (tick w2) Done (fix_rows w2.db.capacities env (tick w2))
                    (λ _ w4. Fixed w2.db.capacities (tick w2) w4)
                    (fix_rows-Returns env up w2.db.capacities (tick w2) apart2 covered2)
                    λ _ w4 (db4, fixed, others). (
                      rw db4 (
                        rw v2 (
                            All-split (λ e. has_no_row w2.db e ≡ false) (has_no_row w.db)
                              w.db.events have grows),
                        fixed,
                      ),
                      rw db4 v2,
                    ))
  where
    select_missing : Moment → Db → Result Error (List Event)
    select_missing m db = ok (select_where (has_no_row db) db.events)

    select_rows : Moment → Db → Result Error (List EventCapacity)
    select_rows m db = ok db.capacities

    missing : List Event
    missing = select_where (has_no_row w.db) w.db.events

    Done : ⊤ → World → Type 0
    Done _ w' = Reconciled w' × (w'.db.events ≡ w.db.events)

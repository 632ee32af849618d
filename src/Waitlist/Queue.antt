-- ===== src/Waitlist/Queue.antt =====
-- The repository of the waitlist refines a first-in first-out queue for each event.
use high_concurrency_ticketi.Prelude.{
  ◌≤◌, All, ℕ, suc, ◌≡◌, refl, ◌∙◌, ◌⊎◌, inl, inr, Bool, true, false, ◌&&◌, Option, none, some,
  List, [], ◌∷◌, ◌++◌, arith, ◌==◌, negate, if◌then◌else◌, Bool-cases, ⊤,
}
use high_concurrency_ticketi.Schema.{Text, Db, WaitlistEntry}
use high_concurrency_ticketi.Sql.{max_where, first_row, count_where, delete_where}
use high_concurrency_ticketi.Sql.Laws.{All-map}
use high_concurrency_ticketi.World.{
  World, Env, Moment, Error, Result, ok, err, ◌>>=◌, require_rows, service_down, no_rows,
}
use high_concurrency_ticketi.World.Ensures.{CommitsOrFails, IsUp}
use high_concurrency_ticketi.Waitlist.{
  is_active, new_entry, next_position, next_result, head_of_line, add, next_active, opt_out, remove,
  is_of,
}
use high_concurrency_ticketi.Waitlist.Order.{
  line, line-append, line-max_where, line-delete_where, line-opt_out,
}

-- The user has joined the end of the event's line, with a position after all others, and no other
-- line has changed.
abbrev pub Joined : Text → Text → Db → ℕ → Db → Type 0
Joined event user before position after =
    (n : WaitlistEntry) × (n.user_id ≡ user)
    × (n.position ≡ position)
    × All (λ y. suc y.position ≤ position) (line event before.waitlist)
    × (line event after.waitlist ≡ line event before.waitlist ++ (n ∷ []))
    × ((e : Text)
        → line e after.waitlist
          ≡ (if event == e then line event after.waitlist else line e before.waitlist))

line_other :
    (e : Text) (n : WaitlistEntry) (rows : List WaitlistEntry)
    → is_active e n ≡ false
    → line e (rows ++ (n ∷ [])) ≡ line e rows
line_other e n [] h = ground arith
line_other e n (r ∷ rows) h = ground (arith, line_other e n rows h)

joined :
    (event user : Text) (m : Moment) (before : Db)
    → Joined event user before (next_position event before.waitlist) (record before {
      waitlist =
          before.waitlist ++ (new_entry m event user (next_position event before.waitlist) ∷ []);
    })
joined event user m before = (
  n,
  refl,
  refl,
  behind,
  line-append event n before.waitlist (ground arith) (omega arith),
  λ e. ground (arith, line_other e n before.waitlist),
)
  where
    n : WaitlistEntry
    n = new_entry m event user (next_position event before.waitlist)

    behind :
        All (λ y. suc y.position ≤ next_position event before.waitlist) (line event before.waitlist)
    behind =
        All-map (λ y. y.position ≤ max_where (is_active event) (λ r. r.position) before.waitlist)
          (λ y. suc y.position ≤ next_position event before.waitlist) (line event before.waitlist)
          (λ y h. omega arith) (line-max_where event _ before.waitlist (omega arith))

-- The foreign keys of an entry.
abbrev pub known_keys : Text → Text → Db → Bool
known_keys event user db =
    negate (count_where (λ r. r.id == event) db.events == 0)
    && negate (count_where (λ r. r.id == user) db.users == 0)

-- `Add` fails and changes nothing, or puts the user behind everybody who waits for the event, at the
-- position that it returns and that is greater than every position in that line, and
-- leaves the lines of other events alone.
pub add-outcome :
    (event user : Text) (env : Env) (w : World)
    → CommitsOrFails w.db (add event user env w) (Joined event user w.db)
unfolding add ◌>>=◌
add-outcome event user env w = elim (Bool-cases (env.fault w.calls)) [
  | inl down ↦ rw down (inl (inl (_, refl), refl))
  | inr up ↦ rw up (elim (Bool-cases (env.fault (suc w.calls))) [
    | inl down ↦ rw down (inl (inl (_, refl), refl))
    | inr up' ↦ rw up' (elim (Bool-cases (known_keys event user w.db)) [
      | inl known ↦ rw known (inr (_, refl, joined event user (env.moment (suc w.calls)) w.db))
      | inr unknown ↦ rw unknown (inl (inl (_, refl), refl))
    ])
  ])
]

-- What taking the entries with `p` out of the table has done to every line; `no_rows` is reported
-- where there were none.
abbrev pub Left : (WaitlistEntry → Bool) → Db → Result Error ⊤ × World → Type 0
Left p before (r, w) =
    ((r ≡ err service_down) × (w.db ≡ before))
    ⊎ ((r ≡ (if count_where p before.waitlist == 0 then err no_rows else ok tt))
        × ((e : Text) → line e w.db.waitlist ≡ delete_where p (line e before.waitlist)))

require_rows_result :
    (n : ℕ) (env : Env) (w : World)
    → require_rows n env w ≡ (if n == 0 then err no_rows else ok tt, w)
require_rows_result ℕ.zero env w = refl
require_rows_result (suc n) env w = ground arith

-- `OptOut` takes the user's entries for the event out of the line, and everybody else keeps their
-- place in every line.
pub opt_out-outcome :
    (event user : Text) (env : Env) (w : World)
    → Left (is_of event user) w.db (opt_out event user env w)
unfolding opt_out ◌>>=◌
opt_out-outcome event user env w = elim (Bool-cases (env.fault w.calls)) [
  | inl down ↦ rw down (inl (refl, refl))
  | inr up ↦ rw (up, require_rows_result) (inr (refl, λ e. line-opt_out event user e w.db.waitlist))
]

-- `Remove` takes the entry of the id out of its line, and everybody else keeps their place.
pub remove-outcome :
    (id : Text) (env : Env) (w : World) → Left (λ r. r.id == id) w.db (remove id env w)
unfolding remove ◌>>=◌
remove-outcome id env w = elim (Bool-cases (env.fault w.calls)) [
  | inl down ↦ rw down (inl (refl, refl))
  | inr up ↦
      rw (up, require_rows_result)
        (inr (refl, λ e. line-delete_where (λ r. r.id == id) e w.db.waitlist))
]

first_row-append :
    (xs : List WaitlistEntry) (n : WaitlistEntry)
    → first_row (xs ++ (n ∷ [])) ≡ elim (first_row xs) [ none ↦ some n | some h ↦ some h ]
first_row-append [] n = refl
first_row-append (x ∷ xs) n = refl

next_active-joined :
    (event user : Text) (env : Env) (w : World) (position : ℕ)
    → IsUp env
    → (add event user env w).0 ≡ ok position
    → let (r, w') = next_active event env (add event user env w).1 in
      (id : Text) × (r
        ≡ ok (elim (head_of_line event w.db.waitlist) [
          | none ↦ (id, user, position)
          | some h ↦ (h.id, h.user_id, h.position)
        ]))
unfolding next_active
next_active-joined event user env w position up e = go (add-outcome event user env w)
  where
    w' : World
    w' = (add event user env w).1

    served :
        (o : Option WaitlistEntry) (n : WaitlistEntry)
        → n.user_id ≡ user
        → n.position ≡ position
        → ◌≡◌ {A = Result Error (Text × Text × ℕ)}
            (ok (next_result (elim o [ none ↦ some n | some h ↦ some h ])))
            (ok (elim o [ none ↦ (n.id, user, position) | some h ↦ (h.id, h.user_id, h.position) ]))
    served none n who at = rw (who, at)
    served (some h) n who at = refl

    go :
        CommitsOrFails w.db (add event user env w) (Joined event user w.db)
        → (id : Text) × ((next_active event env w').0
            ≡ ok (elim (head_of_line event w.db.waitlist) [
              | none ↦ (id, user, position)
              | some h ↦ (h.id, h.user_id, h.position)
            ]))
    go (inl (inl (x, failed), _)) = cc
    go (inl (inr failed, _)) = cc
    go (inr (p, returned, j)) =
        let (n, who, at, _, longer, _) = j in
        let same : p ≡ position = cc in
        (
          n.id,
          rw (up w'.calls, longer, first_row-append (line event w.db.waitlist) n)
              (served (first_row (line event w.db.waitlist)) n who (at ∙ same)),
        )

add-Returns :
    (event user : Text) (env : Env) (w : World)
    → IsUp env
    → known_keys event user w.db ≡ true
    → (add event user env w).0 ≡ ok (next_position event w.db.waitlist)
unfolding add ◌>>=◌
add-Returns event user env w up known = rw (up w.calls, up (suc w.calls), known) refl

-- With every service up, a user and an event that exist, `Add` returns the position after everybody
-- who waits for the event, and `NextActive` then names whom it named before, if anybody waited, and
-- else the user who has just joined, with that position.
pub next_active-add :
    (event user : Text) (env : Env) (w : World)
    → IsUp env
    → known_keys event user w.db ≡ true
    → let (r, w') = add event user env w in
      let position = next_position event w.db.waitlist in
      (r ≡ ok position)
      × (id : Text) × ((next_active event env w').0
          ≡ ok (elim (head_of_line event w.db.waitlist) [
            | none ↦ (id, user, position)
            | some h ↦ (h.id, h.user_id, h.position)
          ]))
next_active-add event user env w up known =
    let returned = add-Returns event user env w up known in
    let (id, named) =
      next_active-joined event user env w (next_position event w.db.waitlist) up returned in
    (returned, id, named)

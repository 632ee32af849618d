-- ===== src/Waitlist/Order.antt =====
-- The order in which the waitlist serves: the longest waiting active entry first.
use high_concurrency_ticketi.Prelude.{
  ℕ, ◌≤◌, ◌≡◌, refl, inl, inr, Bool, true, List, [], ◌∷◌, ◌++◌, arith, leb, if◌then◌else◌,
  Bool-cases, All, ⊤,
}
use high_concurrency_ticketi.Schema.{Text, WaitlistEntry}
use high_concurrency_ticketi.Sql.{
  select_where, order_by, insert_by, max_where, delete_where, update_where,
}
use high_concurrency_ticketi.Waitlist.{is_active, by_position, is_of}

-- The abstract queue of an event: its active entries, by position.
abbrev pub line : Text → List WaitlistEntry → List WaitlistEntry
line event rows = order_by by_position (select_where (is_active event) rows)

abbrev Behind : WaitlistEntry → List WaitlistEntry → Type 0
Behind x ys = All (λ y. x.position ≤ y.position) ys

abbrev pub IsSorted : List WaitlistEntry → Type 0
IsSorted [] = ⊤
IsSorted (x ∷ xs) = Behind x xs × IsSorted xs

Behind-trans :
    (x y : WaitlistEntry) (zs : List WaitlistEntry)
    → x.position ≤ y.position
    → Behind y zs
    → Behind x zs
Behind-trans x y [] h b = tt
Behind-trans x y (z ∷ zs) h b = (omega arith, Behind-trans x y zs h b.1)

Behind-insert_by :
    (a x : WaitlistEntry) (ys : List WaitlistEntry)
    → a.position ≤ x.position
    → Behind a ys
    → Behind a (insert_by by_position x ys)
Behind-insert_by a x [] h b = (h, tt)
Behind-insert_by a x (y ∷ ys) h b = ground (arith, Behind-insert_by a x ys h b.1)

insert_by-IsSorted :
    (x : WaitlistEntry) (ys : List WaitlistEntry)
    → IsSorted ys
    → IsSorted (insert_by by_position x ys)
insert_by-IsSorted x [] s = (tt, tt)
insert_by-IsSorted x (y ∷ ys) s =
    ground (arith, insert_by-IsSorted x ys s.1, Behind-insert_by y x ys, Behind-trans x y ys)

order_by-IsSorted : (xs : List WaitlistEntry) → IsSorted (order_by by_position xs)
order_by-IsSorted [] = tt
order_by-IsSorted (x ∷ xs) = insert_by-IsSorted x _ (order_by-IsSorted xs)

-- A row with the last position goes to the end.
insert_by-append :
    (x n : WaitlistEntry) (ys : List WaitlistEntry)
    → x.position ≤ n.position
    → insert_by by_position x (ys ++ (n ∷ [])) ≡ insert_by by_position x ys ++ (n ∷ [])
insert_by-append x n [] h = ground arith
insert_by-append x n (y ∷ ys) h = ground (arith, insert_by-append x n ys h)

pub line-append :
    (event : Text) (n : WaitlistEntry) (rows : List WaitlistEntry)
    → is_active event n ≡ true
    → max_where (is_active event) (λ r. r.position) rows ≤ n.position
    → line event (rows ++ (n ∷ [])) ≡ line event rows ++ (n ∷ [])
line-append event n [] act h = ground arith
line-append event n (r ∷ rows) act h =
    ground (arith, line-append event n rows act, insert_by-append r n (line event rows))

Behind-delete_where :
    (p : WaitlistEntry → Bool) (x : WaitlistEntry) (ys : List WaitlistEntry)
    → Behind x ys
    → Behind x (delete_where p ys)
Behind-delete_where p x [] b = tt
Behind-delete_where p x (y ∷ ys) b = ground (arith, Behind-delete_where p x ys b.1)

-- A row with the first position goes to the front.
insert_by-front :
    (x : WaitlistEntry) (ys : List WaitlistEntry)
    → Behind x ys
    → insert_by by_position x ys ≡ x ∷ ys
insert_by-front x [] b = refl
insert_by-front x (y ∷ ys) b = ground arith

delete_insert_by :
    (p : WaitlistEntry → Bool) (x : WaitlistEntry) (ys : List WaitlistEntry)
    → IsSorted ys
    → delete_where p (insert_by by_position x ys)
      ≡ (if p x then delete_where p ys else insert_by by_position x (delete_where p ys))
delete_insert_by p x [] s = ground arith
delete_insert_by p x (y ∷ ys) s = elim (Bool-cases (leb x.position y.position)) [
  | inl first ↦ ground (
    arith,
    insert_by-front x (delete_where p ys)
        (Behind-delete_where p x ys (Behind-trans x y ys (ground arith) s.0)),
  )
  | inr later ↦ ground (arith, delete_insert_by p x ys s.1)
]

-- Deleting rows of the table deletes them from the line.
pub line-delete_where :
    (p : WaitlistEntry → Bool) (event : Text) (rows : List WaitlistEntry)
    → line event (delete_where p rows) ≡ delete_where p (line event rows)
line-delete_where p event [] = refl
line-delete_where p event (r ∷ rows) = ground (
  arith,
  line-delete_where p event rows,
  delete_insert_by p r (line event rows) (order_by-IsSorted (select_where (is_active event) rows)),
)

-- An active row that is opted out leaves its line.
pub line-opt_out :
    (event user e : Text) (rows : List WaitlistEntry)
    → line e (update_where (is_of event user) (λ r. record r { opted_out = true }) rows)
      ≡ delete_where (is_of event user) (line e rows)
line-opt_out event user e [] = refl
line-opt_out event user e (r ∷ rows) = ground (
  arith,
  line-opt_out event user e rows,
  delete_insert_by (is_of event user) r (line e rows)
      (order_by-IsSorted (select_where (is_active e) rows)),
)

All-insert_by :
    (p : ℕ) (x : WaitlistEntry) (ys : List WaitlistEntry)
    → x.position ≤ p
    → All (λ y. y.position ≤ p) ys
    → All (λ y. y.position ≤ p) (insert_by by_position x ys)
All-insert_by p x [] h b = (h, tt)
All-insert_by p x (y ∷ ys) h b = ground (arith, All-insert_by p x ys h b.1)

-- Nobody in the line has a position after the last one of the table.
pub line-max_where :
    (event : Text) (p : ℕ) (rows : List WaitlistEntry)
    → max_where (is_active event) (λ r. r.position) rows ≤ p
    → All (λ y. y.position ≤ p) (line event rows)
line-max_where event p [] h = tt
line-max_where event p (r ∷ rows) h =
    ground (arith, line-max_where event p rows, All-insert_by p r (line event rows))

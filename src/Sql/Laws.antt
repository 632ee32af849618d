-- ===== src/Sql/Laws.antt =====
-- How the reads of a table see its updates.
use high_concurrency_ticketi.Prelude.{
  map, ℕ, ◌+◌, ◌≤◌, ◌≡◌, refl, ap, Bool, true, false, none, some, List, [], ◌∷◌, ◌++◌, arith,
  if◌then◌else◌, Bool-cases, All, length, inl, inr, subst,
}
use high_concurrency_ticketi.Sql.{select_where, first_where, update_where, count_where}

module _ {A : Type 0} where
  -- Where the update does not change what is read by, the row that is found is the updated one.
  pub first_where-update_where :
      (p q : A → Bool) (f : A → A) (rs : List A)
      → ((r : A) → p (f r) ≡ p r)
      → first_where p (update_where q f rs)
        ≡ elim (first_where p rs) [ none ↦ none | some r ↦ some (if q r then f r else r) ]
  first_where-update_where p q f [] h = refl
  first_where-update_where p q f (r ∷ rs) h =
      ground (arith, h r, first_where-update_where p q f rs h)

  pub count_where-update_where_same :
      (p q : A → Bool) (f : A → A) (rs : List A)
      → ((r : A) → p (f r) ≡ p r)
      → count_where p (update_where q f rs) ≡ count_where p rs
  count_where-update_where_same p q f [] h = refl
  count_where-update_where_same p q f (r ∷ rs) h =
      ground (arith, h r, count_where-update_where_same p q f rs h)

  pub count_where-append :
      (p : A → Bool) (xs ys : List A)
      → count_where p (xs ++ ys) ≡ count_where p xs + count_where p ys
  count_where-append p [] ys = omega arith
  count_where-append p (x ∷ xs) ys = ground (arith, count_where-append p xs ys)

  pub first_where-append :
      (p : A → Bool) (xs ys : List A)
      → first_where p (xs ++ ys)
        ≡ elim (first_where p xs) [ none ↦ first_where p ys | some r ↦ some r ]
  first_where-append p [] ys = refl
  first_where-append p (x ∷ xs) ys = ground (arith, first_where-append p xs ys)

  -- The row that a lookup finds meets its condition.
  pub first_where_sound :
      (p : A → Bool) (rs : List A) (r : A) → first_where p rs ≡ some r → p r ≡ true
  first_where_sound p [] r e = cc
  first_where_sound p (x ∷ xs) r e = ground (arith, first_where_sound p xs r)

  -- An update that touches no row changes nothing.
  pub update_where_none :
      (p : A → Bool) (f : A → A) (rs : List A) → count_where p rs ≡ 0 → update_where p f rs ≡ rs
  update_where_none p f [] h = refl
  update_where_none p f (r ∷ rs) h = ground (arith, update_where_none p f rs)

  pub length-update_where :
      (p : A → Bool) (f : A → A) (rs : List A) → length (update_where p f rs) ≡ length rs
  length-update_where p f [] = refl
  length-update_where p f (r ∷ rs) = ap (λ n. ℕ.suc n) (length-update_where p f rs)

-- A test as a number.
abbrev pub indicator : Bool → ℕ
indicator b = if b then 1 else 0

module _ {A : Type 0} where
  -- An update whose rows have the key changes nothing where no row has it.
  pub update_where_off :
      (key p : A → Bool) (f : A → A) (rs : List A)
      → ((r : A) → key r ≡ false → p r ≡ false)
      → count_where key rs ≡ 0
      → update_where p f rs ≡ rs
  update_where_off key p f [] sub h = refl
  update_where_off key p f (r ∷ rs) sub h = ground (arith, sub r, update_where_off key p f rs sub)

  -- An update of the one row with the key moves a count by what the update does to that row.
  pub count_where-update_one :
      (key p q : A → Bool) (f : A → A) (found : A) (rs : List A)
      → ((r : A) → key r ≡ false → p r ≡ false)
      → count_where key rs ≤ 1
      → first_where key rs ≡ some found
      → count_where q (update_where p f rs) + indicator (q found)
        ≡ count_where q rs + indicator (q (if p found then f found else found))
  count_where-update_one key p q f found [] sub one e = cc
  count_where-update_one key p q f found (r ∷ rs) sub one e = elim (Bool-cases (key r)) [
    | inl hit ↦ ground (arith, update_where_off key p f rs sub)
    | inr miss ↦ ground (arith, sub r miss, count_where-update_one key p q f found rs sub)
  ]

  pub All-update_where :
      (P Q : A → Type 0) (p : A → Bool) (f : A → A) (rs : List A)
      → ((r : A) → P r → Q (if p r then f r else r))
      → All P rs
      → All Q (update_where p f rs)
  All-update_where P Q p f [] h a = tt
  All-update_where P Q p f (r ∷ rs) h a = (h r a.0, All-update_where P Q p f rs h a.1)

  pub All-map : (P Q : A → Type 0) (rs : List A) → ((r : A) → P r → Q r) → All P rs → All Q rs
  All-map P Q [] h a = tt
  All-map P Q (r ∷ rs) h a = (h r a.0, All-map P Q rs h a.1)

module _ {A : Type 0} where
  pub All-first_where :
      (P : A → Type 0) (p : A → Bool) (rs : List A) (r : A)
      → All P rs
      → first_where p rs ≡ some r
      → P r
  All-first_where P p [] r a e = cc
  All-first_where P p (x ∷ rs) r a e = elim (Bool-cases (p x)) [
    | inl hit ↦ subst P (ground arith) a.0
    | inr miss ↦ All-first_where P p rs r a.1 (ground arith)
  ]

pub first_where-none :
    {A : Type 0} (p : A → Bool) (rs : List A) → count_where p rs ≡ 0 → first_where p rs ≡ none
first_where-none p [] h = refl
first_where-none p (r ∷ rs) h = ground (arith, first_where-none p rs)

-- What an update does to the view of the rows that a condition selects, if it leaves the condition.
pub map-update_where :
    {A B : Type 0} (p q : A → Bool) (f : A → A) (view : A → B) (g : B → B) (rs : List A)
    → ((r : A) → p (f r) ≡ p r)
    → ((r : A) → p r ≡ true → view (if q r then f r else r) ≡ g (view r))
    → map view (select_where p (update_where q f rs)) ≡ map g (map view (select_where p rs))
map-update_where p q f view g [] keep step = refl
map-update_where p q f view g (r ∷ rs) keep step =
    ground (arith, keep r, step r, map-update_where p q f view g rs keep step)

pub map_same : {A : Type 0} (g : A → A) (xs : List A) → ((x : A) → g x ≡ x) → map g xs ≡ xs
map_same g [] h = refl
map_same g (x ∷ xs) h = rw (h x, map_same g xs h) refl

pub map_twice :
    {A : Type 0} (g : A → A) (xs : List A) → ((x : A) → g (g x) ≡ g x) → map g (map g xs) ≡ map g xs
map_twice g [] h = refl
map_twice g (x ∷ xs) h = rw (h x, map_twice g xs h) refl

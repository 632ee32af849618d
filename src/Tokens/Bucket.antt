-- ===== src/Tokens/Bucket.antt =====
-- The bucket against an account of what was granted: no interleaving of calls hands out more tokens
-- than were put in.
use high_concurrency_ticketi.Prelude.{
  ℕ, ◌+◌, ◌≤◌, ℤ, pos, ◌+ℤ◌, ◌-ℤ◌, ◌≤ℤ◌, ◌≡◌, refl, ap, pos_part, neg_part, ◌⊎◌, inl, inr,
  Bool-cases, Bool, true, false, some, List, [], ◌∷◌, arith, int_laws, ◌==◌, if◌then◌else◌, leb_ℤ,
  ⊤,
}
use high_concurrency_ticketi.Schema.{Text}
use high_concurrency_ticketi.World.{World, Env, Error, Result, ok, err, panic, service_down}
use high_concurrency_ticketi.Tokens.{reserve, release, put, value_or_zero}

sub_nonneg : (v : ℤ) (n : ℕ) → pos n ≤ℤ v → pos 0 ≤ℤ v -ℤ pos n
sub_nonneg v n h = omega int_laws

add_nonneg : (v : ℤ) (n : ℕ) → pos 0 ≤ℤ v → pos 0 ≤ℤ v +ℤ pos n
add_nonneg v n h = omega int_laws

sub_then_add : (v : ℤ) (n g : ℕ) → v -ℤ pos n +ℤ pos (g + n) ≡ v +ℤ pos g
sub_then_add v n g = omega int_laws

add_both : (v : ℤ) (n g t : ℕ) → v +ℤ pos g ≡ pos t → v +ℤ pos n +ℤ pos g ≡ pos (t + n)
add_both v n g t h = omega (int_laws, ap pos_part h, ap neg_part h)

-- A reservation takes all of its tokens where they are there, none where they are not, and none
-- where the call fails; it leaves the buckets of other events alone.
pub reserve-outcome :
    (event : Text) (n : ℤ) (env : Env) (w : World)
    → let (r, w') = reserve event n env w in
      let current = value_or_zero (w.tokens event) in
      ((r ≡ err service_down) × (w'.tokens ≡ w.tokens))
      ⊎ ((r ≡ ok true) × (n ≤ℤ current) × (w'.tokens ≡ put w.tokens event (current -ℤ n)))
      ⊎ ((r ≡ ok false) × ¬ (n ≤ℤ current) × (w'.tokens ≡ w.tokens))
unfolding reserve
reserve-outcome event n env w = elim (Bool-cases (env.fault w.calls)) [
  | inl down ↦ rw down (inl (refl, refl))
  | inr up ↦ rw up (elim (Bool-cases (leb_ℤ n (value_or_zero (w.tokens event)))) [
    | inl fits ↦ rw fits (inr (inl (refl, ground arith, refl)))
    | inr short ↦ rw short (inr (inr (refl, ground arith, refl)))
  ])
]

pub release-outcome :
    (event : Text) (n : ℤ) (env : Env) (w : World)
    → let (r, w') = release event n env w in
      ((r ≡ err service_down) × (w'.tokens ≡ w.tokens))
      ⊎ ((r ≡ ok tt) × (w'.tokens ≡ put w.tokens event (value_or_zero (w.tokens event) +ℤ n)))
unfolding release
release-outcome event n env w = elim (Bool-cases (env.fault w.calls)) [
  | inl down ↦ rw down (inl (refl, refl))
  | inr up ↦ rw up (inr (refl, refl))
]

-- A call of some client, with the event whose bucket it is about.
pub data Request : Type 0 where
  reserves : (event : Text) (n : ℕ) → Request
  releases : (event : Text) (n : ℕ) → Request

-- How many tokens of one event were handed out and given back so far.
pub record Account : Type 0 where
  pub granted : ℕ
  pub returned : ℕ

module _ (e : Text) where
  grant : Text → ℕ → Result Error Bool → Account → Account
  grant event n (ok true) a = if event == e then record a { granted = a.granted + n } else a
  grant event n (ok false) a = a
  grant event n (err _) a = a
  grant event n panic a = a

  give_back : Text → ℕ → Result Error ⊤ → Account → Account
  give_back event n (ok _) a = if event == e then record a { returned = a.returned + n } else a
  give_back event n (err _) a = a
  give_back event n panic a = a

  -- One call, accounted by its answer.
  pub serve : Request → Env → World × Account → World × Account
  unfolding grant give_back
  serve (reserves event n) env (w, a) =
      let (r, w') = reserve event (pos n) env w in (w', grant event n r a)
  serve (releases event n) env (w, a) =
      let (r, w') = release event (pos n) env w in (w', give_back event n r a)

  -- Any interleaving of the calls of any number of clients.
  pub serve_all : List Request → Env → World × Account → World × Account
  serve_all [] env s = s
  serve_all (q ∷ qs) env s = serve_all qs env (serve q env s)

  -- What is left and what was granted make up the capacity and what was given back.
  pub record IsConserved (capacity : ℕ) (s : World × Account) : Type 0 where
    pub nonneg : pos 0 ≤ℤ value_or_zero (s.0.tokens e)
    pub conserved : value_or_zero (s.0.tokens e) +ℤ pos s.1.granted ≡ pos (capacity + s.1.returned)

  reserve-IsConserved :
      (capacity : ℕ) (event : Text) (n : ℕ) (env : Env) (w : World) (a : Account)
      → IsConserved capacity (w, a)
      → IsConserved capacity (serve (reserves event n) env (w, a))
  unfolding serve
  reserve-IsConserved capacity event n env w a c = elim (reserve-outcome event (pos n) env w) [
    | inl (r, same) ↦ rw r (record { nonneg = rw same c.nonneg; conserved = rw same c.conserved })
    | inr (inl (r, fits, took)) ↦ rw r (record {
      nonneg = rw took (ground (arith, sub_nonneg (value_or_zero (w.tokens event)) n fits));
      conserved =
          rw took (
            ground (arith, c.conserved, sub_then_add (value_or_zero (w.tokens event)) n a.granted));
    })
    | inr (inr (r, short, same)) ↦
        rw r (record { nonneg = rw same c.nonneg; conserved = rw same c.conserved })
  ]

  release-IsConserved :
      (capacity : ℕ) (event : Text) (n : ℕ) (env : Env) (w : World) (a : Account)
      → IsConserved capacity (w, a)
      → IsConserved capacity (serve (releases event n) env (w, a))
  unfolding serve
  release-IsConserved capacity event n env w a c = elim (release-outcome event (pos n) env w) [
    | inl (r, same) ↦ rw r (record { nonneg = rw same c.nonneg; conserved = rw same c.conserved })
    | inr (r, gave) ↦ rw r (record {
      nonneg = rw gave (ground (arith, add_nonneg (value_or_zero (w.tokens event)) n));
      conserved = rw gave (
          ground (
            arith,
            c.conserved,
            add_both (value_or_zero (w.tokens event)) n a.granted (capacity + a.returned),
          ));
    })
  ]

  serve_all-IsConserved :
      (capacity : ℕ) (qs : List Request) (env : Env) (s : World × Account)
      → IsConserved capacity s
      → IsConserved capacity (serve_all qs env s)
  unfolding serve_all
  serve_all-IsConserved capacity [] env s c = c
  serve_all-IsConserved capacity (reserves event n ∷ qs) env (w, a) c =
      serve_all-IsConserved capacity qs env _ (reserve-IsConserved capacity event n env w a c)
  serve_all-IsConserved capacity (releases event n ∷ qs) env (w, a) c =
      serve_all-IsConserved capacity qs env _ (release-IsConserved capacity event n env w a c)

  -- From a bucket of `capacity` tokens, no interleaving of reservations and releases by any number
  -- of clients, on this and other events and with any calls failing, hands out more than the
  -- capacity and what was given back, and what is left is exactly the difference.
  pub no_overselling :
      (capacity : ℕ) (qs : List Request) (env : Env) (w : World)
      → w.tokens e ≡ some (pos capacity)
      → let (w', a) = serve_all qs env (w, record { granted = 0; returned = 0 }) in
        (a.granted ≤ capacity + a.returned)
        × (value_or_zero (w'.tokens e) +ℤ pos a.granted ≡ pos (capacity + a.returned))
  no_overselling capacity qs env w full =
      let s = serve_all qs env (w, record { granted = 0; returned = 0 }) in
      let c =
        serve_all-IsConserved capacity qs env (w, record { granted = 0; returned = 0 })
          (record { nonneg = rw full (omega arith); conserved = rw full (omega int_laws) }) in
      (omega (int_laws, c.nonneg, ap pos_part c.conserved, ap neg_part c.conserved), c.conserved)

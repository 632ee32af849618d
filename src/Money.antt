-- ===== src/Money.antt =====
-- Amounts of money: a Go `float64` and a column NUMERIC(12,2) of
-- cmd/migrate/migrations/000001_init.up.sql. A number is counted in cents, so that sums and products
-- are exact; an infinite amount behaves as a number that no column holds. `strconv.ParseFloat` and
-- NUMERIC also know "NaN".
use high_concurrency_ticketi.Prelude.{
  ℤ, pos, negsuc, ◌-ℤ◌, ◌*ℤ◌, ltb_ℤ, Bool, true, false, ◌&&◌, ◌≡◌, ◌⊎◌, ◌≤ℤ◌, inl, inr, refl, arith,
}

pub data Money : Type 0 where
  cents : ℤ → Money
  nan : Money

abbrev pub zero_cents : Money
zero_cents = cents (pos 0)

-- `a < b`
abbrev pub below : Money → Money → Bool
below (cents a) (cents b) = ltb_ℤ a b
below (cents a) nan = false
below nan b = false

-- `a - b`
abbrev pub less : Money → Money → Money
less (cents a) (cents b) = cents (a -ℤ b)
less (cents a) nan = nan
less nan b = nan

-- `a * float64(n)`
abbrev pub times : Money → ℤ → Money
times (cents a) n = cents (a *ℤ n)
times nan n = nan

-- NUMERIC(12,2) holds what is nearer to 0 than 10 ^ 10, and NaN.
abbrev pub is_storable : Money → Bool
is_storable (cents a) = ltb_ℤ a (pos 1_000_000_000_000) && ltb_ℤ (negsuc 999_999_999_999) a
is_storable nan = true

-- The first is at least the second, where both are numbers.
abbrev pub Covers : Money → Money → Type 0
Covers a b = (a ≡ nan) ⊎ (b ≡ nan) ⊎ ((x : ℤ) × (y : ℤ) × (a ≡ cents x) × (b ≡ cents y) × (y ≤ℤ x))

pub Covers-below : (a b : Money) → below a b ≡ false → Covers a b
Covers-below (cents a) (cents b) h = inr (inr (a, b, refl, refl, ground arith))
Covers-below (cents a) nan h = inr (inl refl)
Covers-below nan b h = inl refl

-- ===== src/Money/Rounding.antt =====
-- What the charge lines of apps/api/src/common/money.ts lose to rounding, and the nights of a stay.
use lodgiva.Common.{
  ℕ, zero, suc, ◌+◌, ◌-◌, ◌*◌, ◌≤◌, ◌<◌, ◌≡◌, ◌↔◌, true, List, ◌∷◌, refl, arith, length, contains,
  leb, ltb, ◌&&◌,
}
use lodgiva.Common.Int.{pos, ◌+ℤ◌, mul_div, pos_part, neg_part}
use lodgiva.Money.{compute_charge_lines, nights_between, nights_from}

-- For a base of zero or more the total is base + service charge + VAT, it never exceeds the exact
-- 112.875% of the base, and falls short of it by less than two minor units.
compute_charge_lines_bounds :
    (n : ℕ)
    → let c = compute_charge_lines (pos n) in
      (c.total ≡ c.base +ℤ c.service_charge +ℤ c.vat)
      × (100000 * pos_part c.total ≤ 112875 * n)
      × (112875 * n < 100000 * pos_part c.total + 200000)
      × (neg_part c.total ≡ 0)
unfolding compute_charge_lines mul_div ◌+ℤ◌
compute_charge_lines_bounds n = (refl, ground arith, ground arith, ground arith)

length-nights_from : (fuel d end : ℕ) → end ≤ d + fuel → length (nights_from fuel d end) ≡ end - d
unfolding nights_from
length-nights_from zero d end h = omega arith
length-nights_from (suc fuel) d end h = ground (arith, length-nights_from fuel (d + 1) end)

contains-nights_from :
    (x fuel d end : ℕ)
    → end ≤ d + fuel
    → contains x (nights_from fuel d end) ≡ (leb d x && ltb x end)
unfolding nights_from
contains-nights_from x zero d end h = ground arith
contains-nights_from x (suc fuel) d end h = ground (arith, contains-nights_from x fuel (d + 1) end)

-- A stay has one night for each day from the arrival up to, but without, the departure: as many as
-- the days between them, and a day is one of them exactly when it lies in that range.
pub nights_between_range :
    (arrival departure : ℕ)
    → (length (nights_between arrival departure) ≡ departure - arrival)
      × ((x : ℕ)
          → (contains x (nights_between arrival departure) ≡ true)
            ↔ ((arrival ≤ x) × (x < departure)))
unfolding nights_between
nights_between_range a d =
    (length-nights_from d a d (omega arith), λ x. ground (arith, contains-nights_from x d a d))

-- A stay that ends after its arrival has its arrival as its first night.
pub nights_between-head :
    (arrival departure : ℕ)
    → arrival < departure
    → (later : List ℕ) × (nights_between arrival departure ≡ arrival ∷ later)
unfolding nights_between nights_from
nights_between-head a zero h = absurd (omega (arith, h))
nights_between-head a (suc d) h = (nights_from d (a + 1) (suc d), ground (arith, h))

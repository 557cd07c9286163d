-- ===== src/Money.antt =====
-- Money in minor units and dates: apps/api/src/common/money.ts.
pub mod Rounding
mod Tests
use lodgiva.Common.{ℕ, ◌+◌, ◌-◌, zero, suc, List, [], ◌∷◌, ltb, if◌then◌else◌}
use lodgiva.Common.Int.{ℤ, ◌+ℤ◌, mul_div}
use lodgiva.Store.{IsoDate}

abbrev pub vat_bp : ℕ
vat_bp = 750

abbrev pub service_bp : ℕ
service_bp = 500

pub record ChargeLines : Type 0 where
  pub base : ℤ
  pub service_charge : ℤ
  pub vat : ℤ
  pub total : ℤ

unfoldable pub compute_charge_lines : ℤ → ChargeLines
compute_charge_lines base_minor =
    let service_charge = mul_div base_minor service_bp 10000 in
    let vat = mul_div (base_minor +ℤ service_charge) vat_bp 10000 in
    record {
      base = base_minor;
      service_charge = service_charge;
      vat = vat;
      total = base_minor +ℤ service_charge +ℤ vat;
    }

-- The loop `while (d < end)` of `nightsBetween`. Each round moves one day on, so `end` rounds are
-- enough.
nights_from : ℕ → IsoDate → IsoDate → List IsoDate
nights_from zero d end = []
nights_from (suc fuel) d end = if ltb d end then d ∷ nights_from fuel (d + 1) end else []

unfoldable pub nights_between : IsoDate → IsoDate → List IsoDate
unfolding nights_from
nights_between arrival departure = nights_from departure arrival departure

unfoldable pub add_days_iso : IsoDate → ℕ → IsoDate
add_days_iso iso n = iso + n

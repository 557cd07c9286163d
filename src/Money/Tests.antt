-- ===== src/Money/Tests.antt =====
-- Runs of the money and date helpers.
use lodgiva.Common.{◌≡◌, refl, [], ◌∷◌}
use lodgiva.Common.Int.{pos, ◌+ℤ◌, mul_div}
use lodgiva.Money.{compute_charge_lines, nights_between}

charge_of_100_naira : (compute_charge_lines (pos 10000)).total ≡ pos 11287
unfolding compute_charge_lines mul_div ◌+ℤ◌
charge_of_100_naira = refl

two_nights : nights_between 20 22 ≡ 20 ∷ 21 ∷ []
unfolding nights_between
two_nights = refl

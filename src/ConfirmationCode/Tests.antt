-- ===== src/ConfirmationCode/Tests.antt =====
-- A code as it is drawn, and as a guest types it.
use lodgiva.Common.{ℕ, true, ◌*◌, ◌%◌, some, List, all, length, ◌≡◌, refl, arith}
use lodgiva.ConfirmationCode.{
  codes, canonical, is_glyph, generate_confirmation_code, normalise_confirmation_code,
}
use lodgiva.ConfirmationCode.RoundTrip.{normalise-generate, normalise_canonical_form}

abbrev rolls : ℕ → ℕ
rolls i = i * 7 % 25

drawn : generate_confirmation_code rolls ≡ codes "LDG-AJT6-ENY9"
unfolding generate_confirmation_code
drawn = refl

typed : normalise_confirmation_code (codes "ldg ajt6_eny9") ≡ some (codes "LDG-AJT6-ENY9")
unfolding normalise_confirmation_code
typed = refl

normalise-generate_example :
    normalise_confirmation_code (generate_confirmation_code rolls)
    ≡ some (generate_confirmation_code rolls)
normalise-generate_example = normalise-generate rolls (λ i. omega arith)

normalise_canonical_form_example :
    ((body : List ℕ) × (all is_glyph body ≡ true)
      × (length body ≡ 8)
      × (codes "LDG-AJT6-ENY9" ≡ canonical body))
    × (normalise_confirmation_code (codes "LDG-AJT6-ENY9") ≡ some (codes "LDG-AJT6-ENY9"))
normalise_canonical_form_example =
    normalise_canonical_form (codes "ldg ajt6_eny9") (codes "LDG-AJT6-ENY9") typed

-- ===== src/Tax/Exclusive.antt =====
-- Under exclusive rules a price holds no tax yet: the base is the price.
use lodgiva.Common.Members.{All-Member}
use lodgiva.Common.Sorting.{All-map}
use lodgiva.Tax.Versions.{Among, ordered_rules_newest}
use lodgiva.Common.{filter, Bool, Bool-cases, inl, inr, false, List, [], ◌∷◌, ◌≡◌, refl, ◌∙◌, All}
use lodgiva.Common.Int.{ℤ, pos, int_laws}
use lodgiva.Store.{is_inclusive, exclusive, TaxRule}
use lodgiva.Tax.{
  TaxInput, Progress, nothing_yet, apply_rule, apply_rules, apply_fallbacks, apply_fallback,
  run_rules, ordered_rules, compute, is_effective,
}

apply_rules_included :
    (base : ℤ) (p : Progress) (rules : List TaxRule)
    → All (λ r. r.basis ≡ exclusive) rules
    → (apply_rules base p rules).included_tax_minor ≡ p.included_tax_minor
unfolding apply_rules
apply_rules_included base p [] h = refl
apply_rules_included base p (r ∷ rules) (e, h) =
    apply_rules_included base (apply_rule base p r) rules h ∙ step
  where
    step : (apply_rule base p r).included_tax_minor ≡ p.included_tax_minor
    step = unfold apply_rule in let kept : is_inclusive r.basis ≡ false = rw e refl in rw kept refl

run_rules_included :
    (base : ℤ) (rules : List TaxRule)
    → All (λ r. r.basis ≡ exclusive) rules
    → (run_rules base rules).included_tax_minor ≡ pos 0
unfolding run_rules apply_fallbacks apply_fallback
run_rules_included base [] h = refl
run_rules_included base (r ∷ rules) h = apply_rules_included base nothing_yet (r ∷ rules) h

-- Where no rule that applies is inclusive, the base of a computation is the price that was asked for.
pub exclusive_base :
    (rules : List TaxRule) (input : TaxInput)
    → All (λ r. r.basis ≡ exclusive) (ordered_rules input rules)
    → (compute rules input).base ≡ input.base_minor
unfolding compute
exclusive_base rules input h =
    rw (run_rules_included input.base_minor (ordered_rules input rules) h) (omega int_laws)

All-filter_of :
    (P : TaxRule → Type 0) (p : TaxRule → Bool) (l : List TaxRule) → All P l → All P (filter p l)
All-filter_of P p [] h = tt
All-filter_of P p (r ∷ l) h = elim (Bool-cases (p r)) [
  | inl e ↦ rw e (h.0, All-filter_of P p l h.1)
  | inr e ↦ rw e (All-filter_of P p l h.1)
]

-- What holds of every rule of the table holds of those that a charge is taxed by.
pub ordered_rules-All :
    (P : TaxRule → Type 0) (input : TaxInput) (rules : List TaxRule)
    → All P rules
    → All P (ordered_rules input rules)
ordered_rules-All P input rules h =
    let in_force = filter (is_effective input) rules in
    All-map (Among in_force)
      (λ s m. All-Member P in_force s (All-filter_of P (is_effective input) rules h) m)
      (ordered_rules input rules) (ordered_rules_newest input rules).0

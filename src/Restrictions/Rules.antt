-- ===== src/Restrictions/Rules.antt =====
-- When a stay passes all restrictions.
use lodgiva.Common.{
  ℕ, ◌≤◌, Bool, false, Option, none, some, List, [], ◌∷◌, ◌++◌, ◌≡◌, refl, sym, ◌∙◌, ◌&&◌, not,
  ◌==◌, ltb, arith, ◌↔◌, All, filter, length, ◌⊎◌,
}
use lodgiva.Common.Int.{ℤ, ◌≤ℤ◌}
use lodgiva.Store.{IsoDate}
use lodgiva.Restrictions.{
  RestrictionViolation, when_broken, max_stay_broken, min_advance_broken, is_some_night,
  EvaluateInput, flag, number_of, min_stay_of, closed_nights, days_between, violations_of,
  evaluate_restrictions,
}

-- The bounds that a row may give; a longest stay of 0 is none.
abbrev pub Within : Option ℕ → ℕ → Type 0
Within none n = Unit
Within (some m) n = (m ≡ 0) ⊎ (n ≤ m)

abbrev pub Ahead : Option ℤ → ℤ → Type 0
Ahead none lead = Unit
Ahead (some days) lead = days ≤ℤ lead

-- A stay from `arrival` on that breaks no rule.
pub record Sellable (input : EvaluateInput) (arrival : IsoDate) : Type 0 where
  pub nights_open : All (λ d. flag (λ r. r.closed) (input.restrictions d) ≡ false) input.nights
  pub may_arrive : flag (λ r. r.closed_to_arrival) (input.restrictions arrival) ≡ false
  pub may_depart :
      flag (λ r. r.closed_to_departure) (input.restrictions input.departure_date) ≡ false
  pub long_enough :
      min_stay_of input.plan_min_stay (number_of (λ r. r.min_stay) (input.restrictions arrival))
      ≤ length input.nights
  pub short_enough :
      Within (number_of (λ r. r.max_stay) (input.restrictions arrival)) (length input.nights)
  pub ahead :
      Ahead
        (number_of (λ r. r.min_advance_days) (input.restrictions arrival))
        (days_between input.business_date arrival)

All-of_filter : (p : ℕ → Bool) (l : List ℕ) → filter p l ≡ [] → All (λ x. p x ≡ false) l
All-of_filter p [] h = tt
All-of_filter p (x ∷ l) h = (ground arith, All-of_filter p l (ground arith))

filter-nil : (p : ℕ → Bool) (l : List ℕ) → All (λ x. p x ≡ false) l → filter p l ≡ []
filter-nil p [] h = refl
filter-nil p (x ∷ l) h = ground (arith, h.0, filter-nil p l h.1)

-- Joined lists are empty when all are.
append-nil : {A : Type 0} (k l : List A) → k ++ l ≡ [] → (k ≡ []) × (l ≡ [])
append-nil [] l h = (refl, h)
append-nil (x ∷ k) l h = absurd (ground arith)

when_broken-nil : (b : Bool) (v : RestrictionViolation) → when_broken b v ≡ [] → b ≡ false
when_broken-nil b v h = ground arith

max_stay-Within : (m : Option ℕ) (n : ℕ) (d : IsoDate) → (max_stay_broken m n d ≡ []) ↔ Within m n
max_stay-Within none n d = (λ _. tt, λ _. refl)
max_stay-Within (some m) n d = (λ h. ground arith, λ h. ground arith)

min_advance-Ahead :
    (days : Option ℤ) (lead : ℤ) → (min_advance_broken days lead ≡ []) ↔ Ahead days lead
min_advance-Ahead none lead = (λ _. tt, λ _. refl)
min_advance-Ahead (some days) lead = (λ h. ground arith, λ h. ground arith)

-- The shortest stay: `minStay && stayLength < minStay`
min_stay_le : (m n : ℕ) → (not (m == 0) && ltb n m ≡ false) ↔ (m ≤ n)
min_stay_le m n = (λ h. ground arith, λ h. ground arith)

is_some_night-nil : (l : List IsoDate) → (is_some_night l ≡ false) ↔ (l ≡ [])
is_some_night-nil [] = (λ _. refl, λ _. refl)
is_some_night-nil (x ∷ l) = (λ h. absurd (ground arith), λ h. absurd (ground arith))

violations_of-Sellable :
    (input : EvaluateInput) (arrival : IsoDate)
    → violations_of input arrival ≡ []
    → Sellable input arrival
unfolding violations_of
violations_of-Sellable input arrival h =
    let (a, h1) = append-nil _ _ h in
    let (b, h2) = append-nil _ _ h1 in
    let (c, h3) = append-nil _ _ h2 in
    let (d, h4) = append-nil _ _ h3 in
    let (e, f) = append-nil _ _ h4 in
    record {
      nights_open =
          All-of_filter _ input.nights
            ((is_some_night-nil (closed_nights input)).0 (when_broken-nil _ _ a));
      may_arrive = when_broken-nil _ _ b;
      may_depart = when_broken-nil _ _ c;
      long_enough = (min_stay_le _ _).0 (when_broken-nil _ _ d);
      short_enough = (max_stay-Within _ _ _).0 e;
      ahead = (min_advance-Ahead _ _).0 f;
    }

Sellable-violations_of :
    (input : EvaluateInput) (arrival : IsoDate)
    → Sellable input arrival
    → violations_of input arrival ≡ []
unfolding violations_of
Sellable-violations_of input arrival s =
    rw
      (
        (is_some_night-nil (closed_nights input)).1 (filter-nil _ input.nights s.nights_open),
        s.may_arrive,
        s.may_depart,
        (min_stay_le _ _).1 s.long_enough,
        (max_stay-Within _ _ arrival).1 s.short_enough,
        (min_advance-Ahead _ _).1 s.ahead,
      )
      refl

-- A stay passes exactly when it breaks no rule: no night is closed, the arrival and the departure
-- are allowed, its length is within the bounds of the arrival date, the plan's shortest stay where
-- that date gives none, and it is booked far enough ahead.
pub evaluate_restrictions_iff :
    (input : EvaluateInput) (arrival : IsoDate) (later : List IsoDate)
    → input.nights ≡ arrival ∷ later
    → (evaluate_restrictions input ≡ []) ↔ Sellable input arrival
evaluate_restrictions_iff input arrival later h =
    let same : evaluate_restrictions input ≡ violations_of input arrival = run in
    (
      λ e. violations_of-Sellable input arrival (sym same ∙ e),
      λ s. same ∙ Sellable-violations_of input arrival s,
    )
  where
    run : evaluate_restrictions input ≡ violations_of input arrival
    run = unfold evaluate_restrictions in ground (arith, h)

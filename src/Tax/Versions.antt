-- ===== src/Tax/Versions.antt =====
-- Which rules a charge is taxed by: `active` and `ordered` of apps/api/src/common/tax.service.ts.
use text.Mathlib.Text.{◌==◌ as str_eq}
use text.Mathlib.TextEquality.{eq_iff}
use lodgiva.Common.{
  ◌≤◌, false, List, [], ◌∷◌, ◌≡◌, ◌≢◌, inl, inr, refl, arith, All, Any, filter, sym, ltb,
  Bool-cases, sort_by,
}
use lodgiva.Common.Sorting.{
  All-map, All-self, All-sort_by, All-of_sort_by, Any-sort_by, Pairs, Pairs-sort_by,
  sort_by-IsSorted,
}
use lodgiva.Store.{TaxRule}
use lodgiva.Tax.{
  TaxInput, by_order, by_order_and_version, is_effective, effective_rules, set_newest, newest_from,
  ordered_rules,
}

-- A rule of the same code that is at least as new stands in a list.
abbrev pub Covered : List TaxRule → TaxRule → Type 0
Covered l q = Any (λ s. (s.code ≡ q.code) × (q.version ≤ s.version)) l

set_newest-Covered_self : (m : List TaxRule) (r : TaxRule) → Covered (set_newest m r) r
unfolding set_newest
set_newest-Covered_self [] r = inl (refl, omega arith)
set_newest-Covered_self (s ∷ m) r =
    ground (arith, eq_iff s.code r.code, set_newest-Covered_self m r)

set_newest-Covered : (m : List TaxRule) (r q : TaxRule) → Covered m q → Covered (set_newest m r) q
unfolding set_newest
set_newest-Covered [] r q h = elim h [ ]
set_newest-Covered (s ∷ m) r q (inl h) = ground (arith, eq_iff s.code r.code)
set_newest-Covered (s ∷ m) r q (inr h) =
    ground (arith, eq_iff s.code r.code, set_newest-Covered m r q h)

newest_from-Covered :
    (m rules : List TaxRule) (q : TaxRule) → Covered m q → Covered (newest_from m rules) q
unfolding newest_from
newest_from-Covered m [] q h = h
newest_from-Covered m (r ∷ rules) q h =
    newest_from-Covered (set_newest m r) rules q (set_newest-Covered m r q h)

newest_from-covers : (m rules : List TaxRule) → All (Covered (newest_from m rules)) rules
unfolding newest_from
newest_from-covers m [] = tt
newest_from-covers m (r ∷ rules) = (
  newest_from-Covered (set_newest m r) rules r (set_newest-Covered_self m r),
  newest_from-covers (set_newest m r) rules,
)

module _ (P : TaxRule → Type 0) where
  All-set_newest : (m : List TaxRule) (r : TaxRule) → All P m → P r → All P (set_newest m r)
  unfolding set_newest
  All-set_newest [] r h p = (p, tt)
  All-set_newest (s ∷ m) r h p = ground (arith, All-set_newest m r h.1 p)

  All-newest_from : (m rules : List TaxRule) → All P m → All P rules → All P (newest_from m rules)
  unfolding newest_from
  All-newest_from m [] h k = h
  All-newest_from m (r ∷ rules) h k =
      All-newest_from (set_newest m r) rules (All-set_newest m r h k.0) k.1

-- Two rules of different codes.
abbrev pub OtherCode : TaxRule → TaxRule → Type 0
OtherCode s t = s.code ≢ t.code

set_newest-distinct :
    (m : List TaxRule) (r : TaxRule) → Pairs OtherCode m → Pairs OtherCode (set_newest m r)
unfolding set_newest
set_newest-distinct [] r h = (tt, tt)
set_newest-distinct (s ∷ m) r (other, h) = elim (Bool-cases (str_eq s.code r.code)) [
  | inr e ↦
      rw e (All-set_newest (OtherCode s) m r other (different s r e), set_newest-distinct m r h)
  | inl e ↦ elim (Bool-cases (ltb s.version r.version)) [
    | inl newer ↦ rw (e, newer) (All-map (OtherCode s) (moved ((eq_iff _ _).0 e)) m other, h)
    | inr older ↦ rw (e, older) (other, h)
  ]
]
  where
    different : (s r : TaxRule) → str_eq s.code r.code ≡ false → OtherCode s r
    different s r e same = cc ((eq_iff _ _).1 same)

    moved : s.code ≡ r.code → (t : TaxRule) → OtherCode s t → OtherCode r t
    moved same t n = rw (← same) n

newest_from-distinct :
    (m rules : List TaxRule) → Pairs OtherCode m → Pairs OtherCode (newest_from m rules)
unfolding newest_from
newest_from-distinct m [] h = h
newest_from-distinct m (r ∷ rules) h =
    newest_from-distinct (set_newest m r) rules (set_newest-distinct m r h)

-- A rule is one of a list's.
abbrev pub Among : List TaxRule → TaxRule → Type 0
Among l s = Any (λ q. q ≡ s) l

abbrev pub InOrder : TaxRule → TaxRule → Type 0
InOrder s t = s.compound_order ≤ t.compound_order

effective_rules-Covered :
    (input : TaxInput) (rules l : List TaxRule)
    → All (Covered l) (effective_rules input rules)
    → All (Covered l) (filter (is_effective input) rules)
unfolding effective_rules
effective_rules-Covered input rules l h =
    All-of_sort_by by_order_and_version (Covered l) (filter (is_effective input) rules) h

effective_rules-Among :
    (input : TaxInput) (rules : List TaxRule)
    → All (Among (filter (is_effective input) rules)) (effective_rules input rules)
unfolding effective_rules
effective_rules-Among input rules =
    let l = filter (is_effective input) rules in
    All-sort_by by_order_and_version (Among l) l (All-self l)

-- The rules that a charge is taxed by, in the order in which they are applied: each is one of the
-- rules in force; every rule in force has there a rule of its code that is at least as new; no two
-- have the same code; and their compound orders rise.
pub ordered_rules_newest :
    (input : TaxInput) (rules : List TaxRule)
    → let l = ordered_rules input rules in
      let in_force = filter (is_effective input) rules in
      All (Among in_force) l × All (Covered l) in_force × Pairs OtherCode l × Pairs InOrder l
unfolding ordered_rules sort_by
ordered_rules_newest input rules =
    let e = effective_rules input rules in
    let in_force = filter (is_effective input) rules in
    let active = newest_from [] e in
    let covered = λ (q : TaxRule) (h : Covered active q).
      Any-sort_by by_order (λ s. (s.code ≡ q.code) × (q.version ≤ s.version)) active h in
    (
      All-sort_by by_order (Among in_force) active
          (All-newest_from (Among in_force) [] e tt (effective_rules-Among input rules)),
      effective_rules-Covered input rules (sort_by by_order active)
          (All-map (Covered active) covered e (newest_from-covers [] e)),
      Pairs-sort_by by_order OtherCode (λ x y n e. n (sym e)) active (newest_from-distinct [] e tt),
      sort_by-IsSorted by_order InOrder (λ x y h. ground arith) (λ x y h. ground arith)
          (λ x y z h k. omega arith) active,
    )

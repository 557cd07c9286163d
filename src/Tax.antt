-- ===== src/Tax.antt =====
-- The tax engine: apps/api/src/common/tax.service.ts.
pub mod Reconcile
pub mod Versions
pub mod Amounts
pub mod Exclusive
mod Tests
use text.Mathlib.Text.{◌==◌ as str_eq}
use lodgiva.Common.{
  ℕ, ◌+◌, Bool, true, false, ◌&&◌, ◌||◌, not, Option, none, some, List, [], ◌∷◌, ◌++◌, String, ◌==◌,
  leb, ltb, filter, sort_by, if◌then◌else◌,
}
use lodgiva.Common.Int.{ℤ, pos, ◌+ℤ◌, ◌-ℤ◌, mul_div}
use lodgiva.Store.{
  Key, IsoDate, Scope, scope_all, scope_room, scope_fb, is_inclusive, TaxRule, TaxRuleRef, tax_rule,
  default_rule, Db,
}

-- `ResolvedTaxLine`
pub record TaxLine : Type 0 where
  pub code : String
  pub name : String
  pub amount_minor : ℤ
  pub tax_rule_id : TaxRuleRef
  pub tax_rule_version : ℕ
  pub is_service_charge : Bool

-- `TaxComputation`
pub record TaxComputation : Type 0 where
  pub base : ℤ
  pub lines : List TaxLine
  pub total : ℤ

-- `ROOM` or `FB`
pub data ChargeKind : Type 0 where
  room_kind fb_kind : ChargeKind

pub record TaxInput : Type 0 where
  pub tenant_id : Key
  pub property_id : Key
  pub base_minor : ℤ
  pub charge_kind : ChargeKind
  pub business_date : IsoDate

-- `appliesTo: { in: ["ALL", input.chargeKind] }`
abbrev pub applies : Scope → ChargeKind → Bool
applies scope_all kind = true
applies scope_room room_kind = true
applies scope_room fb_kind = false
applies scope_fb room_kind = false
applies scope_fb fb_kind = true

-- `OR: [{ effectiveTo: null }, { effectiveTo: { gte: businessDate } }]`
abbrev pub not_ended : Option IsoDate → IsoDate → Bool
not_ended none date = true
not_ended (some last) date = leb date last

abbrev pub is_svc : String → Bool
is_svc code = str_eq code "SVC"

-- The `where` of the query.
unfoldable pub is_effective : TaxInput → TaxRule → Bool
is_effective input r =
    r.tenant_id == input.tenant_id
    && (r.property_id == input.property_id
        && (leb r.effective_from input.business_date
            && (not_ended r.effective_to input.business_date
                && applies r.applies_to input.charge_kind)))

-- `a.compoundOrder - b.compoundOrder < 0`
abbrev pub by_order : TaxRule → TaxRule → Bool
by_order a b = ltb a.compound_order b.compound_order

-- `orderBy: [{ compoundOrder: "asc" }, { version: "desc" }]`
abbrev pub by_order_and_version : TaxRule → TaxRule → Bool
by_order_and_version a b =
    by_order a b || (a.compound_order == b.compound_order && ltb b.version a.version)

-- The rows of the query.
unfoldable pub effective_rules : TaxInput → List TaxRule → List TaxRule
unfolding is_effective
effective_rules input rules = sort_by by_order_and_version (filter (is_effective input) rules)

-- One round of the loop over `active`, a map from codes to rules in the order of insertion.
unfoldable pub set_newest : List TaxRule → TaxRule → List TaxRule
set_newest [] r = r ∷ []
set_newest (seen ∷ active) r =
    if str_eq seen.code r.code
    then if ltb seen.version r.version then r ∷ active else seen ∷ active
    else seen ∷ set_newest active r

unfoldable pub newest_from : List TaxRule → List TaxRule → List TaxRule
newest_from active [] = active
newest_from active (r ∷ rules) = newest_from (set_newest active r) rules

-- `ordered`
unfoldable pub ordered_rules : TaxInput → List TaxRule → List TaxRule
unfolding effective_rules is_effective newest_from set_newest sort_by
ordered_rules input rules = sort_by by_order (newest_from [] (effective_rules input rules))

-- The variables of the loop that builds the lines.
pub record Progress : Type 0 where
  pub lines : List TaxLine
  pub service_charge_minor : ℤ
  pub included_tax_minor : ℤ

abbrev pub nothing_yet : Progress
nothing_yet = record { lines = []; service_charge_minor = pos 0; included_tax_minor = pos 0 }

-- The amount of a rule, given the service charge so far.
unfoldable pub rule_amount : ℤ → ℤ → TaxRule → ℤ
rule_amount base_minor service_charge_minor rule =
    let taxable =
      if rule.tax_on_service_charge && not (is_svc rule.code)
      then base_minor +ℤ service_charge_minor
      else base_minor in
    if is_inclusive rule.basis
    then mul_div taxable rule.rate_bp (10000 + rule.rate_bp)
    else mul_div taxable rule.rate_bp 10000

unfoldable pub apply_rule : ℤ → Progress → TaxRule → Progress
apply_rule base_minor p rule =
    let amount = rule_amount base_minor p.service_charge_minor rule in
    record {
      lines =
          p.lines
          ++ record {
            code = rule.code;
            name = rule.name;
            amount_minor = amount;
            tax_rule_id = tax_rule rule.id;
            tax_rule_version = rule.version;
            is_service_charge = is_svc rule.code;
          }
            ∷ [];
      service_charge_minor = if is_svc rule.code then amount else p.service_charge_minor;
      included_tax_minor =
          if is_inclusive rule.basis then p.included_tax_minor +ℤ amount else p.included_tax_minor;
    }

unfoldable pub apply_rules : ℤ → Progress → List TaxRule → Progress
apply_rules base_minor p [] = p
apply_rules base_minor p (rule ∷ rules) =
    apply_rules base_minor (apply_rule base_minor p rule) rules

-- A row of `FALLBACK`
pub record Fallback : Type 0 where
  pub code : String
  pub name : String
  pub rate_bp : ℕ
  pub tax_on_service_charge : Bool

abbrev pub fallback : List Fallback
fallback =
    record { code = "SVC"; name = "Service Charge"; rate_bp = 500; tax_on_service_charge = false }
    ∷ record { code = "VAT"; name = "Value Added Tax"; rate_bp = 750; tax_on_service_charge = true }
    ∷ []

-- One round of the loop over `FALLBACK`.
unfoldable pub apply_fallback : ℤ → Progress → Fallback → Progress
apply_fallback base_minor p f =
    let taxable =
      if f.tax_on_service_charge then base_minor +ℤ p.service_charge_minor else base_minor in
    let amount = mul_div taxable f.rate_bp 10000 in
    record {
      lines =
          p.lines
          ++ record {
            code = f.code;
            name = f.name;
            amount_minor = amount;
            tax_rule_id = default_rule f.code;
            tax_rule_version = 0;
            is_service_charge = is_svc f.code;
          }
            ∷ [];
      service_charge_minor = if is_svc f.code then amount else p.service_charge_minor;
      included_tax_minor = p.included_tax_minor;
    }

unfoldable pub apply_fallbacks : ℤ → Progress → List Fallback → Progress
apply_fallbacks base_minor p [] = p
apply_fallbacks base_minor p (f ∷ fs) =
    apply_fallbacks base_minor (apply_fallback base_minor p f) fs

-- `lines.reduce((s, l) => s + l.amountMinor, 0n)`
abbrev pub sum_lines : List TaxLine → ℤ
sum_lines [] = pos 0
sum_lines (l ∷ lines) = l.amount_minor +ℤ sum_lines lines

-- The lines of the rules, or of the defaults where no rule is configured.
unfoldable pub run_rules : ℤ → List TaxRule → Progress
run_rules base_minor [] = apply_fallbacks base_minor nothing_yet fallback
run_rules base_minor (rule ∷ rules) = apply_rules base_minor nothing_yet (rule ∷ rules)

-- `TaxService.compute`
unfoldable pub compute : List TaxRule → TaxInput → TaxComputation
unfolding ordered_rules
compute rules input =
    let p = run_rules input.base_minor (ordered_rules input rules) in
    let net_base = input.base_minor -ℤ p.included_tax_minor in
    record { base = net_base; lines = p.lines; total = net_base +ℤ sum_lines p.lines }

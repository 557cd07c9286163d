-- ===== src/Booking/Priced.antt =====
-- What a quote is made of.
use lodgiva.Common.{
  ◌+◌, ◌≤◌, ◌<◌, some, List, [], ◌∷◌, map, ◌≡◌, refl, sym, subst, arith, ◌==◌, find, filter, length,
  inl, inr, Option-cases, count,
}
use lodgiva.Money.{nights_between}
use lodgiva.Store.{Key, IsoDate, Db, ok, Result-cases}
use lodgiva.Tax.{compute}
use lodgiva.Inventory.{
  NightAvailability, availability_of, availability_by_night, availability_row, is_sellable,
  night_of, is_taken, set_of, capacity_for_night, taken_slots,
}
use lodgiva.Restrictions.{RestrictionViolation, evaluate_restrictions}
use lodgiva.Booking.Quotes.{
  StayQuery, QuoteResult, is_plan, rules_input, refuse, night_rate, sum_rates, quote_tax_input,
  quoted_tax, fewest, price_stay, assert_range,
}

-- The price of a stay, and why it may be sold.
pub record Priced (input : StayQuery) (db : Db) (q : QuoteResult) : Type 0 where
  pub plan : find (is_plan input) db.rate_plans ≡ some q.rate_plan
  pub type : find (λ t. t.id == q.rate_plan.room_type_id) db.room_types ≡ some q.room_type
  pub fits : input.adults + input.children ≤ q.room_type.max_occupancy
  pub allowed : evaluate_restrictions (rules_input input q.rate_plan db.restrictions) ≡ []
  pub nightly :
      q.nights
      ≡ map
          (night_rate q.rate_plan.id q.room_type db.daily_rates)
          (nights_between input.arrival_date input.departure_date)
  pub base : q.base_minor ≡ sum_rates q.nights
  pub total : q.total_minor ≡ (compute db.tax_rules (quote_tax_input input q.base_minor)).total
  pub taxes :
      q.taxes ≡ map quoted_tax (compute db.tax_rules (quote_tax_input input q.base_minor)).lines
  pub left : List NightAvailability
  pub counted :
      availability_of input.tenant_id q.rate_plan.room_type_id
        (nights_between input.arrival_date input.departure_date)
        db
      ≡ ok (left, db)
  pub available : q.available_rooms ≡ fewest left

-- A date range of at most 60 nights.
pub assert_range-Range :
    (arrival departure : IsoDate) (db mid : Db) (u : Unit {0})
    → assert_range arrival departure db ≡ ok (u, mid)
    → (arrival < departure) × (length (nights_between arrival departure) ≤ 60) × (mid ≡ db)
unfolding assert_range
assert_range-Range arrival departure db mid u h = (ground arith, ground arith, ground arith)

availability_of-eq :
    (tenant_id room_type_id : Key) (dates : List IsoDate) (db : Db)
    → (ns : List NightAvailability) × (availability_of tenant_id room_type_id dates db
        ≡ ok (ns, db))
unfolding availability_of capacity_for_night taken_slots
availability_of-eq tenant_id room_type_id [] db = ([], refl)
availability_of-eq tenant_id room_type_id (d ∷ ds) db =
    let (ns, ran) = availability_of-eq tenant_id room_type_id ds db in
    (
      availability_row d
            (count (is_sellable (night_of tenant_id room_type_id d) db.blocks) db.rooms)
            (length (
              set_of (
                map (λ a. a.slot_index)
                  (filter (is_taken db.now db.holds (night_of tenant_id room_type_id d))
                    db.allocations))))
          ∷ ns,
      ground (arith, ran),
    )

refuse-nil :
    (vs : List RestrictionViolation) (db mid : Db) (u : Unit {0})
    → refuse vs db ≡ ok (u, mid)
    → (vs ≡ []) × (mid ≡ db)
refuse-nil [] db mid u h = (refl, ground arith)
refuse-nil (v ∷ vs) db mid u h = absurd (ground arith)

-- A price is worked out without a write.
pub price_stay-Priced :
    (input : StayQuery) (db : Db) (q : QuoteResult) (db' : Db)
    → price_stay input db ≡ ok (q, db')
    → Priced input db q × (db' ≡ db)
unfolding price_stay availability_by_night
price_stay-Priced input db q db' h = elim (Option-cases (find (is_plan input) db.rate_plans)) [
  | inl missing ↦ absurd (ground arith)
  | inr (plan, found) ↦ elim (Option-cases (find (λ t. t.id == plan.room_type_id) db.room_types)) [
    | inl missing ↦ absurd (ground arith)
    | inr (type, its) ↦
        let rules = rules_input input plan db.restrictions in
        elim (Result-cases (refuse (evaluate_restrictions rules) db)) [
          | inr (e, failed) ↦ absurd (ground arith)
          | inl ((u, mid), passed) ↦
              let (clear, same) = refuse-nil (evaluate_restrictions rules) db mid u passed in
              let (ns, ran) =
                availability_of-eq input.tenant_id plan.room_type_id
                  (nights_between input.arrival_date input.departure_date) db in
              let breakdown =
                map (night_rate plan.id type db.daily_rates)
                  (nights_between input.arrival_date input.departure_date) in
              let computed = compute db.tax_rules (quote_tax_input input (sum_rates breakdown)) in
              let expected : QuoteResult = record {
                rate_plan = plan;
                room_type = type;
                nights = breakdown;
                base_minor = sum_rates breakdown;
                taxes = map quoted_tax computed.lines;
                total_minor = computed.total;
                available_rooms = fewest ns;
              } in
              let fits : input.adults + input.children ≤ type.max_occupancy =
                ground (arith, found, its) in
              let facts : (q ≡ expected) × (db' ≡ db) =
                ground (arith, found, its, passed, same, ran) in
              (
                subst (λ q. Priced input db q) (sym facts.0)
                    (record {
                      plan = found;
                      type = its;
                      fits = fits;
                      allowed = clear;
                      nightly = refl;
                      base = refl;
                      total = refl;
                      taxes = refl;
                      left = ns;
                      counted = ran;
                      available = refl;
                    }),
                facts.1,
              )
        ]
  ]
]

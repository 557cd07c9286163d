-- ===== src/NightAudit/Run.antt =====
-- `run` of apps/api/src/modules/night-audit.module.ts. `iso` is the text of a date, and `Floats` has
-- the two quotients of the snapshot, which the source computes in floating point.
use lodgiva.Common.{
  ℕ, ◌+◌, Bool, true, false, ◌&&◌, not, Option, none, some, List, [], ◌∷◌, String, ◌&◌, ◌==◌, leb,
  ltb, filter, any, count, length, last?, is_id, update_where, if◌then◌else◌,
}
use lodgiva.Common.Text.{decimal}
use lodgiva.Common.Int.{ℤ, pos, ◌+ℤ◌}
use lodgiva.Money.{add_days_iso}
use lodgiva.Store.{
  Key, IsoDate, Instant, checked_in, is_open_folio, is_confirmed_payment, run_completed, AuditPhase,
  AuditWarning, number, day, Json, Room, Reservation, ReservationRoom, Folio, Payment, Property,
  NightAuditRun, Db, M, pure, gets, modify, fresh, throw_if, ◌>>=◌, ◌>>◌, conflict,
  night_audit_blocked, night_audit_warnings, night_audit_already_run,
}
use lodgiva.Access.{Auth, log, emit, assert_property}
use lodgiva.ReservationState.{same_state}
use lodgiva.Folios.{post_charge_tx}
use lodgiva.Reservations.{is_in_house, room_of_stay, night_text, is_night_charge, night_charge}
use lodgiva.NightAudit.Preflight.{Checks, is_run_of, is_empty, preflight}

-- `runSchema`
pub record RunAudit : Type 0 where
  pub property_id : Key
  pub acknowledge_warnings : Bool

-- `Math.round((a / b) * 100)` and `Math.round(a / b)`, of a `b` that is not zero
pub record Floats : Type 0 where
  pub percent : ℕ → ℕ → ℕ
  pub mean : ℤ → ℕ → ℤ

-- The row that the gate inserts, with the defaults of the table.
abbrev pub gate_row : Auth → Property → Key → NightAuditRun
gate_row auth property id = record {
  id = id;
  tenant_id = auth.tenant_id;
  property_id = property.id;
  business_date = property.business_date;
  status = run_completed;
  phase = "COMPLETED";
  steps = [];
  blockers = [];
  summary = [];
  run_by_id = none;
}

-- The gate: the unique index on the property and the date refuses a second run.
unfoldable pub claim_date : Auth → Property → M (Unit {0})
claim_date auth property = do
  throw_if (← gets (λ db. any (is_run_of property.id property.business_date) db.audit_runs))
      (conflict night_audit_already_run)
  id ← fresh
  modify (λ db. record db { audit_runs = gate_row auth property id ∷ db.audit_runs })

-- The `where` of the stays of the night.
abbrev pub is_checked_in_at : Key → Key → Reservation → Bool
is_checked_in_at property_id reservation_id r =
    r.id == reservation_id && (r.property_id == property_id && same_state r.status checked_in)

abbrev pub sleeps_tonight : Auth → Property → List Reservation → ReservationRoom → Bool
sleeps_tonight auth property reservations s =
    s.tenant_id == auth.tenant_id
    && (is_in_house s.status
        && (leb s.arrival_date property.business_date
            && (ltb property.business_date s.departure_date
                && any (is_checked_in_at property.id s.reservation_id) reservations)))

abbrev pub open_folio_of : Key → Folio → Bool
open_folio_of reservation_id f = is_id f.reservation_id reservation_id && is_open_folio f.status

-- A stay with what the query includes: its room and the first open folio of its reservation.
pub record InHouse : Type 0 where
  pub stay : ReservationRoom
  pub room : Option Room
  pub folio : Option Folio

abbrev pub tonight_row : Db → ReservationRoom → InHouse
tonight_row db s = record {
  stay = s;
  room = room_of_stay s.room_id db.rooms;
  folio = last? (filter (open_folio_of s.reservation_id) db.folios);
}

abbrev pub tonight_rows : Db → List ReservationRoom → List InHouse
tonight_rows db [] = []
tonight_rows db (s ∷ ss) = tonight_row db s ∷ tonight_rows db ss

-- `inHouse`
abbrev pub in_house_tonight : Auth → Property → Db → List InHouse
in_house_tonight auth property db =
    tonight_rows db (filter (sleeps_tonight auth property db.reservations) db.reservation_rooms)

-- `postedCount` and `roomRevenueMinor`
pub record Tally : Type 0 where
  pub posted_count : ℕ
  pub room_revenue_minor : ℤ

abbrev pub add_posted : Bool → ReservationRoom → Tally → Tally
add_posted false stay t = t
add_posted true stay t = record {
  posted_count = t.posted_count + 1;
  room_revenue_minor = stay.nightly_rate_minor +ℤ t.room_revenue_minor;
}

-- The charge of a night on a folio, unless it stands there; the result says whether it was posted.
unfoldable pub post_on : (IsoDate → String) → Auth → IsoDate → InHouse → Folio → M Bool
post_on iso auth date h folio = do
  already ← gets (λ db. any (is_night_charge folio.id (night_text iso h.room date)) db.entries)
  if already
      then pure false
      else (post_charge_tx auth folio (night_charge h.stay (night_text iso h.room date) date)
          >> pure true)

-- One round of the loop: a stay without an open folio is passed over.
unfoldable pub post_room : (IsoDate → String) → Auth → IsoDate → InHouse → M Bool
post_room iso auth date h = elim h.folio [
  | none ↦ pure false
  | some folio ↦ post_on iso auth date h folio
]

-- The loop over `inHouse`.
unfoldable pub post_rooms : (IsoDate → String) → Auth → IsoDate → List InHouse → M Tally
post_rooms iso auth date [] = pure (record { posted_count = 0; room_revenue_minor = pos 0 })
post_rooms iso auth date (h ∷ hs) = do
  posted ← post_room iso auth date h
  rest ← post_rooms iso auth date hs
  pure (add_posted posted h.stay rest)

-- `paymentsToday._sum.amountMinor ?? 0n`
abbrev pub confirmed_payments : Auth → Key → List Payment → ℤ
confirmed_payments auth property_id [] = pos 0
confirmed_payments auth property_id (p ∷ ps) =
    if p.tenant_id == auth.tenant_id
      && (p.property_id == property_id && is_confirmed_payment p.status)
    then p.amount_minor +ℤ confirmed_payments auth property_id ps
    else confirmed_payments auth property_id ps

-- `b ? f(a, b) : 0`
abbrev pub percent_of : Floats → ℕ → ℕ → ℕ
percent_of fl a b = if b == 0 then 0 else fl.percent a b

abbrev pub mean_of : Floats → ℤ → ℕ → ℤ
mean_of fl a b = if b == 0 then pos 0 else fl.mean a b

-- `summary`
abbrev pub summary_of : Floats → IsoDate → ℕ → ℕ → Tally → ℤ → List (String × Json)
summary_of fl date total_rooms occupied tally payments =
    ("businessDate", day date)
    ∷ ("totalRooms", number (pos total_rooms))
    ∷ ("occupied", number (pos occupied))
    ∷ ("occupancyPct", number (pos (percent_of fl occupied total_rooms)))
    ∷ ("roomChargesPosted", number (pos tally.posted_count))
    ∷ ("roomRevenueMinor", number tally.room_revenue_minor)
    ∷ ("adrMinor", number (mean_of fl tally.room_revenue_minor occupied))
    ∷ ("revparMinor", number (mean_of fl tally.room_revenue_minor total_rooms))
    ∷ ("confirmedPaymentsToDateMinor", number payments)
    ∷ []

-- `mark`
abbrev pub mark_phase : Instant → String → Option String → AuditPhase
mark_phase now phase detail = record { phase = phase; detail = detail; at = now }

abbrev pub phases_of : (IsoDate → String) → Instant → Checks → Tally → IsoDate → List AuditPhase
phases_of iso now checks tally next_date =
    mark_phase now "PREFLIGHT"
      (some (decimal (length checks.warnings) & " warning(s) acknowledged"))
    ∷ mark_phase now "POSTING" (some (decimal tally.posted_count & " room charge(s) posted"))
    ∷ mark_phase now "SNAPSHOT" none
    ∷ mark_phase now "ADVANCING" (some ("business date -> " & iso next_date))
    ∷ mark_phase now "COMPLETED" none
    ∷ []

abbrev pub dated : IsoDate → Property → Property
dated date p = record p { business_date = date }

abbrev pub completed_run :
    Auth
    → List (String × Json)
    → List AuditPhase
    → List AuditWarning
    → NightAuditRun
    → NightAuditRun
completed_run auth summary phases warnings r = record r {
  summary = summary;
  phase = "COMPLETED";
  status = run_completed;
  steps = phases;
  blockers = warnings;
  run_by_id = some auth.user_id;
}

-- What `run` returns.
pub record AuditReport : Type 0 where
  pub summary : List (String × Json)
  pub new_business_date : IsoDate
  pub phases : List AuditPhase
  pub acknowledged_warnings : List AuditWarning

-- The snapshot and the advance of the date.
unfoldable pub close_day :
    (IsoDate → String) → Floats → Auth → Property → Checks → ℕ → Tally → M AuditReport
unfolding log emit add_days_iso
close_day iso fl auth property checks occupied tally = do
  total_rooms ←
      gets
        (λ db. count (λ r. r.tenant_id == auth.tenant_id && r.property_id == property.id) db.rooms)
  payments ← gets (λ db. confirmed_payments auth property.id db.payments)
  now ← gets (λ db. db.now)
  let date = property.business_date
  let summary = summary_of fl date total_rooms occupied tally payments
  let next_date = add_days_iso date 1
  let phases = phases_of iso now checks tally next_date
  modify (λ db. record db {
    properties = update_where (λ p. p.id == property.id) (dated next_date) db.properties;
  })
  modify (λ db. record db {
    audit_runs =
        update_where (is_run_of property.id date)
          (completed_run auth summary phases checks.warnings) db.audit_runs;
  })
  log auth "night_audit.run" "property" property.id (some property.id) summary
  emit auth.tenant_id "property" property.id "night_audit.completed" summary
  pure (record {
    summary = summary;
    new_business_date = next_date;
    phases = phases;
    acknowledged_warnings = checks.warnings;
  })

-- The transaction of `run`.
unfoldable pub audit_day : (IsoDate → String) → Floats → Auth → Property → Checks → M AuditReport
unfolding claim_date close_day
audit_day iso fl auth property checks = do
  claim_date auth property
  in_house ← gets (in_house_tonight auth property)
  tally ← post_rooms iso auth property.business_date in_house
  close_day iso fl auth property checks (length in_house) tally

-- `run`
unfoldable pub run : (IsoDate → String) → Floats → Auth → RunAudit → M AuditReport
unfolding assert_property preflight audit_day
run iso fl auth dto = do
  property ← assert_property auth dto.property_id
  checks ← preflight auth dto.property_id
  throw_if (not checks.can_run) (conflict night_audit_blocked)
  throw_if (not (is_empty checks.warnings) && not dto.acknowledge_warnings)
      (conflict night_audit_warnings)
  audit_day iso fl auth property checks

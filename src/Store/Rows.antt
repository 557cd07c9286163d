-- ===== src/Store/Rows.antt =====
-- Rows of packages/database/prisma/schema.prisma, with the columns that the modelled services read
-- or write, and the tables. A table is a list, its newest row first.
use lodgiva.Common.{ℕ, Bool, String, Option, List}
use lodgiva.Common.Int.{ℤ}
use lodgiva.Store.Values.{
  Key, IsoDate, Instant, EntryType, FolioStatus, ReservationState, StayStatus, HoldStatus,
  RateSource, RoomStatus, TaskStatus, ShiftStatus, MovementType, ApprovalType, ApprovalStatus,
  OrderStatus, RequestPayload, Settlement, PaymentMethod, PaymentStatus, RunStatus, AuditPhase,
  AuditWarning, Scope, Basis, Json, TaxRuleRef,
}

pub record Property : Type 0 where
  pub id : Key
  pub tenant_id : Key
  pub business_date : IsoDate

pub record Room : Type 0 where
  pub id : Key
  pub tenant_id : Key
  pub property_id : Key
  pub room_type_id : Key
  pub room_number : String
  pub floor : ℕ
  pub operational_status : RoomStatus

pub record RoomType : Type 0 where
  pub id : Key
  pub tenant_id : Key
  pub property_id : Key
  pub code : String
  pub name : String
  pub max_occupancy : ℕ
  pub base_rate_minor : ℤ

pub record Guest : Type 0 where
  pub id : Key
  pub tenant_id : Key
  pub first_name : String
  pub last_name : String

pub record HousekeepingTask : Type 0 where
  pub id : Key
  pub tenant_id : Key
  pub property_id : Key
  pub room_id : Key
  pub business_date : IsoDate
  pub type : String
  pub priority : String
  pub assigned_to : Option String
  pub assigned_user_id : Option Key
  pub notes : Option String
  pub status : TaskStatus
  pub started_at : Option Instant
  pub completed_at : Option Instant
  pub version : ℕ

-- A member of the staff; `full_name` is a column of its user.
pub record Membership : Type 0 where
  pub tenant_id : Key
  pub user_id : Key
  pub is_active_member : Bool
  pub full_name : String

pub record RoomBlock : Type 0 where
  pub tenant_id : Key
  pub room_id : Key
  pub is_in_force : Bool
  pub start_date : IsoDate
  pub end_date : IsoDate

pub record RatePlan : Type 0 where
  pub id : Key
  pub tenant_id : Key
  pub property_id : Key
  pub room_type_id : Key
  pub code : String
  pub name : String
  pub refundable : Bool
  pub min_stay : ℕ
  pub is_active_plan : Bool

pub record DailyRate : Type 0 where
  pub rate_plan_id : Key
  pub date : IsoDate
  pub rate_minor : ℤ

pub record RateRestriction : Type 0 where
  pub rate_plan_id : Key
  pub date : IsoDate
  pub closed : Bool
  pub closed_to_arrival : Bool
  pub closed_to_departure : Bool
  pub min_stay : Option ℕ
  pub max_stay : Option ℕ
  pub min_advance_days : Option ℤ

-- A night of a quote, and a tax of it.
pub record NightRate : Type 0 where
  pub date : IsoDate
  pub rate_minor : ℤ
  pub source : RateSource

pub record QuotedTax : Type 0 where
  pub code : String
  pub name : String
  pub amount_minor : ℤ
  pub rule_version : ℕ

-- `quotedBreakdown` is the text of its nights and taxes.
pub record Hold : Type 0 where
  pub id : Key
  pub tenant_id : Key
  pub property_id : Key
  pub room_type_id : Key
  pub rate_plan_id : Option Key
  pub token_hash : String
  pub arrival_date : IsoDate
  pub departure_date : IsoDate
  pub adults : ℕ
  pub children : ℕ
  pub quoted_total_minor : ℤ
  pub quoted_nights : List NightRate
  pub quoted_taxes : List QuotedTax
  pub status : HoldStatus
  pub expires_at : Instant
  pub released_at : Option Instant

-- RoomNightAllocation
pub record Allocation : Type 0 where
  pub id : Key
  pub tenant_id : Key
  pub property_id : Key
  pub room_type_id : Key
  pub date : IsoDate
  pub slot_index : ℕ
  pub hold_id : Option Key
  pub reservation_room_id : Option Key

pub record Reservation : Type 0 where
  pub id : Key
  pub tenant_id : Key
  pub property_id : Key
  pub confirmation_code : List ℕ  -- its code points
  pub primary_guest_id : Key
  pub source : String
  pub status : ReservationState
  pub arrival_date : IsoDate
  pub departure_date : IsoDate
  pub adults : ℕ
  pub children : ℕ
  pub notes : Option String
  pub version : ℕ

pub record ReservationRoom : Type 0 where
  pub id : Key
  pub tenant_id : Key
  pub reservation_id : Key
  pub room_type_id : Key
  pub room_id : Option Key
  pub arrival_date : IsoDate
  pub departure_date : IsoDate
  pub adults : ℕ
  pub children : ℕ
  pub nightly_rate_minor : ℤ
  pub status : StayStatus

pub record Folio : Type 0 where
  pub id : Key
  pub tenant_id : Key
  pub property_id : Key
  pub reservation_id : Option Key
  pub guest_id : Key
  pub label : String
  pub is_primary : Bool
  pub status : FolioStatus

pub record FolioEntry : Type 0 where
  pub id : Key
  pub tenant_id : Key
  pub folio_id : Key
  pub type : EntryType
  pub description : String
  pub amount_minor : ℤ
  pub tax_code : Option String
  pub tax_rule_id : Option TaxRuleRef
  pub tax_rule_version : Option ℕ
  pub transfer_group_id : Option Key
  pub reversal_of_id : Option Key
  pub business_date : IsoDate
  pub posted_by_id : Key

pub record TaxRule : Type 0 where
  pub id : Key
  pub tenant_id : Key
  pub property_id : Key
  pub code : String
  pub name : String
  pub rate_bp : ℕ
  pub applies_to : Scope
  pub basis : Basis
  pub compound_order : ℕ
  pub tax_on_service_charge : Bool
  pub version : ℕ
  pub effective_from : IsoDate
  pub effective_to : Option IsoDate

pub record CashierShift : Type 0 where
  pub id : Key
  pub tenant_id : Key
  pub property_id : Key
  pub shift_number : ℕ
  pub user_id : Key
  pub status : ShiftStatus
  pub opening_float_minor : ℕ
  pub counted_minor : Option ℤ
  pub expected_minor : Option ℤ
  pub variance_minor : Option ℤ
  pub variance_reason : Option String
  pub approved_by_id : Option Key

pub record CashMovement : Type 0 where
  pub id : Key
  pub tenant_id : Key
  pub shift_id : Key
  pub type : MovementType
  pub amount_minor : ℤ
  pub reference : Option String
  pub note : Option String
  pub recorded_by_id : Key

pub record ApprovalRequest : Type 0 where
  pub id : Key
  pub tenant_id : Key
  pub property_id : Key
  pub type : ApprovalType
  pub entity_type : String
  pub entity_id : Key
  pub amount_minor : Option ℤ
  pub reason : String
  pub payload : RequestPayload
  pub status : ApprovalStatus
  pub requested_by_id : Key
  pub decided_by_id : Option Key
  pub decision_note : Option String

pub record PosOrder : Type 0 where
  pub id : Key
  pub tenant_id : Key
  pub property_id : Key
  pub outlet_id : Key
  pub order_number : String
  pub status : OrderStatus
  pub settlement : Option Settlement
  pub folio_id : Option Key
  pub table_ref : Option String
  pub subtotal_minor : ℤ
  pub service_minor : ℤ
  pub tax_minor : ℤ
  pub total_minor : ℤ
  pub business_date : IsoDate
  pub shift_id : Option Key
  pub void_reason : Option String
  pub void_request_id : Option Key
  pub opened_by_id : Key
  pub settled_at : Option Instant
  pub created_at : Instant

pub record PosOrderLine : Type 0 where
  pub id : Key
  pub tenant_id : Key
  pub order_id : Key
  pub menu_item_id : Key
  pub description : String
  pub quantity : ℕ
  pub unit_minor : ℤ
  pub line_minor : ℤ

pub record Outlet : Type 0 where
  pub id : Key
  pub tenant_id : Key
  pub property_id : Key
  pub code : String
  pub name : String

pub record MenuItem : Type 0 where
  pub id : Key
  pub tenant_id : Key
  pub outlet_id : Key
  pub name : String
  pub price_minor : ℤ
  pub is_on_sale : Bool  -- `active`

pub record Payment : Type 0 where
  pub id : Key
  pub tenant_id : Key
  pub property_id : Key
  pub folio_id : Key
  pub method : PaymentMethod
  pub provider : String
  pub amount_minor : ℤ
  pub status : PaymentStatus
  pub external_reference : Option String
  pub idempotency_key : Option String
  pub recorded_by_id : Key

-- `steps`, `blockers` and `summary` as they are before JSON.stringify
pub record NightAuditRun : Type 0 where
  pub id : Key
  pub tenant_id : Key
  pub property_id : Key
  pub business_date : IsoDate
  pub status : RunStatus
  pub phase : String
  pub steps : List AuditPhase
  pub blockers : List AuditWarning
  pub summary : List (String × Json)
  pub run_by_id : Option Key

pub record AuditEvent : Type 0 where
  pub tenant_id : Key
  pub property_id : Option Key
  pub actor_id : Key
  pub action : String
  pub entity_type : String
  pub entity_id : Key
  pub summary : List (String × Json)

pub record OutboxEvent : Type 0 where
  pub tenant_id : Key
  pub aggregate_type : String
  pub aggregate_id : Key
  pub event_type : String
  pub payload : List (String × Json)

-- The tables, the clock, and the supply of fresh ids.
pub record Db : Type 0 where
  pub properties : List Property
  pub rooms : List Room
  pub room_types : List RoomType
  pub rate_plans : List RatePlan
  pub daily_rates : List DailyRate
  pub restrictions : List RateRestriction
  pub guests : List Guest
  pub memberships : List Membership
  pub tasks : List HousekeepingTask
  pub blocks : List RoomBlock
  pub holds : List Hold
  pub allocations : List Allocation
  pub reservations : List Reservation
  pub reservation_rooms : List ReservationRoom
  pub folios : List Folio
  pub entries : List FolioEntry
  pub tax_rules : List TaxRule
  pub shifts : List CashierShift
  pub movements : List CashMovement
  pub approvals : List ApprovalRequest
  pub orders : List PosOrder
  pub order_lines : List PosOrderLine
  pub outlets : List Outlet
  pub menu_items : List MenuItem
  pub payments : List Payment
  pub audit_runs : List NightAuditRun
  pub audit_events : List AuditEvent
  pub outbox : List OutboxEvent
  pub now : Instant
  pub next_id : Key

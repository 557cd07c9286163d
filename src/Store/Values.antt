-- ===== src/Store/Values.antt =====
-- The string enumerations of packages/database/prisma/schema.prisma, and the tests on them that
-- the services make. Ids are uuids, which are only compared: natural numbers here.
use lodgiva.Common.{ℕ, List, Bool, true, false, Option, String}
use lodgiva.Common.Int.{ℤ}

abbrev pub Key : Type 0
Key = ℕ

-- A valid ISO date, as the number of its day: on valid dates the order of the strings, which the
-- program compares, is the order of the days.
abbrev pub IsoDate : Type 0
IsoDate = ℕ

-- A `Date` as milliseconds.
abbrev pub Instant : Type 0
Instant = ℕ

-- FolioEntry.type
pub data EntryType : Type 0 where
  room_charge pos_charge laundry minibar other_charge : EntryType
  service_charge tax discount payment refund reversal : EntryType

abbrev pub is_reversal : EntryType → Bool
is_reversal reversal = true
is_reversal _ = false

abbrev pub is_room_charge : EntryType → Bool
is_room_charge room_charge = true
is_room_charge _ = false

-- Folio.status
pub data FolioStatus : Type 0 where
  open_folio closed_folio : FolioStatus

abbrev pub is_open_folio : FolioStatus → Bool
is_open_folio open_folio = true
is_open_folio closed_folio = false

-- Reservation.status, `RESERVATION_STATES`
pub data ReservationState : Type 0 where
  draft held pending_payment confirmed checked_in checked_out cancelled no_show : ReservationState

-- ReservationRoom.status
pub data StayStatus : Type 0 where
  reserved in_house departed released : StayStatus

-- Hold.status
pub data HoldStatus : Type 0 where
  active consumed hold_released expired : HoldStatus

abbrev pub is_active : HoldStatus → Bool
is_active active = true
is_active _ = false

-- Where the price of a night comes from: `CALENDAR` or `BASE`.
pub data RateSource : Type 0 where
  calendar base_rate : RateSource

-- Room.operationalStatus
pub data RoomStatus : Type 0 where
  vacant_clean vacant_dirty inspected occupied_clean occupied_dirty : RoomStatus
  out_of_order out_of_service : RoomStatus

-- `["OUT_OF_ORDER", "OUT_OF_SERVICE"].includes(status)`
abbrev pub is_out : RoomStatus → Bool
is_out out_of_order = true
is_out out_of_service = true
is_out _ = false

-- `operationalStatus.startsWith("OCCUPIED")`
abbrev pub is_occupied : RoomStatus → Bool
is_occupied occupied_clean = true
is_occupied occupied_dirty = true
is_occupied _ = false

-- HousekeepingTask.status
pub data TaskStatus : Type 0 where
  task_pending task_in_progress task_completed task_inspected : TaskStatus

-- CashierShift.status
pub data ShiftStatus : Type 0 where
  shift_open shift_closed shift_pending : ShiftStatus

abbrev pub is_shift_open : ShiftStatus → Bool
is_shift_open shift_open = true
is_shift_open _ = false

abbrev pub is_shift_closed : ShiftStatus → Bool
is_shift_closed shift_closed = true
is_shift_closed _ = false

abbrev pub is_shift_pending : ShiftStatus → Bool
is_shift_pending shift_pending = true
is_shift_pending _ = false

-- CashMovement.type
pub data MovementType : Type 0 where
  payment_in refund_out drop_to_safe petty_cash_out float_in : MovementType

-- ApprovalRequest.type: the two that the code raises, and any other
pub data ApprovalType : Type 0 where
  discount_request pos_void other_request : ApprovalType

-- ApprovalRequest.payload, the object that `JSON.parse` reads back: the folio and the amount of a
-- discount, or the order of a void.
pub data RequestPayload : Type 0 where
  of_discount : Key → ℕ → RequestPayload
  of_void : Key → String → RequestPayload

-- ApprovalRequest.status
pub data ApprovalStatus : Type 0 where
  pending approved rejected : ApprovalStatus

abbrev pub is_pending : ApprovalStatus → Bool
is_pending pending = true
is_pending _ = false

-- PosOrder.status
pub data OrderStatus : Type 0 where
  order_open void_pending settled voided : OrderStatus

abbrev pub is_order_open : OrderStatus → Bool
is_order_open order_open = true
is_order_open _ = false

abbrev pub is_settled : OrderStatus → Bool
is_settled settled = true
is_settled _ = false

abbrev pub is_voided : OrderStatus → Bool
is_voided voided = true
is_voided _ = false

abbrev pub is_void_pending : OrderStatus → Bool
is_void_pending void_pending = true
is_void_pending _ = false

-- PosOrder.settlement
pub data Settlement : Type 0 where
  room_posting cash card pos_terminal transfer_in : Settlement

-- Payment.method, of the payments that are recorded by hand
pub data PaymentMethod : Type 0 where
  by_cash by_bank_transfer by_pos_terminal : PaymentMethod

-- Payment.status
pub data PaymentStatus : Type 0 where
  payment_pending payment_confirmed payment_failed payment_refunded : PaymentStatus

abbrev pub is_confirmed_payment : PaymentStatus → Bool
is_confirmed_payment payment_confirmed = true
is_confirmed_payment _ = false

-- NightAuditRun.status
pub data RunStatus : Type 0 where
  run_completed run_failed : RunStatus

abbrev pub is_completed_run : RunStatus → Bool
is_completed_run run_completed = true
is_completed_run run_failed = false

-- An element of NightAuditRun.steps, whose `ok` is always true
pub record AuditPhase : Type 0 where
  pub phase : String
  pub detail : Option String
  pub at : Instant

-- The `code` and the `count` of a warning before the day is closed.
pub data AuditWarning : Type 0 where
  shifts_awaiting_approval due_out_still_in_house unarrived_bookings : ℕ → AuditWarning

-- TaxRule.appliesTo and the kind of a charge
pub data Scope : Type 0 where
  scope_all scope_room scope_fb : Scope

-- TaxRule.basis
pub data Basis : Type 0 where
  exclusive inclusive : Basis

abbrev pub is_inclusive : Basis → Bool
is_inclusive inclusive = true
is_inclusive exclusive = false

-- FolioEntry.taxRuleId: the id of a rule, or `default:CODE`
pub data TaxRuleRef : Type 0 where
  tax_rule : Key → TaxRuleRef
  default_rule : String → TaxRuleRef

-- A value of an audit summary or of an event's payload, before `JSON.stringify`. An object within is
-- written out as its fields, under keys with dots; `span` is the text of two dates and an arrow.
pub data Json : Type 0 where
  text : String → Json
  number : ℤ → Json
  ident : Key → Json
  day : IsoDate → Json
  code_points : List ℕ → Json
  span : IsoDate → IsoDate → Json
  truth : Bool → Json
  missing : Json

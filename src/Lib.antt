-- ===== src/Lib.antt =====
-- Verification library of the Lodgiva hotel management API (apps/api/src).
--
-- The API is a set of NestJS services over one relational database, which Prisma reads and writes. A
-- request carries an authenticated user; a service method reads rows, checks guards, which throw an
-- exception, and writes rows, an audit event and an event of the outbox. The library models the
-- services as functions of the database.
--
-- Store: the database. Store/Values has the enumerations and Store/Rows the rows and tables of
-- packages/database/prisma/schema.prisma, with the columns that the modelled services use.
-- Store/Monad has the type of a method, from a database to a result with a new database or an
-- exception. A request runs in one transaction (apps/api/src/prisma.service.ts), so an exception
-- drops every write: the error case carries no database.
-- Access: the claims of a user (apps/api/src/common/auth.ts), the scope of properties
-- (apps/api/src/modules/properties.module.ts, assertProperty), and the audit and outbox rows
-- (apps/api/src/common/audit.service.ts), which every service below writes through `log` and `emit`.
-- Permissions: apps/api/src/common/permissions.ts and permissions.guard.ts.
-- ReservationState: the life of a reservation, apps/api/src/common/reservation-state.ts.
-- Money: apps/api/src/common/money.ts, default tax lines and the arithmetic of dates.
-- Tax: the tax engine, apps/api/src/common/tax.service.ts.
-- Folios: the ledger of a stay, apps/api/src/modules/folios.module.ts, which asks Tax for the lines
-- of a charge.
-- Payments: the payments that staff record, apps/api/src/modules/payments.module.ts, which lower the
-- balance of a folio.
-- Cashiering: the shifts of the cash drawers, apps/api/src/modules/cashiering.module.ts.
-- Approvals: discounts and the decisions on requests, apps/api/src/modules/approvals.module.ts, which
-- post to the ledger of Folios and ask Permissions for the role. The payload of a request is a data
-- type with a case for each writer of it.
-- Pos: the orders of the outlets, apps/api/src/modules/pos.module.ts. Pos/Orders opens an order,
-- Pos/Settlement settles it on a folio of Folios or in a drawer of Cashiering, and Pos/Voiding voids
-- it by the rule of Restrictions or raises a request that Approvals decides; Pos/Life puts these
-- operations in sequence.
-- Inventory: the slots of the room-nights, apps/api/src/common/inventory.service.ts, which take the
-- nights of a stay from Money.
-- ConfirmationCode: the codes of reservations, apps/api/src/common/confirmation-code.ts.
-- Restrictions: the selling restrictions (apps/api/src/common/restrictions.ts) and the rule on the
-- voids of an order (apps/api/src/common/pos-void.ts).
-- Reservations: ReservationsService of apps/api/src/modules/reservations.module.ts: create, checkIn,
-- postStayedNights, checkOut, roomMove, extendStay, modify, assignRoom, cancel and noShow. They ask
-- ReservationState for the legal transitions, Inventory for the nights, Folios for the charges and
-- ConfirmationCode for a code, and create redeems a hold by consumeHoldTx of
-- apps/api/src/modules/booking.module.ts. Reservations/House says what each operation may do to the
-- reservations and their stays, and Reservations/Steps puts the operations in sequence.
-- Booking: the quotes and holds of apps/api/src/modules/booking.module.ts. A quote is priced from the
-- calendar, checked by Restrictions, taxed by Tax and counted by Inventory, which also claims the
-- nights of a hold.
-- NightAudit: the close of the day, apps/api/src/modules/night-audit.module.ts, which counts what is
-- open in the tables of Cashiering, Pos and Reservations, charges the nights through Folios and moves
-- the business date on.
-- Housekeeping: create, assign and advance of apps/api/src/modules/housekeeping.module.ts, which
-- hand a task to a member of staff and move it on with its room, and queueAssignment of
-- apps/api/src/modules/push.module.ts.
-- Common: shared notation, integers, texts, sorting and searching of lists.
--
-- In each of these parts the file named for it holds the definitions, or passes on those of its
-- child modules, under the source's function names in snake case; the other children hold lemmas, and
-- Tests runs the operations on small databases.
--
-- Choices of the model:
-- - An id is a natural number, and a fresh one (a uuid in the program) comes from a counter of the
--   database. Ids are only compared.
-- - A valid ISO date is the number of its day, so that the order of the texts, which the program
--   compares, is the order of the numbers. A `Date` is a number of milliseconds; `now` is a field of
--   the database.
-- - A `bigint` is an integer without bound, as in the program. Its division truncates towards zero.
-- - A table is a list with its newest row first. Where a query leaves the order of equal rows open,
--   they stand in the order of the table.
-- - The body of a request is the value that its zod schema lets through, a record here.
-- - The summary of an audit event and the payload of an outbox event are lists of named values, as
--   they are before JSON.stringify.
-- - `rooms[0]` and `folios[0]` of a reservation, whose order the query leaves open, are the rows that
--   were created first. Where there is none, reading a field throws.
-- - What stands outside the program is a parameter: the text of a date (`iso`), of code points
--   (`spell`) and of an id (`id_text`), the order of texts in the database (`before`), the hash
--   (`sha256`), the numbers of the random source (`rand`) and the token that it draws, the minutes of
--   a hold, which the environment sets, and the floating-point quotients in the snapshot of a day
--   (`Floats`).
-- - A confirmation code is the list of its code points; what a guest types is ASCII.
-- - checkOut has two transactions, so a refusal of it returns a database too: the one with the nights
--   that the first has posted. modify reads its reservation before its transaction, in one state here.
-- - A unique index refuses an insert where a row with that key stands in the table.
-- - nights_between walks on fuel; the departure's day number is enough of it, since the walk starts
--   at the arrival and goes one day at a time. The loop over the slots of a night is by recursion on
--   the number of slots left, so it needs no fuel. The draw of a code makes the six attempts that the
--   source allows.
--
-- Not modelled: controllers and modules of NestJS, which only pass arguments on; reads that list rows
-- for a screen, among them the loops of booking over the plans of a property; the wording of error
-- messages, save the refusal of a transition; rates, invoices and settlement files, maintenance,
-- accounts, reports, files and the other services of apps/api/src/modules; the web applications, the
-- worker and the documentation site. The
-- retries of a transaction, its locks and the in-process mutex are left out: two requests at once are
-- not interleaved inside a transaction, and a method runs from one state to the next.
pub mod Common
pub mod Store
pub mod Permissions
pub mod ReservationState
pub mod Access
pub mod Money
pub mod Tax
pub mod Folios
pub mod Payments
pub mod Cashiering
pub mod Approvals
pub mod Pos
pub mod Inventory
pub mod ConfirmationCode
pub mod Restrictions
pub mod Reservations
pub mod Booking
pub mod NightAudit
pub mod Housekeeping

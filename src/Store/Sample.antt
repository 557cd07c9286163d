-- ===== src/Store/Sample.antt =====
-- A database with no rows, from which the tests build theirs.
use lodgiva.Common.{[]}
use lodgiva.Store.Rows.{Db}

abbrev pub empty_db : Db
empty_db = record {
  properties = [];
  rooms = [];
  room_types = [];
  rate_plans = [];
  daily_rates = [];
  restrictions = [];
  guests = [];
  memberships = [];
  tasks = [];
  blocks = [];
  holds = [];
  allocations = [];
  reservations = [];
  reservation_rooms = [];
  folios = [];
  entries = [];
  tax_rules = [];
  shifts = [];
  movements = [];
  approvals = [];
  orders = [];
  order_lines = [];
  outlets = [];
  menu_items = [];
  payments = [];
  audit_runs = [];
  audit_events = [];
  outbox = [];
  now = 1000;
  next_id = 100;
}

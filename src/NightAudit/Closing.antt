-- ===== src/NightAudit/Closing.antt =====
-- The transaction that closes a day.
use lodgiva.Common.{
  ℕ, ◌+◌, Bool, true, false, ◌&&◌, some, List, [], ◌∷◌, String, ◌≡◌, refl, sym, ◌∙◌, ap, subst,
  arith, ◌==◌, count, any, length, update_where, All,
}
use lodgiva.Common.Sorting.{All-map}
use lodgiva.Reservations.{night_text, is_night_charge}
use lodgiva.Store.{Key, IsoDate, NightAuditRun, Property, FolioEntry, Db, ok}
use lodgiva.Access.{Auth}
use lodgiva.NightAudit.Preflight.{
  Checks, checks_of, is_run_of, is_empty, blockers_of, warnings_of, open_shift_at, open_order_at,
  pending_void_at,
}
use lodgiva.NightAudit.Run.{
  confirmed_payments, InHouse, Floats, AuditReport, Tally, gate_row, completed_run, summary_of,
  phases_of, dated, in_house_tonight, close_day, audit_day,
}
use lodgiva.NightAudit.Posting.{NightCharged, post_rooms-Charged, tonight_rows-Billable}

-- Nothing that would be lost overnight is left: no open drawer, no open order, no void undecided.
pub record Finished (auth : Auth) (property_id : Key) (db : Db) : Type 0 where
  pub shifts : count (open_shift_at auth property_id) db.shifts ≡ 0
  pub orders : count (open_order_at auth property_id) db.orders ≡ 0
  pub voids : count (pending_void_at auth property_id) db.orders ≡ 0

pub blockers_none :
    (auth : Auth) (property_id : Key) (date : IsoDate) (db : Db)
    → is_empty (blockers_of auth property_id date db) ≡ true
    → Finished auth property_id db
blockers_none auth property_id date db h = record {
  shifts = ground arith;
  orders = ground arith;
  voids = ground arith;
}

pub empty_list : {A : Type 0} (l : List A) → is_empty l ≡ true → l ≡ []
empty_list [] h = refl
empty_list (x ∷ l) h = cc

-- The writes of the close itself.
close_day_writes :
    (iso : IsoDate → String) (fl : Floats) (auth : Auth) (property : Property) (checks : Checks)
    (occupied : ℕ) (tally : Tally) (db : Db)
    → (report : AuditReport) × (db' : Db) × (f : NightAuditRun → NightAuditRun) × (close_day iso fl
          auth property checks occupied tally db
        ≡ ok (report, db'))
      × (report.new_business_date ≡ property.business_date + 1)
      × ((r : NightAuditRun)
          → ((f r).property_id ≡ r.property_id)
            × ((f r).business_date ≡ r.business_date)
            × ((f r).run_by_id ≡ some auth.user_id)
            × ((f r).blockers ≡ checks.warnings))
      × (db'.audit_runs
          ≡ update_where (is_run_of property.id property.business_date) f db.audit_runs)
      × (db'.properties
          ≡ update_where
              (λ p. p.id == property.id)
              (dated (property.business_date + 1))
              db.properties)
      × (db'.entries ≡ db.entries)
      × (db'.reservations ≡ db.reservations)
      × (db'.reservation_rooms ≡ db.reservation_rooms)
      × (db'.folios ≡ db.folios)
      × (db'.movements ≡ db.movements)
      × (db'.rooms ≡ db.rooms)
unfolding close_day
close_day_writes iso fl auth property checks occupied tally db = (
  _,
  _,
  completed_run auth
      (summary_of fl property.business_date
        (count (λ r. r.tenant_id == auth.tenant_id && r.property_id == property.id) db.rooms)
        occupied tally (confirmed_payments auth property.id db.payments))
      (phases_of iso db.now checks tally (property.business_date + 1)) checks.warnings,
  refl,
  refl,
  λ r. (refl, refl, refl, refl),
  refl,
  refl,
  refl,
  refl,
  refl,
  refl,
  refl,
  refl,
)

-- The day of a property was closed.
pub record Audited (iso : IsoDate → String) (auth : Auth) (property : Property) (db : Db)
    (report : AuditReport) (db' : Db) : Type 0 where
  pub row : NightAuditRun
  pub first_run : any (is_run_of property.id property.business_date) db.audit_runs ≡ false
  pub reported : report.new_business_date ≡ property.business_date + 1
  pub row_property : row.property_id ≡ property.id
  pub row_date : row.business_date ≡ property.business_date
  pub row_by : row.run_by_id ≡ some auth.user_id
  pub row_warnings : row.blockers ≡ warnings_of auth property.id property.business_date db
  pub runs : db'.audit_runs ≡ row ∷ db.audit_runs
  pub date :
      db'.properties
      ≡ update_where (λ p. p.id == property.id) (dated (property.business_date + 1)) db.properties
  pub charged :
      All (NightCharged iso auth property.business_date db') (in_house_tonight auth property db)
  pub standing : (p : FolioEntry → Bool) → any p db.entries ≡ true → any p db'.entries ≡ true
  pub reservations : db'.reservations ≡ db.reservations
  pub stays : db'.reservation_rooms ≡ db.reservation_rooms
  pub folios : db'.folios ≡ db.folios
  pub movements : db'.movements ≡ db.movements
  pub rooms : db'.rooms ≡ db.rooms

update_none :
    {A : Type 0} (p : A → Bool) (f : A → A) (l : List A) → any p l ≡ false → update_where p f l ≡ l
update_none p f [] h = refl
update_none p f (x ∷ l) h =
    let miss : p x ≡ false = ground arith in
    let rest : any p l ≡ false = ground arith in rw (miss, update_none p f l rest) refl

-- Of the rows of a date only the new one is completed.
first_row :
    (property_id : Key) (date : IsoDate) (gate : NightAuditRun) (f : NightAuditRun → NightAuditRun)
    (l : List NightAuditRun)
    → gate.property_id ≡ property_id
    → gate.business_date ≡ date
    → any (is_run_of property_id date) l ≡ false
    → update_where (is_run_of property_id date) f (gate ∷ l) ≡ f gate ∷ l
first_row property_id date gate f l p d free =
    let hit : is_run_of property_id date gate ≡ true = ground (arith, p, d) in
    rw (hit, update_none (is_run_of property_id date) f l free) refl

NightCharged-same :
    (iso : IsoDate → String) (auth : Auth) (date : IsoDate) (mid db' : Db) (hs : List InHouse)
    → db'.entries ≡ mid.entries
    → All (NightCharged iso auth date mid) hs
    → All (NightCharged iso auth date db') hs
NightCharged-same iso auth date mid db' hs same =
    All-map (NightCharged iso auth date mid)
      (λ h c folio e.
        subst (λ l. any (is_night_charge folio.id (night_text iso h.room date)) l ≡ true) (sym same)
          (c folio e))
      hs

-- The transaction ends, where the date has not been claimed before.
pub audit_day-Audited :
    (iso : IsoDate → String) (fl : Floats) (auth : Auth) (property : Property) (db : Db)
    → any (is_run_of property.id property.business_date) db.audit_runs ≡ false
    → (report : AuditReport) × (db' : Db) × (audit_day iso fl auth property
          (checks_of auth property db)
          db
        ≡ ok (report, db'))
      × Audited iso auth property db report db'
unfolding audit_day
audit_day-Audited iso fl auth property db free =
    let gate = gate_row auth property db.next_id in
    let claimed : Db = record db { next_id = db.next_id + 1; audit_runs = gate ∷ db.audit_runs } in
    let checks = checks_of auth property db in
    let hs = in_house_tonight auth property db in
    let (tally, posted, ran, kept, charged) =
      post_rooms-Charged iso auth property.business_date hs claimed (tonight_rows-Billable db _) in
    let (report, end, f, closed, reported, keeps, runs, dates, es, rs, ss, fs, ms, rooms) =
      close_day_writes iso fl auth property checks (length hs) tally posted in
    (
      report,
      end,
      ground (arith, free, ran, closed),
      record {
        row = f gate;
        first_run = free;
        reported = reported;
        row_property = (keeps gate).0;
        row_date = (keeps gate).1;
        row_by = (keeps gate).2;
        row_warnings = (keeps gate).3;
        runs =
            runs
            ∙ ap (λ l. update_where (is_run_of property.id property.business_date) f l)
                kept.audit_runs
            ∙ first_row property.id property.business_date gate f db.audit_runs refl refl free;
        date =
            dates
            ∙ ap
                (λ l.
                  update_where (λ p. p.id == property.id) (dated (property.business_date + 1)) l)
                kept.properties;
        charged = NightCharged-same iso auth property.business_date posted end hs es charged;
        standing = λ p h. rw es (kept.standing p h);
        reservations = rs ∙ kept.reservations;
        stays = ss ∙ kept.stays;
        folios = fs ∙ kept.folios;
        movements = ms ∙ kept.movements;
        rooms = rooms ∙ kept.rooms;
      },
    )

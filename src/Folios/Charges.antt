-- ===== src/Folios/Charges.antt =====
-- What a posted charge does to the balances.
use mathlib.Core.Path.{subst₂}
use lodgiva.Common.{
  ◌+◌, Bool, true, false, List, [], ◌∷◌, ◌≡◌, ◌≢◌, refl, sym, ◌∙◌, ap, subst, arith, inl, inr,
  Bool-cases, if◌then◌else◌, All,
}
use lodgiva.Common.Int.{ℤ, pos, ◌+ℤ◌, int_laws}
use lodgiva.Store.{
  Key, Folio, FolioEntry, open_folio, closed_folio, inclusive, exclusive, TaxRule, Db, ok, err,
  bad_request, folio_closed, when,
}
use lodgiva.Access.{Auth, log, emit}
use lodgiva.Tax.{TaxLine, TaxInput, compute, sum_lines, ordered_rules}
use lodgiva.Tax.Exclusive.{exclusive_base}
use lodgiva.Tax.Reconcile.{inclusive_total}
use lodgiva.Folios.Entries.{balance, create_entry}
use lodgiva.Folios.Operations.{
  Charge, tax_input, tax_row, charge_row, post_tax_lines, post_charge_tx, announce,
}
use lodgiva.Folios.Balance.{balance-cons_self, balance-cons_ne}

-- A ledger has grown by `amount` on the folio `f` alone.
pub record Grows (f : Key) (amount : ℤ) (l l' : List FolioEntry) : Type 0 where
  pub here : balance f l' ≡ balance f l +ℤ amount
  pub elsewhere : (g : Key) → f ≢ g → balance g l' ≡ balance g l

pub cons-Grows : (e : FolioEntry) (l : List FolioEntry) → Grows e.folio_id e.amount_minor l (e ∷ l)
cons-Grows e l = record {
  here = rw (balance-cons_self e.folio_id e l refl) (omega int_laws);
  elsewhere = λ g n. balance-cons_ne g e l n;
}

pub cons-Grows_at :
    (f : Key) (a : ℤ) (e : FolioEntry) (l : List FolioEntry)
    → e.folio_id ≡ f
    → e.amount_minor ≡ a
    → Grows f a l (e ∷ l)
cons-Grows_at f a e l h k = subst₂ (λ g b. Grows g b l (e ∷ l)) h k (cons-Grows e l)

pub Grows-trans :
    {f : Key} {a b : ℤ} {x y z : List FolioEntry}
    → Grows f a x y
    → Grows f b y z
    → Grows f (a +ℤ b) x z
Grows-trans g h = record {
  here = h.here ∙ rw g.here (omega int_laws);
  elsewhere = λ k n. h.elsewhere k n ∙ g.elsewhere k n;
}

-- The loop over the tax lines always ends, and posts all of them.
post_tax_lines-Grows :
    (auth : Auth) (folio : Folio) (c : Charge) (lines : List TaxLine) (db : Db)
    → (db' : Db) × (post_tax_lines auth folio c lines db ≡ ok (tt, db'))
      × Grows folio.id (sum_lines lines) db.entries db'.entries
unfolding post_tax_lines create_entry
post_tax_lines-Grows auth folio c [] db =
    (db, refl, record { here = omega int_laws; elsewhere = λ g n. refl })
post_tax_lines-Grows auth folio c (line ∷ lines) db =
    let e = tax_row auth folio c line db.next_id in
    let mid = record db { next_id = db.next_id + 1; entries = e ∷ db.entries } in
    let (end, ran, grown) = post_tax_lines-Grows auth folio c lines mid in
    (end, ran, Grows-trans (cons-Grows e db.entries) grown)

announce-entries :
    (auth : Auth) (folio : Folio) (c : Charge) (e : FolioEntry) (db : Db)
    → (db' : Db) × (announce auth folio c e db ≡ ok (e, db')) × (db'.entries ≡ db.entries)
unfolding announce log emit
announce-entries auth folio c e db = (_, refl, refl)

-- The amount that a charge adds: its own, and all its tax lines.
abbrev pub charged : Folio → Charge → Db → ℤ
charged folio c db =
    c.amount_minor
    +ℤ (if c.apply_taxes then sum_lines (compute db.tax_rules (tax_input folio c)).lines else pos 0)

module _ (auth : Auth) (folio : Folio) (c : Charge) (db : Db) where
  -- The lines of a charge are posted, or skipped.
  lines-Grows :
      (taxed : Bool) (lines : List TaxLine)
      → (db' : Db) × (when taxed (post_tax_lines auth folio c lines) db ≡ ok (tt, db'))
        × Grows folio.id (if taxed then sum_lines lines else pos 0) db.entries db'.entries
  lines-Grows true lines = post_tax_lines-Grows auth folio c lines db
  lines-Grows false lines = (db, refl, record { here = omega int_laws; elsewhere = λ g n. refl })

-- Whatever the rules, a charge is refused on a closed folio, and on an open one its amount and all tax
-- lines are posted.
pub post_charge_tx-Grows :
    (auth : Auth) (folio : Folio) (c : Charge) (db : Db)
    → (folio.status ≡ closed_folio
        → post_charge_tx auth folio c db ≡ err (bad_request folio_closed))
      × (folio.status ≡ open_folio
          → (e : FolioEntry) × (db' : Db) × (post_charge_tx auth folio c db ≡ ok (e, db'))
            × Grows folio.id (charged folio c db) db.entries db'.entries)
unfolding post_charge_tx create_entry
post_charge_tx-Grows auth folio c db = (λ h. rw h, posted)
  where
    row : FolioEntry
    row = charge_row auth folio c db.next_id

    mid : Db
    mid = record db { next_id = db.next_id + 1; entries = row ∷ db.entries }

    posted :
        folio.status ≡ open_folio
        → (e : FolioEntry) × (db' : Db) × (post_charge_tx auth folio c db ≡ ok (e, db'))
          × Grows folio.id (charged folio c db) db.entries db'.entries
    posted h =
        let lines = (compute db.tax_rules (tax_input folio c)).lines in
        let (end, ran, grown) = lines-Grows auth folio c mid c.apply_taxes lines in
        let (last, told, same) = announce-entries auth folio c row end in
        (
          row,
          last,
          ground (arith, h, ran, told),
          rw same (Grows-trans (cons-Grows row db.entries) grown),
        )

-- What a charge comes to: the total of the tax engine, or the amount where no taxes apply.
abbrev pub due : Folio → Charge → Db → ℤ
due folio c db =
    if c.apply_taxes then (compute db.tax_rules (tax_input folio c)).total else c.amount_minor

total_of :
    (rules : List TaxRule) (input : TaxInput)
    → (compute rules input).total
      ≡ (compute rules input).base +ℤ sum_lines (compute rules input).lines
unfolding compute
total_of rules input = refl

charged-due :
    (folio : Folio) (c : Charge) (db : Db)
    → All (λ r. r.basis ≡ exclusive) (ordered_rules (tax_input folio c) db.tax_rules)
    → charged folio c db ≡ due folio c db
charged-due folio c db h =
    let input = tax_input folio c in
    let base = exclusive_base db.tax_rules input h in
    let lines = (compute db.tax_rules input).lines in
    elim (Bool-cases c.apply_taxes) [
      | inl taxed ↦
          rw taxed
            (ap (λ (b : ℤ). b +ℤ sum_lines lines) (sym base) ∙ sym (total_of db.tax_rules input))
      | inr free ↦ rw free (omega int_laws)
    ]

-- Where no rule that a charge is taxed by is inclusive: the charge is refused on a closed folio, and on
-- an open one it is posted; the balance of that folio grows by what the charge comes to, which is the
-- total of the tax engine where taxes apply and the amount otherwise, and every other balance stays.
pub post_charge_tx-Due :
    (auth : Auth) (folio : Folio) (c : Charge) (db : Db)
    → All (λ r. r.basis ≡ exclusive) (ordered_rules (tax_input folio c) db.tax_rules)
    → (folio.status ≡ closed_folio
        → post_charge_tx auth folio c db ≡ err (bad_request folio_closed))
      × (folio.status ≡ open_folio
          → (e : FolioEntry) × (db' : Db) × (post_charge_tx auth folio c db ≡ ok (e, db'))
            × Grows folio.id (due folio c db) db.entries db'.entries)
post_charge_tx-Due auth folio c db h =
    let (shut, unlocked) = post_charge_tx-Grows auth folio c db in
    (
      shut,
      λ opened.
          let (e, end, ran, grown) = unlocked opened in
          (
            e,
            end,
            ran,
            subst (λ a. Grows folio.id a db.entries end.entries) (charged-due folio c db h) grown,
          ),
    )

-- Where every tax rule in force is inclusive, the tax engine's total is the amount of the charge,
-- and the charge raises the balance by that total and by the tax lines once more: the tax that the
-- price already holds is added on top.
inclusive_charge_adds_tax :
    (auth : Auth) (folio : Folio) (c : Charge) (db : Db)
    → folio.status ≡ open_folio
    → c.apply_taxes ≡ true
    → ordered_rules (tax_input folio c) db.tax_rules ≢ []
    → All (λ r. r.basis ≡ inclusive) (ordered_rules (tax_input folio c) db.tax_rules)
    → let computed = compute db.tax_rules (tax_input folio c) in
      (computed.total ≡ c.amount_minor)
      × ((e : FolioEntry) × (db' : Db) × (post_charge_tx auth folio c db ≡ ok (e, db'))
          × (balance folio.id db'.entries
              ≡ balance folio.id db.entries +ℤ (computed.total +ℤ sum_lines computed.lines)))
inclusive_charge_adds_tax auth folio c db h taxed configured inclusive_only =
    let input = tax_input folio c in
    let same = inclusive_total db.tax_rules input configured inclusive_only in
    let (e, db', ran, grown) = (post_charge_tx-Grows auth folio c db).1 h in
    (
      same,
      (
        e,
        db',
        ran,
        grown.here
            ∙ ap (λ (t : ℤ). balance folio.id db.entries +ℤ t)
                (ap
                    (λ b.
                      c.amount_minor
                      +ℤ (if b then sum_lines (compute db.tax_rules input).lines else pos 0))
                    taxed
                  ∙ ap (λ (t : ℤ). t +ℤ sum_lines (compute db.tax_rules input).lines) (sym same)),
      ),
    )

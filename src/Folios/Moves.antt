-- ===== src/Folios/Moves.antt =====
-- A transfer moves money between two folios of a stay, and nowhere else.
use lodgiva.Common.{
  ◌+◌, Bool, true, false, some, List, [], ◌∷◌, ◌≡◌, ◌≢◌, refl, sym, ◌∙◌, subst, arith, ◌==◌, find,
  all, length, String, if◌then◌else◌, Option-cases, inl, inr,
}
use lodgiva.Common.Search.{find-eq-some}
use lodgiva.Common.Int.{ℤ, pos, neg, ◌+ℤ◌, ◌-ℤ◌, int_laws}
use lodgiva.Store.{Key, IsoDate, open_folio, Folio, FolioEntry, Db, ok}
use lodgiva.Access.{Auth, property_or_throw, log}
use lodgiva.Folios.Entries.{balance, balance_minor, get_folio_or_throw, create_entry, is_reachable}
use lodgiva.Folios.Transfer.{
  sum_entries, out_row, in_row, mark, move_entry, move_entries, Moved, selected, check_folios,
  check_entries, carry_out, transfer, is_transferable, same_stay,
}
use lodgiva.Folios.Balance.{balance-mark}

-- What a transfer of `amount` adds to a balance, by whether it is the target's and the source's.
abbrev shift : Bool → Bool → ℤ → ℤ
shift to from amount = (if to then amount else pos 0) +ℤ (if from then neg amount else pos 0)

shift-sum : (to from : Bool) (a b : ℤ) → shift to from (a +ℤ b) ≡ shift to from a +ℤ shift to from b
shift-sum true true a b = omega int_laws
shift-sum true false a b = omega int_laws
shift-sum false from a b =
    elim from as (λ x. shift false x (a +ℤ b) ≡ shift false x a +ℤ shift false x b) [
      | true ↦ omega int_laws
      | false ↦ omega int_laws
    ]

shift-zero : (to from : Bool) → shift to from (pos 0) ≡ pos 0
unfolding neg ◌+ℤ◌
shift-zero true true = refl
shift-zero to from = ground arith

-- Two rows that are put in front of a ledger shift its balance.
shift-balance :
    (to from : Bool) (a old : ℤ)
    → (if to then a +ℤ (if from then neg a +ℤ old else old) else if from then neg a +ℤ old else old)
      ≡ old +ℤ shift to from a
shift-balance true true a old = omega int_laws
shift-balance true false a old = omega int_laws
shift-balance false true a old = omega int_laws
shift-balance false false a old = omega int_laws

abbrev pub moved_to : Key → Key → ℤ → Key → ℤ
moved_to source target amount f = shift (target == f) (source == f) amount

move_entry-balance :
    (auth : Auth) (source target : Folio) (date : IsoDate) (group : Key) (e : FolioEntry)
    (f a b : Key) (l : List FolioEntry)
    → balance f (
        mark e.id group
          (in_row auth target date group e a ∷ out_row auth source date group e b ∷ l))
      ≡ balance f l +ℤ moved_to source.id target.id e.amount_minor f
move_entry-balance auth source target date group e f a b l =
    balance-mark f e.id group
      (in_row auth target date group e a ∷ out_row auth source date group e b ∷ l)
    ∙ shift-balance (target.id == f) (source.id == f) e.amount_minor (balance f l)

-- The loop always ends, and moves the sum of its entries.
move_entries-balance :
    (auth : Auth) (source target : Folio) (date : IsoDate) (group : Key) (entries : List FolioEntry)
    (db : Db)
    → (db' : Db) × (move_entries auth source target date group entries db ≡ ok (tt, db'))
      × ((f : Key)
          → balance f db'.entries
            ≡ balance f db.entries +ℤ moved_to source.id target.id (sum_entries entries) f)
unfolding move_entries move_entry create_entry
move_entries-balance auth source target date group [] db =
    (db, refl, λ f. rw (shift-zero (target.id == f) (source.id == f)) (omega int_laws))
move_entries-balance auth source target date group (e ∷ entries) db =
    let out = out_row auth source date group e db.next_id in
    let into = in_row auth target date group e (db.next_id + 1) in
    let mid = record db {
      next_id = db.next_id + 1 + 1;
      entries = mark e.id group (into ∷ out ∷ db.entries);
    } in
    let (end, ran, moved) = move_entries-balance auth source target date group entries mid in
    (
      end,
      ran,
      λ f.
          moved f
          ∙ rw
              (move_entry-balance auth source target date group e f (db.next_id + 1) db.next_id
                db.entries)
              (rw (shift-sum (target.id == f) (source.id == f) e.amount_minor (sum_entries entries))
                (omega int_laws)),
    )

-- What the writes of a transfer have done.
pub record Carried (source target : Folio) (entries : List FolioEntry) (m : Moved) (db db' : Db)
    : Type 0 where
  pub sum : m.moved_minor ≡ sum_entries entries
  pub source_due : m.source_balance_minor ≡ balance source.id db'.entries
  pub target_due : m.target_balance_minor ≡ balance target.id db'.entries
  pub balances :
      (f : Key)
      → balance f db'.entries
        ≡ balance f db.entries +ℤ moved_to source.id target.id (sum_entries entries) f

carry_out-Carried :
    (auth : Auth) (source target : Folio) (reason : String) (entries : List FolioEntry) (db : Db)
    (m : Moved) (db' : Db)
    → carry_out auth source target reason entries db ≡ ok (m, db')
    → Carried source target entries m db db'
unfolding carry_out property_or_throw balance_minor log
carry_out-Carried auth source target reason entries db m db' h =
    elim (Option-cases (find (λ p. p.id == source.property_id) db.properties)) [
      | inl missing ↦ absurd (ground arith)
      | inr (property, found) ↦
          let start = record db { next_id = db.next_id + 1 } in
          let (end, ran, moved) =
            move_entries-balance auth source target property.business_date db.next_id entries
              start in
          let same : (m.moved_minor ≡ sum_entries entries)
              × (db'.entries ≡ end.entries)
              × (m.source_balance_minor ≡ balance source.id end.entries)
              × (m.target_balance_minor ≡ balance target.id end.entries) =
            ground (arith, ran) in
          record {
            sum = same.0;
            source_due = rw same.1 same.2;
            target_due = rw same.1 same.3;
            balances = λ f. rw same.1 (moved f);
          }
    ]

moved_to-source : (s t : Key) (a : ℤ) → s ≢ t → moved_to s t a s ≡ neg a
moved_to-source s t a n =
    let p : (t == s) ≡ false = ground arith in
    let q : (s == s) ≡ true = ground arith in rw (p, q) (omega int_laws)

moved_to-target : (s t : Key) (a : ℤ) → s ≢ t → moved_to s t a t ≡ a
moved_to-target s t a n =
    let p : (t == t) ≡ true = ground arith in
    let q : (s == t) ≡ false = ground arith in rw (p, q) (omega int_laws)

moved_to-other : (s t : Key) (a : ℤ) (f : Key) → f ≢ s → f ≢ t → moved_to s t a f ≡ pos 0
unfolding ◌+ℤ◌
moved_to-other s t a f n o =
    let p : (t == f) ≡ false = ground arith in let q : (s == f) ≡ false = ground arith in rw (p, q)

id_of_reachable :
    (auth : Auth) (id : Key) (f : Folio) (db : Db)
    → find (is_reachable auth id) db.folios ≡ some f
    → f.id ≡ id
id_of_reachable auth id f db h = ground (arith, find-eq-some _ db.folios f h)

-- What the checks of `transfer` leave true, and its last step.
abbrev Passed : Auth → Key → Key → List Key → String → Folio → Folio → Moved → Db → Db → Type 0
Passed auth source_id target_id ids reason source target m db db' =
    (source_id ≢ target_id)
    × (source.status ≡ open_folio)
    × (target.status ≡ open_folio)
    × (same_stay source.reservation_id target.reservation_id ≡ true)
    × (length (selected auth source ids db) ≡ length ids)
    × (all is_transferable (selected auth source ids db) ≡ true)
    × (carry_out auth source target reason (selected auth source ids db) db ≡ ok (m, db'))

-- What a successful transfer has checked and done.
pub record Transferred (auth : Auth) (source_id target_id : Key) (ids : List Key) (m : Moved)
    (db db' : Db) : Type 0 where
  pub source : Folio
  pub target : Folio
  pub source_found : find (is_reachable auth source_id) db.folios ≡ some source
  pub target_found : find (is_reachable auth target_id) db.folios ≡ some target
  pub both_open : (source.status ≡ open_folio) × (target.status ≡ open_folio)
  pub one_stay : same_stay source.reservation_id target.reservation_id ≡ true
  pub all_found : length (selected auth source ids db) ≡ length ids
  pub movable : all is_transferable (selected auth source ids db) ≡ true
  pub sum : m.moved_minor ≡ sum_entries (selected auth source ids db)
  pub source_due : m.source_balance_minor ≡ balance source_id db'.entries
  pub target_due : m.target_balance_minor ≡ balance target_id db'.entries
  pub source_falls : balance source_id db'.entries ≡ balance source_id db.entries -ℤ m.moved_minor
  pub target_rises : balance target_id db'.entries ≡ balance target_id db.entries +ℤ m.moved_minor
  pub others_stay :
      (f : Key) → f ≢ source_id → f ≢ target_id → balance f db'.entries ≡ balance f db.entries

-- A successful transfer has found on the source folio as many entries as ids were given, none of
-- them a reversal or transferred before; both folios are open, within the caller's reach and of one
-- stay. It lowers the balance of the source by the sum of those entries, raises that of the
-- target by the same amount, leaves every other balance, and reports the amount and both balances.
pub transfer-Transferred :
    (auth : Auth) (source_id target_id : Key) (ids : List Key) (reason : String) (db : Db)
    (m : Moved) (db' : Db)
    → transfer auth source_id target_id ids reason db ≡ ok (m, db')
    → Transferred auth source_id target_id ids m db db'
unfolding transfer get_folio_or_throw check_folios check_entries
transfer-Transferred auth source_id target_id ids reason db m db' h =
    elim (Option-cases (find (is_reachable auth source_id) db.folios)) [
      | inl missing ↦ absurd (ground arith)
      | inr (source, source_found) ↦
          elim (Option-cases (find (is_reachable auth target_id) db.folios)) [
            | inl missing ↦ absurd (ground arith)
            | inr (target, target_found) ↦
                conclude source target source_found target_found (ground arith)
          ]
    ]
  where
    conclude :
        (source target : Folio)
        → find (is_reachable auth source_id) db.folios ≡ some source
        → find (is_reachable auth target_id) db.folios ≡ some target
        → Passed auth source_id target_id ids reason source target m db db'
        → Transferred auth source_id target_id ids m db db'
    conclude source target source_found target_found passed =
        let c =
          carry_out-Carried auth source target reason (selected auth source ids db) db m db'
            passed.6 in
        let is_source = id_of_reachable auth source_id source db source_found in
        let is_target = id_of_reachable auth target_id target db target_found in
        let apart : source.id ≢ target.id = λ e. passed.0 (sym is_source ∙ e ∙ is_target) in
        record {
          source = source;
          target = target;
          source_found = source_found;
          target_found = target_found;
          both_open = (passed.1, passed.2);
          one_stay = passed.3;
          all_found = passed.4;
          movable = passed.5;
          sum = c.sum;
          source_due =
              subst (λ k. m.source_balance_minor ≡ balance k db'.entries) is_source c.source_due;
          target_due =
              subst (λ k. m.target_balance_minor ≡ balance k db'.entries) is_target c.target_due;
          source_falls =
              subst (λ k. balance k db'.entries ≡ balance k db.entries -ℤ m.moved_minor) is_source
                (c.balances source.id
                  ∙ rw (moved_to-source source.id target.id _ apart, c.sum) (omega int_laws));
          target_rises =
              subst (λ k. balance k db'.entries ≡ balance k db.entries +ℤ m.moved_minor) is_target
                (c.balances target.id
                  ∙ rw (moved_to-target source.id target.id _ apart, c.sum) (omega int_laws));
          others_stay = λ f n o.
              c.balances f
              ∙ rw
                  (moved_to-other source.id target.id _ f (λ e. n (e ∙ is_source))
                    (λ e. o (e ∙ is_target)))
                  (omega int_laws);
        }

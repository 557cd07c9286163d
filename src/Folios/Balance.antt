-- ===== src/Folios/Balance.antt =====
-- Balances under the writes of the ledger.
use lodgiva.Common.{List, [], ◌∷◌, ◌≡◌, ◌≢◌, refl, arith}
use lodgiva.Common.Int.{◌+ℤ◌}
use lodgiva.Store.{Key, FolioEntry}
use lodgiva.Folios.Entries.{balance}
use lodgiva.Folios.Transfer.{mark}

-- Marking an entry as transferred moves no money.
pub balance-mark :
    (f id group : Key) (entries : List FolioEntry)
    → balance f (mark id group entries) ≡ balance f entries
unfolding mark
balance-mark f id group [] = refl
balance-mark f id group (e ∷ entries) = ground (arith, balance-mark f id group entries)

pub balance-cons_self :
    (f : Key) (e : FolioEntry) (entries : List FolioEntry)
    → e.folio_id ≡ f
    → balance f (e ∷ entries) ≡ e.amount_minor +ℤ balance f entries
balance-cons_self f e entries h = ground arith

pub balance-cons_ne :
    (f : Key) (e : FolioEntry) (entries : List FolioEntry)
    → e.folio_id ≢ f
    → balance f (e ∷ entries) ≡ balance f entries
balance-cons_ne f e entries h = ground arith

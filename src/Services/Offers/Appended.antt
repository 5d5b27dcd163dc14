-- ===== src/Services/Offers/Appended.antt =====
-- The ledger is append-only: no operation changes or drops an entry.
use kaktus.Base.{List, ◌++◌, ◌≡◌, map}
use mathlib.Core.List.{append_assoc}
use kaktus.Payments.Ledger.{EntryInput, Refs, post_group, entry_row}
use kaktus.Payments.Ledger.Flow.{post_group-inv}
use kaktus.Database.{LedgerEntry, Store}
use kaktus.Database.Keeps.{Keeps}
use kaktus.Services.Offers.Closed.{IsClosed}
use kaktus.Services.Offers.Invariants.{Apart-IsClosed}

-- The ledger begins with these entries.
abbrev pub StartsWith : List LedgerEntry → List LedgerEntry → Type 0
StartsWith first entries = (more : List LedgerEntry) × (entries ≡ first ++ more)

abbrev pub Extends : List LedgerEntry → Store → Type 0
Extends first s = StartsWith first s.ledger_entries

post_group-Extends :
    (first : List LedgerEntry) (es : List EntryInput) (refs : Refs)
    → Keeps (Extends first) (post_group es refs)
post_group-Extends first es refs s (g, t) h (more, starts) =
    let (_, _, _, shape) = post_group-inv es refs s h in
    (
      more ++ map (entry_row s.next_id refs) es,
      rw (shape, starts) (append_assoc first more (map (entry_row s.next_id refs) es)),
    )

pub Extends-IsClosed : (first : List LedgerEntry) → IsClosed (Extends first)
Extends-IsClosed first =
    Apart-IsClosed (λ os entries. StartsWith first entries) (post_group-Extends first)

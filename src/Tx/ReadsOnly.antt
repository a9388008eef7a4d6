-- ===== src/Tx/ReadsOnly.antt =====
-- Calls that write no table.
use vogel.Prelude.{◌≡◌, refl}
use vogel.Errors.{Result, ok, err, Returns}
use vogel.Store.{Db}
use vogel.Tx.{Tx, continue}

-- What a call that writes nothing ends in: the tables as they were, and `Q` of a value.
abbrev pub Reads : {A : Type 0} → (A → Type 0) → Db → Result A × Db → Type 0
Reads Q db x = (x.1 ≡ db) × Returns Q x.0

-- One step of such a call: it goes on only where the step succeeds.
pub Reads-step :
    {A B : Type 0} (Q : B → Type 0) (r : Result A) (k : A → Tx B) (db : Db)
    → ((a : A) → r ≡ ok a → Reads Q db (k a db))
    → Reads Q db (continue r k db)
Reads-step Q (ok a) k db h = h a refl
Reads-step Q (err e) k db h = (refl, tt)

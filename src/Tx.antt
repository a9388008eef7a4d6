-- ===== src/Tx.antt =====
-- An engine call on the caller's transaction. What a call wrote before it failed stays in the
-- transaction, so the tables come back beside an error too; rolling back is the caller's step.
pub mod ReadsOnly
use vogel.Prelude.{Bool, Option, none, some}
use vogel.Errors.{Err, Result, ok, err}
use vogel.Store.{Db}

abbrev pub Tx {ℓ} : Type ℓ → Type ℓ
Tx A = Db → Result A × Db

infixl 5 ◌>>=◌ ◌>>◌
abbrev pub continue {ℓ κ} : {A : Type ℓ} {B : Type κ} → Result A → (A → Tx B) → Tx B
continue (ok a) f db = f a db
continue (err e) f db = (err e, db)

abbrev pub ◌>>=◌ {ℓ κ} : {A : Type ℓ} {B : Type κ} → Tx A → (A → Tx B) → Tx B
◌>>=◌ m f db = let (r, db') = m db in continue r f db'

abbrev pub ◌>>◌ {ℓ} : {B : Type ℓ} → Tx (Unit {0}) → Tx B → Tx B
m >> k = m >>= λ _. k

abbrev pub pure {ℓ} : {A : Type ℓ} → A → Tx A
pure a db = (ok a, db)

-- Code that reads and writes no table.
abbrev pub lift {ℓ} : {A : Type ℓ} → Result A → Tx A
lift r db = (r, db)

abbrev pub reads {ℓ} : {A : Type ℓ} → (Db → Result A) → Tx A
reads f db = (f db, db)

unfoldable pub wrote : Result Db → Db → Result (Unit {0}) × Db
wrote (ok db') db = (ok tt, db')
wrote (err e) db = (err e, db)

-- A statement: a failed one writes nothing.
unfoldable pub writes : (Db → Result Db) → Tx (Unit {0})
writes f db = wrote (f db) db

unfoldable pub returned {ℓ} : {A : Type ℓ} → Result (A × Db) → Db → Result A × Db
returned (ok (a, db')) db = (ok a, db')
returned (err e) db = (err e, db)

unfoldable pub returns {ℓ} : {A : Type ℓ} → (Db → Result (A × Db)) → Tx A
returns f db = returned (f db) db

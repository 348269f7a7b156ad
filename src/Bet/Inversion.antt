-- ===== src/Bet/Inversion.antt =====
-- A transaction that succeeds has succeeded in each of its statements.
use tchebets_open.Prelude.{◌≡◌, refl, Result, ok, err, ◌⊎◌, inl, inr, arith}
use tchebets_open.Bet.Models.{Db}
use tchebets_open.Bet.Errors.{BetError, Tx, in_tx}

-- To split on the result of a statement.
pub Run-cases :
    {A : Type 0} (r : Result BetError (A × Db))
    → ((a : A) × (db : Db) × (r ≡ ok (a, db))) ⊎ ((x : BetError) × (r ≡ err x))
Run-cases (ok (a, db)) = inl (a, db, refl)
Run-cases (err x) = inr (x, refl)

-- To split on the result of a statement that returns nothing.
pub Tx-cases :
    (r : Result BetError (Unit {0} × Db))
    → ((db : Db) × (r ≡ ok (tt, db))) ⊎ ((x : BetError) × (r ≡ err x))
Tx-cases (ok (_, db)) = inl (db, refl)
Tx-cases (err x) = inr (x, refl)

pub in_tx-ok :
    {A : Type 0} (m : Tx A) (db db' : Db) (a : A) → in_tx m db ≡ (ok a, db') → m db ≡ ok (a, db')
in_tx-ok m db db' a e = ground arith

-- A transaction that fails leaves the tables as they were.
pub in_tx-err :
    {A : Type 0} (m : Tx A) (db db' : Db) (x : BetError) → in_tx m db ≡ (err x, db') → db' ≡ db
in_tx-err m db db' x e = ground arith

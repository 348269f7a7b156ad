-- ===== src/Bet/Statements.antt =====
-- The SQL statements of bet-backend/service, with the constraints that bet-backend/db/db.go puts on
-- the tables. A condition `WHERE id = $1` on a primary key meets one row at most.
use Prim.Native.String.{count}
use tchebets_open.Prelude.{
  ℕ, String, Bool, true, false, ◌&&◌, ◌||◌, not, Option, none, some, List, [], ◌∷◌, ◌++◌, ok, err,
  ltb, ◌==◌, str_eq, if◌then◌else◌, ℤ, pos, ◌+ℤ◌, Table, lookup, modify, modify_all, add_row,
}
use tchebets_open.Int64.{to_column}
use tchebets_open.Bet.Models.{MarketStatus, Market, Pool, Bet, BetListing, is_listed, cancelled}
use tchebets_open.Bet.Errors.{Tx, db_error, bet_already_listed}

abbrev pub is_some : {A : Type 0} → Option A → Bool
is_some none = false
is_some (some _) = true

-- `UPDATE users SET balance = balance + $1 WHERE id = $2`, under `CHECK (balance >= 0)`.
unfoldable pub add_balance : ℕ → ℤ → Tx (Unit {0})
add_balance id delta db = elim (lookup id db.users) [
  | none ↦ ok (tt, db)
  | some u ↦ elim (to_column (pos u.balance +ℤ delta)) [
    | none ↦ err db_error
    | some v ↦ ok (tt, record db { users = modify id (λ w. record w { balance = v }) db.users })
  ]
]

-- The row of a pool, by its composite key.
abbrev pub is_pool : ℕ → String → Pool → Bool
is_pool m o p = (m == p.market_id) && str_eq p.outcome o

abbrev pub lookup_pool : ℕ → String → List Pool → Option ℕ
lookup_pool m o [] = none
lookup_pool m o (p ∷ ps) = if is_pool m o p then some p.total else lookup_pool m o ps

abbrev pub set_pool : ℕ → String → ℕ → List Pool → List Pool
set_pool m o t [] = []
set_pool m o t (p ∷ ps) =
    if is_pool m o p then record p { total = t } ∷ ps else p ∷ set_pool m o t ps

-- `UPDATE pools SET total = total + $1 WHERE market_id = $2 AND outcome = $3`.
unfoldable pub add_pool : ℕ → String → ℤ → Tx (Unit {0})
add_pool m o delta db = elim (lookup_pool m o db.pools) [
  | none ↦ ok (tt, db)
  | some t ↦ elim (to_column (pos t +ℤ delta)) [
    | none ↦ err db_error
    | some v ↦ ok (tt, record db { pools = set_pool m o v db.pools })
  ]
]

-- `INSERT INTO pools …`: a new key, an outcome of 100 characters at most, a known market.
unfoldable pub insert_pool : ℕ → String → ℕ → Tx (Unit {0})
insert_pool m o t db =
    if is_some (lookup_pool m o db.pools)
      || ltb 100 (count o)
      || not (is_some (lookup m db.markets))
    then err db_error
    else ok (
      tt,
      record db { pools = db.pools ++ record { market_id = m; outcome = o; total = t } ∷ [] },
    )

-- `INSERT INTO bets …`: a new id, a positive stake, a known market and a known user.
unfoldable pub insert_bet : ℕ → Bet → Tx (Unit {0})
insert_bet id b db =
    if is_some (lookup id db.bets)
      || (b.stake == 0)
      || ltb 100 (count b.outcome)
      || not (is_some (lookup b.market_id db.markets))
      || not (is_some (lookup b.user_id db.users))
    then err db_error
    else ok (tt, record db { bets = add_row id b db.bets })

-- `INSERT INTO markets …`.
unfoldable pub insert_market : ℕ → Market → Tx (Unit {0})
insert_market id m db =
    if is_some (lookup id db.markets)
    then err db_error
    else ok (tt, record db { markets = add_row id m db.markets })

-- `UPDATE markets SET status = … WHERE id = $1`.
unfoldable pub set_status : ℕ → MarketStatus → Tx (Unit {0})
set_status id s db =
    ok (tt, record db { markets = modify id (λ m. record m { status = s }) db.markets })

abbrev pub cancel_row : ℕ → ℕ → BetListing → BetListing
cancel_row now m l =
    if (m == l.market_id) && is_listed l.status
    then record l { status = cancelled; cancelled_at = some now }
    else l

-- `UPDATE bet_listings SET status = 'CANCELLED' … WHERE market_id = $1 AND status = 'LISTED'`.
unfoldable pub cancel_listings : ℕ → ℕ → Tx (Unit {0})
cancel_listings now m db =
    ok (tt, record db { listings = modify_all (cancel_row now m) db.listings })

-- The partial unique index: one row `LISTED` for a bet.
abbrev pub has_listed : ℕ → Table BetListing → Bool
has_listed b [] = false
has_listed b ((i, l) ∷ ls) = ((b == l.bet_id) && is_listed l.status) || has_listed b ls

-- `INSERT INTO bet_listings …`; `isUniqueViolation` reports a duplicate of the index, and so of
-- the primary key, as a bet that is listed already.
unfoldable pub insert_listing : ℕ → BetListing → Tx (Unit {0})
insert_listing id l db =
    if is_some (lookup id db.listings) || has_listed l.bet_id db.listings
    then err bet_already_listed
    else if (l.asking_price == 0)
        || not (is_some (lookup l.bet_id db.bets))
        || not (is_some (lookup l.market_id db.markets))
        || not (is_some (lookup l.seller_id db.users))
    then err db_error
    else ok (tt, record db { listings = add_row id l db.listings })

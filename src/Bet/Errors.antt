-- ===== src/Bet/Errors.antt =====
-- The errors of bet-backend/service, and the transactions that return them: the sentinel values of
-- market_service.go and listing_service.go, one constructor for each message that is built in
-- place, and `db_error` for what a constraint of the database refuses.
use tchebets_open.Prelude.{ℕ, ℤ, Bool, true, false, Option, none, some, Result, ok, err}
use tchebets_open.Bet.Models.{MarketStatus, Db}

pub data BetError : Type 0 where
  market_not_open : BetError
  market_not_locked : BetError
  insufficient_balance : BetError
  invalid_outcome : BetError
  market_already_resolved : BetError
  market_already_cancelled : BetError
  invalid_state_transition : MarketStatus → BetError
  bet_not_found : BetError
  listing_not_found : BetError
  not_bet_owner : BetError
  not_listing_owner : BetError
  cannot_list_house_bet : BetError
  bet_already_listed : BetError
  listing_not_active : BetError
  cannot_buy_own_listing : BetError
  listing_market_no_longer_open : BetError
  too_few_outcomes : BetError
  negative_seed : BetError
  house_insufficient : ℤ → ℕ → BetError
  house_not_locked : BetError
  stake_not_positive : BetError
  price_not_positive : BetError
  market_not_found : BetError
  user_not_found : BetError
  owner_mismatch : BetError
  db_error : BetError

-- A statement of a transaction: it reads and writes the tables, or fails.
abbrev pub Tx : Type 0 → Type 0
Tx A = Db → Result BetError (A × Db)

abbrev pub pure : {A : Type 0} → A → Tx A
pure a db = ok (a, db)

abbrev pub fail : {A : Type 0} → BetError → Tx A
fail e db = err e

infixl 5 ◌>>=◌ ◌>>◌
abbrev pub ◌>>=◌ : {A B : Type 0} → Tx A → (A → Tx B) → Tx B
◌>>=◌ m f db = elim (m db) [ ok (a, db') ↦ f a db' | err e ↦ err e ]

abbrev pub ◌>>◌ : {B : Type 0} → Tx (Unit {0}) → Tx B → Tx B
m >> k = m >>= λ _. k

abbrev pub guard : Bool → BetError → Tx (Unit {0})
guard true e = pure tt
guard false e = fail e

abbrev pub or_fail : {A : Type 0} → Option A → BetError → Tx A
or_fail none e = fail e
or_fail (some a) e = pure a

abbrev pub gets : {A : Type 0} → (Db → A) → Tx A
gets f db = ok (f db, db)

-- `BeginTx`, `defer tx.Rollback()`, `Commit`: an error leaves the tables as they were.
abbrev pub in_tx : {A : Type 0} → Tx A → Db → Result BetError A × Db
in_tx m db = elim (m db) [ ok (a, db') ↦ (ok a, db') | err e ↦ (err e, db) ]

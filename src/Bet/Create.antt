-- ===== src/Bet/Create.antt =====
-- `CreateMarket` of bet-backend/service/market_service.go, and `SyncUser` of
-- bet-backend/handlers/handlers.go, which writes the table of users by itself.
use tchebets_open.Prelude.{
  ℕ, ◌+◌, String, not, none, some, List, [], ◌∷◌, Result, ok, err, ltb, if◌then◌else◌, ℤ, pos,
  pos_part, ◌-ℤ◌, ltb_ℤ, leb_ℤ, lookup, modify, add_row, length,
}
use tchebets_open.Int64.{mul64, to_column}
use tchebets_open.Bet.Models.{status_open, Market, Bet, Db, house_user_id}
use tchebets_open.Bet.Errors.{
  BetError, too_few_outcomes, negative_seed, house_insufficient, house_not_locked, db_error, Tx,
  pure, ◌>>=◌, ◌>>◌, guard, or_fail, gets, in_tx,
}
use tchebets_open.Bet.Statements.{add_balance, insert_market, insert_pool, insert_bet}

-- The debit of the house, if the seeds cost anything.
unfoldable pub debit_house : ℤ → Tx (Unit {0})
debit_house required =
    if ltb_ℤ (pos 0) required
    then (do
      house ← or_fail (← gets (λ db. lookup house_user_id db.users)) house_not_locked
      guard (leb_ℤ required (pos house.balance)) (house_insufficient required house.balance)
      add_balance house_user_id (pos 0 -ℤ required))
    else pure tt

abbrev pub seed_bet : (market_id now seed : ℕ) → String → Bet
seed_bet market_id now seed outcome = record {
  market_id = market_id;
  user_id = house_user_id;
  original_user_id = house_user_id;
  outcome = outcome;
  stake = seed;
  created_at = now;
}

-- The loop over the outcomes; `bet_id i` is the UUID that the i-th turn draws.
unfoldable pub seed_outcomes : (market_id now seed : ℕ) → (ℕ → ℕ) → ℕ → List String → Tx (Unit {0})
seed_outcomes market_id now seed bet_id i [] = pure tt
seed_outcomes market_id now seed bet_id i (o ∷ os) = do
  insert_pool market_id o seed
  if ltb 0 seed then insert_bet (bet_id i) (seed_bet market_id now seed o) else pure tt
  seed_outcomes market_id now seed bet_id (i + 1) os

unfoldable pub create_tx :
    (market_id : ℕ) (bet_id : ℕ → ℕ) (now : ℕ) (question : String) (outcomes : List String)
    → ℤ
    → Tx Market
create_tx market_id bet_id now question outcomes seed = do
  guard (not (ltb (length outcomes) 2)) too_few_outcomes
  guard (not (ltb_ℤ seed (pos 0))) negative_seed
  let market : Market = record {
    question = question;
    outcomes = outcomes;
    status = status_open;
    seed = pos_part seed;
    winning_outcome = none;
    created_at = now;
  }
  insert_market market_id market
  debit_house (mul64 seed (pos (length outcomes)))
  seed_outcomes market_id now (pos_part seed) bet_id 0 outcomes
  pure market

unfoldable pub create_market :
    (market_id : ℕ) (bet_id : ℕ → ℕ) (now : ℕ) (question : String) (outcomes : List String)
    → ℤ
    → Db
    → Result BetError Market × Db
unfolding create_tx
create_market market_id bet_id now question outcomes seed =
    in_tx (create_tx market_id bet_id now question outcomes seed)

-- `INSERT INTO users … ON CONFLICT (id) DO UPDATE SET balance = EXCLUDED.balance`.
abbrev pub upsert_user : (now id balance : ℕ) → Db → Db
upsert_user now id balance db = elim (lookup id db.users) [
  | none ↦ record db {
    users = add_row id (record { balance = balance; created_at = now }) db.users;
  }
  | some u ↦ record db { users = modify id (λ w. record w { balance = balance }) db.users }
]

-- `SyncUser`, whose binding refuses a negative balance.
unfoldable pub sync_user : (now id : ℕ) → ℤ → Db → Result BetError (Unit {0}) × Db
sync_user now id balance db = elim (to_column balance) [
  | none ↦ (err db_error, db)
  | some v ↦ (ok tt, upsert_user now id v db)
]

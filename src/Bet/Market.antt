-- ===== src/Bet/Market.antt =====
-- The operations of bet-backend/service/market_service.go that change state, but for the creation
-- of a market (Bet/Create.antt). Fresh UUIDs and the time are arguments. What a function publishes
-- after its commit (the cache, the channel of updates) changes no table.
use tchebets_open.Prelude.{
  ℕ, String, Bool, true, false, not, ◌&&◌, some, List, [], ◌∷◌, Result, ok, err, ◌==◌, str_eq,
  if◌then◌else◌, ℤ, pos, negsuc, pos_part, ◌-ℤ◌, ltb_ℤ, leb_ℤ, Table, lookup, modify, contains,
}
use tchebets_open.Int64.{add64, sub64, mul64, div64, to_column}
use tchebets_open.Bet.Models.{
  MarketStatus, status_open, status_locked, status_resolved, status_cancelled, User, Market, Pool,
  Bet, Db, house_user_id, is_open,
}
use tchebets_open.Bet.Errors.{
  BetError, market_not_open, market_not_locked, insufficient_balance, invalid_outcome,
  market_already_resolved, market_already_cancelled, invalid_state_transition, stake_not_positive,
  market_not_found, user_not_found, db_error, Tx, pure, fail, ◌>>=◌, ◌>>◌, guard, or_fail, gets,
  in_tx,
}
use tchebets_open.Bet.Statements.{add_balance, add_pool, insert_bet, set_status, cancel_listings}

abbrev pub select_market : ℕ → Tx Market
select_market m = do or_fail (← gets (λ db. lookup m db.markets)) market_not_found

abbrev pub select_user : ℕ → Tx User
select_user u = do or_fail (← gets (λ db. lookup u db.users)) user_not_found

-- `PlaceBet`.
unfoldable pub place_bet_tx : (bet_id now user_id market_id : ℕ) → String → ℤ → Tx Bet
place_bet_tx bet_id now user_id market_id outcome stake = do
  guard (ltb_ℤ (pos 0) stake) stake_not_positive
  m ← select_market market_id
  guard (is_open m.status) market_not_open
  guard (contains outcome m.outcomes) invalid_outcome
  u ← select_user user_id
  guard (leb_ℤ stake (pos u.balance)) insufficient_balance
  add_balance user_id (pos 0 -ℤ stake)
  add_pool market_id outcome stake
  let bet : Bet = record {
    market_id = market_id;
    user_id = user_id;
    original_user_id = user_id;
    outcome = outcome;
    stake = pos_part stake;
    created_at = now;
  }
  insert_bet bet_id bet
  pure bet

unfoldable pub place_bet :
    (bet_id now user_id market_id : ℕ) → String → ℤ → Db → Result BetError Bet × Db
unfolding place_bet_tx
place_bet bet_id now user_id market_id outcome stake =
    in_tx (place_bet_tx bet_id now user_id market_id outcome stake)

-- `LockMarket`.
unfoldable pub lock_tx : (now market_id : ℕ) → Tx (Unit {0})
lock_tx now market_id = do
  m ← select_market market_id
  guard (is_open m.status) (invalid_state_transition m.status)
  cancel_listings now market_id
  set_status market_id status_locked

unfoldable pub lock_market : (now market_id : ℕ) → Db → Result BetError (Unit {0}) × Db
unfolding lock_tx
lock_market now market_id = in_tx (lock_tx now market_id)

-- The tests on the status in `RefundMarketInternal`.
abbrev pub refundable : MarketStatus → Tx (Unit {0})
refundable status_resolved = fail market_already_resolved
refundable status_cancelled = fail market_already_cancelled
refundable _ = pure tt

-- `SELECT user_id, stake FROM bets WHERE market_id = $1`.
abbrev pub market_bets : ℕ → Table Bet → List (ℕ × ℕ)
market_bets m [] = []
market_bets m ((i, b) ∷ bs) =
    let rest = market_bets m bs in if m == b.market_id then (b.user_id, b.stake) ∷ rest else rest

unfoldable pub refund_bets : List (ℕ × ℕ) → Tx (Unit {0})
refund_bets [] = pure tt
refund_bets ((u, s) ∷ bs) = do add_balance u (pos s); refund_bets bs

unfoldable pub refund_tx : (now market_id : ℕ) → Tx (Unit {0})
refund_tx now market_id = do
  m ← select_market market_id
  refundable m.status
  cancel_listings now market_id
  bets ← gets (λ db. market_bets market_id db.bets)
  refund_bets bets
  set_status market_id status_cancelled

unfoldable pub refund_market_internal : (now market_id : ℕ) → Db → Result BetError (Unit {0}) × Db
unfolding refund_tx
refund_market_internal now market_id = in_tx (refund_tx now market_id)

-- `CancelMarket`.
unfoldable pub cancel_market : (now market_id : ℕ) → Db → Result BetError (Unit {0}) × Db
cancel_market = refund_market_internal

-- The tests on the status in `ResolveMarket`.
abbrev pub resolvable : MarketStatus → Tx (Unit {0})
resolvable status_resolved = fail market_already_resolved
resolvable status_cancelled = fail market_already_cancelled
resolvable status_open = fail market_not_locked
resolvable status_locked = pure tt

-- The loop over the pools: `totalPool` and `poolVencedor`.
unfoldable pub scan_pools : ℕ → String → List Pool → ℤ × ℤ → ℤ × ℤ
scan_pools m win [] acc = acc
scan_pools m win (p ∷ ps) (t, v) = scan_pools m win ps (
    if m == p.market_id
    then (add64 t (pos p.total), if str_eq p.outcome win then pos p.total else v)
    else (t, v))

-- `SELECT user_id, stake FROM bets WHERE market_id = $1 AND outcome = $2`.
abbrev pub winning_bets : ℕ → String → Table Bet → List (ℕ × ℕ)
winning_bets m win [] = []
winning_bets m win ((i, b) ∷ bs) =
    let rest = winning_bets m win bs in
    if (m == b.market_id) && str_eq b.outcome win then (b.user_id, b.stake) ∷ rest else rest

-- `payout := wb.Stake * poolDistributable / poolVencedor`.
unfoldable pub payout : ℤ → ℤ → ℕ → ℤ
payout distributable vencedor stake = div64 (mul64 (pos stake) distributable) vencedor

-- The loop over the winning bets; the result is `totalPayoutsDistributed`.
unfoldable pub pay_winners : ℤ → ℤ → List (ℕ × ℕ) → ℤ → Tx ℤ
pay_winners d v [] acc = pure acc
pay_winners d v ((u, s) ∷ ws) acc = do
  add_balance u (payout d v s)
  pay_winners d v ws (add64 acc (payout d v s))

unfoldable pub commission : ℤ → ℤ
commission total_pool = div64 (mul64 total_pool (pos 3)) (pos 100)

unfoldable pub credit_house : ℤ → Tx (Unit {0})
credit_house gain = if ltb_ℤ (pos 0) gain then add_balance house_user_id gain else pure tt

unfoldable pub set_resolved : ℕ → String → Tx (Unit {0})
set_resolved id win db = ok (
  tt,
  record db {
    markets =
        modify id (λ m. record m { status = status_resolved; winning_outcome = some win })
          db.markets;
  },
)

-- The settlement once the pools are known to hold a winning stake.
unfoldable pub settle : ℕ → String → ℤ → ℤ → Tx (Unit {0})
settle market_id win total_pool vencedor = do
  let fee = commission total_pool
  let distributable = sub64 total_pool fee
  bets ← gets (λ db. winning_bets market_id win db.bets)
  paid ← pay_winners distributable vencedor bets (pos 0)
  credit_house (add64 fee (sub64 distributable paid))
  set_resolved market_id win

abbrev pub is_zero_ℤ : ℤ → Bool
is_zero_ℤ (pos n) = n == 0
is_zero_ℤ (negsuc n) = false

-- The transaction of `ResolveMarket`: false if the winning pool is empty.
unfoldable pub resolve_tx : (now market_id : ℕ) → String → Tx Bool
resolve_tx now market_id win = do
  m ← select_market market_id
  resolvable m.status
  cancel_listings now market_id
  guard (contains win m.outcomes) invalid_outcome
  (total_pool, vencedor) ← gets (λ db. scan_pools market_id win db.pools (pos 0, pos 0))
  if is_zero_ℤ vencedor then pure false else do settle market_id win total_pool vencedor; pure true

abbrev pub finish_resolve :
    (now market_id : ℕ) → Result BetError (Bool × Db) → Db → Result BetError (Unit {0}) × Db
finish_resolve now m (ok (true, db')) db = (ok tt, db')
finish_resolve now m (ok (false, db')) db = refund_market_internal now m db
finish_resolve now m (err e) db = (err e, db)

-- `ResolveMarket`: with an empty winning pool the transaction is rolled back, and the market is
-- refunded in one of its own.
unfoldable pub resolve_market : (now market_id : ℕ) → String → Db → Result BetError (Unit {0}) × Db
resolve_market now market_id win db =
    finish_resolve now market_id (resolve_tx now market_id win db) db

-- `UPDATE users SET balance = $1 WHERE id = $2`.
unfoldable pub write_balance : ℕ → ℕ → Tx (Unit {0})
write_balance id v db =
    ok (tt, record db { users = modify id (λ w. record w { balance = v }) db.users })

unfoldable pub adjust_tx : ℕ → ℤ → Tx ℤ
unfolding write_balance
adjust_tx user_id delta = do
  u ← select_user user_id
  let new_balance = add64 (pos u.balance) delta
  guard (not (ltb_ℤ new_balance (pos 0))) insufficient_balance
  v ← or_fail (to_column new_balance) db_error
  write_balance user_id v
  pure new_balance

-- `AdjustBalance`: the new balance is written as it was computed.
unfoldable pub adjust_balance : ℕ → ℤ → Db → Result BetError ℤ × Db
unfolding adjust_tx
adjust_balance user_id delta = in_tx (adjust_tx user_id delta)

-- ===== src/Bet/Place.antt =====
-- What an accepted bet has done, step by step.
use tchebets_open.Prelude.{
  ℕ, ◌≤◌, ◌<◌, String, ◌≡◌, refl, true, some, ok, inl, inr, Option-cases, arith, ℤ, pos, negsuc,
  ◌-ℤ◌, lookup, contains,
}
use tchebets_open.Bet.Models.{Market, User, Bet, Db, is_open}
use tchebets_open.Bet.Statements.{add_balance, add_pool, insert_bet}
use tchebets_open.Bet.Wealth.{wealth, at_stake-add_row}
use tchebets_open.Bet.Credits.{add_balance-OnlyBalances, held-debit, known_of_lookup}
use tchebets_open.Bet.Frames.{add_pool-OnlyPools, insert_bet-Inserted, live_of_open}
use tchebets_open.Bet.Market.{place_bet_tx, place_bet}
use tchebets_open.Bet.Inversion.{Tx-cases, in_tx-ok}

module _ (bet_id now user_id market_id : ℕ) (outcome : String) where
  abbrev pub placed : ℕ → Bet
  placed n = record {
    market_id = market_id;
    user_id = user_id;
    original_user_id = user_id;
    outcome = outcome;
    stake = n;
    created_at = now;
  }

  -- The statements of an accepted bet of `n`, from `db` over `paid` and `pooled` to `db'`.
  pub record Accepted (n : ℕ) (db paid pooled db' : Db) : Type 0 where
    pub market : Market
    pub user : User
    pub positive : 0 < n
    pub is_market : lookup market_id db.markets ≡ some market
    pub market_open : is_open market.status ≡ true
    pub offered : contains outcome market.outcomes ≡ true
    pub is_user : lookup user_id db.users ≡ some user
    pub covered : n ≤ user.balance
    pub debit : add_balance user_id (pos 0 -ℤ pos n) db ≡ ok (tt, paid)
    pub pool : add_pool market_id outcome (pos n) paid ≡ ok (tt, pooled)
    pub insert : insert_bet bet_id (placed n) pooled ≡ ok (tt, db')

  abbrev pub Outcome : ℤ → Bet → Db → Db → Type 0
  Outcome stake b db db' =
      (n : ℕ) × (paid : Db) × (pooled : Db) × (stake ≡ pos n)
      × (b ≡ placed n)
      × Accepted n db paid pooled db'

  place_bet_tx-Accepted :
      (stake : ℤ) (b : Bet) (db db' : Db)
      → place_bet_tx bet_id now user_id market_id outcome stake db ≡ ok (b, db')
      → Outcome stake b db db'
  unfolding place_bet_tx
  place_bet_tx-Accepted (negsuc k) b db db' e = absurd (ground arith)
  place_bet_tx-Accepted (pos n) b db db' e = elim (Option-cases (lookup market_id db.markets)) [
    | inl q ↦ absurd (ground arith)
    | inr (m, q) ↦ elim (Option-cases (lookup user_id db.users)) [
      | inl r ↦ absurd (ground arith)
      | inr (u, r) ↦ elim (Tx-cases (add_balance user_id (pos 0 -ℤ pos n) db)) [
        | inr (x, s) ↦ absurd (ground arith)
        | inl (paid, s) ↦ elim (Tx-cases (add_pool market_id outcome (pos n) paid)) [
          | inr (x, t) ↦ absurd (ground arith)
          | inl (pooled, t) ↦ (
            n,
            paid,
            pooled,
            refl,
            ground arith,
            record {
              market = m;
              user = u;
              positive = ground arith;
              is_market = q;
              market_open = ground arith;
              offered = ground arith;
              is_user = r;
              covered = ground arith;
              debit = s;
              pool = t;
              insert = ground arith;
            },
          )
        ]
      ]
    ]
  ]

  pub place_bet-Accepted :
      (stake : ℤ) (b : Bet) (db db' : Db)
      → place_bet bet_id now user_id market_id outcome stake db ≡ (ok b, db')
      → Outcome stake b db db'
  unfolding place_bet
  place_bet-Accepted stake b db db' e =
      place_bet_tx-Accepted stake b db db'
        (in_tx-ok (place_bet_tx bet_id now user_id market_id outcome stake) db db' b e)

Accepted-conserves :
    (bet_id now user_id market_id : ℕ) (outcome : String) (n : ℕ) (db paid pooled db' : Db)
    → Accepted bet_id now user_id market_id outcome n db paid pooled db'
    → wealth db' ≡ wealth db
unfolding wealth
Accepted-conserves bet_id now user_id market_id outcome n db paid pooled db' a =
    let bet = placed bet_id now user_id market_id outcome n in
    let only = add_balance-OnlyBalances user_id (pos 0 -ℤ pos n) db paid a.debit in
    let frame = add_pool-OnlyPools market_id outcome (pos n) paid pooled a.pool in
    let row = insert_bet-Inserted bet_id bet pooled db' a.insert in
    ground (
      arith,
      only.markets,
      only.bets,
      frame.users,
      frame.markets,
      frame.bets,
      row.result,
      held-debit user_id n db paid (known_of_lookup user_id a.user db a.is_user) a.debit,
      at_stake-add_row pooled.markets bet_id bet pooled.bets,
      a.is_market,
      a.market_open,
      live_of_open a.market.status,
    )

-- An accepted bet moves its stake from the balance of its user to the stakes of an open market: the
-- sum of all balances and of all stakes that wait for a settlement stays the same.
pub place_bet_conserves :
    (bet_id now user_id market_id : ℕ) (outcome : String) (stake : ℤ) (b : Bet) (db db' : Db)
    → place_bet bet_id now user_id market_id outcome stake db ≡ (ok b, db')
    → wealth db' ≡ wealth db
place_bet_conserves bet_id now user_id market_id outcome stake b db db' e =
    let (n, paid, pooled, _, _, a) =
      place_bet-Accepted bet_id now user_id market_id outcome stake b db db' e in
    Accepted-conserves bet_id now user_id market_id outcome n db paid pooled db' a

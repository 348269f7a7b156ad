-- ===== src/Bet/PlaceValid.antt =====
-- An accepted bet keeps the pools equal to the stakes.
use tchebets_open.Prelude.{
  ℕ, ◌+◌, String, ◌≡◌, ◌∙◌, true, some, ok, inl, inr, Option-cases, arith, ℤ, pos, ◌-ℤ◌, Table,
  lookup, add_row, total-add_row, eq_iff,
}
use tchebets_open.Bet.Models.{Bet, Db}
use tchebets_open.Bet.Statements.{is_some, lookup_pool, set_pool}
use tchebets_open.Bet.Market.{place_bet}
use tchebets_open.Bet.Wealth.{stake_in, stake_on, stake_if_in, stake_if_on}
use tchebets_open.Bet.Credits.{known, add_balance-OnlyBalances, known_of_lookup}
use tchebets_open.Bet.Frames.{add_pool-OnlyPools, add_pool-result, insert_bet-Inserted}
use tchebets_open.Bet.Place.{placed, place_bet-Accepted}
use tchebets_open.Bet.Tables.{BetsKnown-add_row, lookup-set_pool, pools_in-set_pool, Keyed-set_pool}
use tchebets_open.Bet.Valid.{IsValid}
use tchebets_open.Bet.Keeps.{Kept-IsValid, OnlyBalances-Kept}

pub stake_in-add_row :
    (m i : ℕ) (b : Bet) (bets : Table Bet)
    → stake_in m (add_row i b bets) ≡ stake_in m bets + stake_if_in m b
unfolding stake_in
stake_in-add_row m i b bets = total-add_row (stake_if_in m) i b bets

pub stake_on-add_row :
    (m i : ℕ) (o : String) (b : Bet) (bets : Table Bet)
    → stake_on m o (add_row i b bets) ≡ stake_on m o bets + stake_if_on m o b
unfolding stake_on
stake_on-add_row m i o b bets = total-add_row (stake_if_on m o) i b bets

-- A pool and a bet that grow together, over tables that are valid.
raise_pool-IsValid :
    (id t : ℕ) (b : Bet) (db : Db)
    → IsValid db
    → lookup_pool b.market_id b.outcome db.pools ≡ some t
    → known b.user_id db ≡ true
    → is_some (lookup b.market_id db.markets) ≡ true
    → IsValid (record db {
      pools = set_pool b.market_id b.outcome (t + b.stake) db.pools;
      bets = add_row id b db.bets;
    })
raise_pool-IsValid id t b db v l ku km = record {
  balanced = record {
    bets_known = BetsKnown-add_row db.users db.markets id b db.bets ku km v.balanced.bets_known;
    keyed = Keyed-set_pool b.market_id b.outcome (t + b.stake) db.pools v.balanced.keyed;
    market_staked = λ m. ground (
      arith,
      v.balanced.market_staked m,
      stake_in-add_row m id b db.bets,
      pools_in-set_pool b.market_id m b.outcome (t + b.stake) t db.pools l,
    );
    pool_staked = λ m o. ground (
      arith,
      v.balanced.pool_staked m o,
      stake_on-add_row m id o b db.bets,
      lookup-set_pool b.market_id m b.outcome o (t + b.stake) db.pools,
      l,
      eq_iff b.outcome o,
    );
    house_known = v.balanced.house_known;
  };
  pooled = λ m k o q h.
      ground (
        arith,
        v.pooled m k o q h,
        lookup-set_pool b.market_id m b.outcome o (t + b.stake) db.pools,
      );
}

-- After an accepted bet on valid tables the tables are valid: the pools are the stakes, the keys
-- known.
pub place_bet-IsValid :
    (bet_id now user_id market_id : ℕ) (outcome : String) (stake : ℤ) (b : Bet) (db db' : Db)
    → IsValid db
    → place_bet bet_id now user_id market_id outcome stake db ≡ (ok b, db')
    → IsValid db'
place_bet-IsValid bet_id now user_id market_id outcome stake b db db' v e =
    let (n, paid, pooled, _, _, a) =
      place_bet-Accepted bet_id now user_id market_id outcome stake b db db' e in
    let only = add_balance-OnlyBalances user_id (pos 0 -ℤ pos n) db paid a.debit in
    let v1 = Kept-IsValid db paid (OnlyBalances-Kept db paid only) only.pools only.bets v in
    let frame = add_pool-OnlyPools market_id outcome (pos n) paid pooled a.pool in
    let bet = placed bet_id now user_id market_id outcome n in
    let row = insert_bet-Inserted bet_id bet pooled db' a.insert in
    let has = v1.pooled market_id a.market outcome (rw only.markets a.is_market) a.offered in
    elim (Option-cases (lookup_pool market_id outcome paid.pools)) [
      | inl q ↦ absurd (ground arith)
      | inr (t, q) ↦
          let raised =
            raise_pool-IsValid bet_id t bet paid v1 q
              (only.users user_id ∙ known_of_lookup user_id a.user db a.is_user)
              (ground (arith, only.markets, a.is_market)) in
          let same : db' ≡ record paid {
            pools = set_pool market_id outcome (t + n) paid.pools;
            bets = add_row bet_id bet paid.bets;
          } =
            ground (
              arith,
              row.result,
              frame.users,
              frame.markets,
              frame.bets,
              frame.listings,
              add_pool-result market_id outcome n t paid pooled q a.pool,
            ) in
          rw same raised
    ]

-- ===== src/Bet/Taken.antt =====
-- `PlaceBet` with its conditions met.
use Prim.Native.String.{count}
use tchebets_open.Prelude.{
  ℕ, ◌+◌, ◌-◌, ◌≤◌, ◌<◌, String, ◌≡◌, refl, true, false, ltb, ◌==◌, none, some, ok, arith, pos,
  ◌-ℤ◌, lookup, lookup-modify, modify, add_row, contains,
}
use tchebets_open.Int64.{int64_limit}
use tchebets_open.Bet.Models.{Market, User, Bet, Db, is_open}
use tchebets_open.Bet.Statements.{is_some, add_balance, add_pool, insert_bet, lookup_pool, set_pool}
use tchebets_open.Bet.Market.{place_bet}
use tchebets_open.Bet.Credits.{set_balance}
use tchebets_open.Bet.Place.{placed}

pub debit-taken :
    (id n : ℕ) (u : User) (db : Db)
    → lookup id db.users ≡ some u
    → n ≤ u.balance
    → u.balance < int64_limit
    → add_balance id (pos 0 -ℤ pos n) db ≡ ok (tt, set_balance id (u.balance - n) db)
unfolding add_balance
debit-taken id n u db e h f = ground arith

pool-taken :
    (m n t : ℕ) (o : String) (db : Db)
    → lookup_pool m o db.pools ≡ some t
    → t + n < int64_limit
    → add_pool m o (pos n) db ≡ ok (tt, record db { pools = set_pool m o (t + n) db.pools })
unfolding add_pool
pool-taken m n t o db e h = ground arith

insert-taken :
    (id : ℕ) (b : Bet) (db : Db)
    → 0 < b.stake
    → lookup id db.bets ≡ none
    → count b.outcome ≤ 100
    → is_some (lookup b.market_id db.markets) ≡ true
    → is_some (lookup b.user_id db.users) ≡ true
    → insert_bet id b db ≡ ok (tt, record db { bets = add_row id b db.bets })
unfolding insert_bet
insert-taken id b db p e c m u =
    let positive : (b.stake == 0) ≡ false = ground arith in
    let short : ltb 100 (count b.outcome) ≡ false = ground arith in
    rw (e, positive, short, m, u) refl

-- A bet of a known user who has the stake, on an outcome of an open market whose pool has room, is
-- taken: the stake leaves the balance and joins the pool, and the bet is recorded under its fresh
-- id.
pub place_bet_taken :
    (bet_id now user_id market_id n t : ℕ) (outcome : String) (m : Market) (u : User) (db : Db)
    → 0 < n
    → lookup market_id db.markets ≡ some m
    → is_open m.status ≡ true
    → contains outcome m.outcomes ≡ true
    → count outcome ≤ 100
    → lookup user_id db.users ≡ some u
    → n ≤ u.balance
    → u.balance < int64_limit
    → lookup_pool market_id outcome db.pools ≡ some t
    → t + n < int64_limit
    → lookup bet_id db.bets ≡ none
    → place_bet bet_id now user_id market_id outcome (pos n) db ≡ (
      ok (placed bet_id now user_id market_id outcome n),
      record db {
        users = modify user_id (λ w. record w { balance = u.balance - n }) db.users;
        pools = set_pool market_id outcome (t + n) db.pools;
        bets = add_row bet_id (placed bet_id now user_id market_id outcome n) db.bets;
      },
    )
unfolding place_bet
place_bet_taken bet_id now user_id market_id n t outcome m u db p im op off short iu cov fits ip
      room fresh =
    let paid : Db = set_balance user_id (u.balance - n) db in
    let pooled : Db = record paid { pools = set_pool market_id outcome (t + n) db.pools } in
    let e₁ = debit-taken user_id n u db iu cov fits in
    let e₂ = pool-taken market_id n t outcome paid ip room in
    let e₃ =
      insert-taken bet_id (placed bet_id now user_id market_id outcome n) pooled p fresh short
        (ground arith)
        (ground (
          arith,
          lookup-modify user_id user_id (λ (w : User). record w { balance = u.balance - n })
              db.users,
        )) in
    ground (arith, e₁, e₂, e₃)

-- ===== src/Bet/CreateValid.antt =====
-- `CreateMarket`: the seeds come out of the balance of the house, and the new pools hold them.
use tchebets_open.Prelude.{
  ℕ, ◌+◌, ◌*◌, ◌<◌, ◌≤◌, String, ◌≡◌, refl, true, none, some, List, [], ◌∷◌, ok, inl, inr,
  Option-cases, Bool-cases, arith, ltb, ℤ, pos, negsuc, ◌-ℤ◌, Table, lookup, add_row,
  lookup-add_row, length,
}
use tchebets_open.Int64.{int64_limit, mul64, mul64-pos}
use tchebets_open.Bet.Models.{Market, User, Bet, Db, house_user_id, status_open}
use tchebets_open.Bet.Statements.{insert_market, add_balance}
use tchebets_open.Bet.Create.{create_market, debit_house, seed_outcomes}
use tchebets_open.Bet.Wealth.{at_stake, held}
use tchebets_open.Bet.Credits.{
  known, OnlyBalances, OnlyBalances-refl, add_balance-OnlyBalances, held-debit,
}
use tchebets_open.Bet.Inversion.{Tx-cases}
use tchebets_open.Bet.Frames.{insert_market-result}
use tchebets_open.Bet.Tables.{BetsKnown, BetsKnown-keep}
use tchebets_open.Bet.Valid.{Balanced}
use tchebets_open.Bet.Keeps.{OnlyBalances-Balanced}
use tchebets_open.Bet.Seeds.{Seeded, seed_outcomes-Seeded}

abbrev pub new_market : String → List String → ℕ → ℕ → Market
new_market question outcomes n now = record {
  question = question;
  outcomes = outcomes;
  status = status_open;
  seed = n;
  winning_outcome = none;
  created_at = now;
}

abbrev pub with_market : ℕ → Market → Db → Db
with_market m k db = record db { markets = add_row m k db.markets }

-- A creation that succeeds, statement by statement.
pub record Created (m : ℕ) (bet_id : ℕ → ℕ) (now : ℕ) (question : String) (os : List String) (n : ℕ)
    (db mid db' : Db) : Type 0 where
  pub enough : 2 ≤ length os
  pub fresh : lookup m db.markets ≡ none
  pub debit :
      debit_house
        (mul64 (pos n) (pos (length os)))
        (with_market m (new_market question os n now) db)
      ≡ ok (tt, mid)
  pub seeds : seed_outcomes m now n bet_id 0 os mid ≡ ok (tt, db')

module _ (m : ℕ) (bet_id : ℕ → ℕ) (now : ℕ) (question : String) (os : List String) where
  pub create-Created :
      (seed : ℤ) (k : Market) (db db' : Db)
      → create_market m bet_id now question os seed db ≡ (ok k, db')
      → (n : ℕ) × (mid : Db) × (seed ≡ pos n) × Created m bet_id now question os n db mid db'
  unfolding create_market
  create-Created (negsuc s) k db db' e = absurd (ground arith)
  create-Created (pos n) k db db' e =
      let row = new_market question os n now in
      elim (Tx-cases (insert_market m row db)) [
        | inr (x, p) ↦ absurd (ground arith)
        | inl (start, p) ↦
            let (fresh, same) = insert_market-result m row db start p in
            elim (Tx-cases (debit_house (mul64 (pos n) (pos (length os))) start)) [
              | inr (x, q) ↦ absurd (ground arith)
              | inl (mid, q) ↦ elim (Tx-cases (seed_outcomes m now n bet_id 0 os mid)) [
                | inr (x, r) ↦ absurd (ground arith)
                | inl (last, r) ↦ (
                  n,
                  mid,
                  refl,
                  record {
                    enough = ground arith;
                    fresh = fresh;
                    debit = rw same at q;
                    seeds = ground arith;
                  },
                )
              ]
            ]
      ]

-- The debit is exact where the product of the seeds is an `int64`.
debit_house-held :
    (n : ℕ) (db db' : Db)
    → known house_user_id db ≡ true
    → debit_house (pos n) db ≡ ok (tt, db')
    → (held db'.users + n ≡ held db.users) × OnlyBalances db db'
unfolding debit_house
debit_house-held n db db' k e = elim (Bool-cases (ltb 0 n)) [
  | inl p ↦ elim (Option-cases (lookup house_user_id db.users)) [
    | inl q ↦ absurd (ground arith)
    | inr (u, q) ↦
        let done : add_balance house_user_id (pos 0 -ℤ pos n) db ≡ ok (tt, db') = ground arith in
        (
          held-debit house_user_id n db db' k done,
          add_balance-OnlyBalances house_user_id (pos 0 -ℤ pos n) db db' done,
        )
  ]
  | inr p ↦
      let same : db' ≡ db = ground arith in (rw same (ground arith), rw same (OnlyBalances-refl db))
]

-- A new market is no market of an old bet.
pub at_stake-with_market :
    (m : ℕ) (k : Market) (users : Table User) (markets : Table Market) (bets : Table Bet)
    → lookup m markets ≡ none
    → BetsKnown users markets bets
    → at_stake (add_row m k markets) bets ≡ at_stake markets bets
unfolding at_stake
at_stake-with_market m k users markets [] fresh b = refl
at_stake-with_market m k users markets ((i, c) ∷ bets) fresh b = ground (
  arith,
  at_stake-with_market m k users markets bets fresh b.2,
  lookup-add_row m c.market_id k markets fresh,
  b.1,
  fresh,
)

with_market-Balanced :
    (m : ℕ) (k : Market) (db : Db)
    → lookup m db.markets ≡ none
    → Balanced db
    → Balanced (with_market m k db)
with_market-Balanced m k db fresh b = record {
  bets_known =
      BetsKnown-keep db.users db.users db.markets (add_row m k db.markets) db.bets (λ j h. h)
        (λ j h. ground (arith, lookup-add_row m j k db.markets fresh)) b.bets_known;
  keyed = b.keyed;
  market_staked = b.market_staked;
  pool_staked = b.pool_staked;
  house_known = b.house_known;
}

-- What a creation that succeeds has done, with the statements put together.
pub record Opened (m n : ℕ) (os : List String) (db mid db' : Db) : Type 0 where
  pub seeded : Seeded m n os mid db'
  pub only : OnlyBalances db mid
  pub paid : held mid.users + n * length os ≡ held db.users

module _ (m : ℕ) (bet_id : ℕ → ℕ) (now : ℕ) (question : String) (os : List String) (n : ℕ)
    (db mid db' : Db) where
  pub Created-Opened :
      Balanced db
      → n * length os < int64_limit
      → Created m bet_id now question os n db mid db'
      → Opened m n os (with_market m (new_market question os n now) db) mid db'
  Created-Opened b small c =
      let k = new_market question os n now in
      let start = with_market m k db in
      let v = with_market-Balanced m k db c.fresh b in
      let debit : debit_house (pos (n * length os)) start ≡ ok (tt, mid) =
        rw (← mul64-pos n (length os) small) c.debit in
      let (paid, only) = debit_house-held (n * length os) start mid b.house_known debit in
      let found : lookup m mid.markets ≡ some k =
        rw only.markets (ground (arith, lookup-add_row m m k db.markets c.fresh)) in
      record {
        seeded =
            seed_outcomes-Seeded m now n bet_id 0 os mid db'
              (OnlyBalances-Balanced start mid only v) (ground (arith, found))
              (ground (arith, found)) c.seeds;
        only = only;
        paid = paid;
      }

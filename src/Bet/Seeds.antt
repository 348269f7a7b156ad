-- ===== src/Bet/Seeds.antt =====
-- The loop of `CreateMarket` over the outcomes: a pool for each, and a bet of the house in it.
use tchebets_open.Prelude.{
  ℕ, ◌+◌, ◌*◌, String, ◌≡◌, refl, ◌∙◌, true, none, List, [], ◌∷◌, ◌++◌, ok, inl, inr, Bool-cases,
  arith, ltb, str_eq, lookup, add_row, contains, length, eq_iff, if◌then◌else◌,
}
use tchebets_open.Bet.Models.{Pool, Db}
use tchebets_open.Bet.Errors.{Tx, pure}
use tchebets_open.Bet.Statements.{is_some, lookup_pool, insert_pool, insert_bet}
use tchebets_open.Bet.Create.{seed_bet, seed_outcomes}
use tchebets_open.Bet.Wealth.{at_stake, at_stake-add_row, live_market}
use tchebets_open.Bet.Inversion.{Tx-cases}
use tchebets_open.Bet.Frames.{insert_pool-result, insert_bet-Inserted}
use tchebets_open.Bet.Tables.{BetsKnown-add_row, lookup-add_pool, pools_in-add_pool, Keyed-add_pool}
use tchebets_open.Bet.Valid.{Balanced}
use tchebets_open.Bet.PlaceValid.{stake_in-add_row, stake_on-add_row}

-- What a part of the loop has done: `n` a turn on the market `m`.
pub record Seeded (m n : ℕ) (os : List String) (db db' : Db) : Type 0 where
  pub users : db'.users ≡ db.users
  pub markets : db'.markets ≡ db.markets
  pub balanced : Balanced db'
  pub staked : at_stake db'.markets db'.bets ≡ at_stake db.markets db.bets + n * length os
  pub kept :
      (j : ℕ) (o : String)
      → is_some (lookup_pool j o db.pools) ≡ true
      → is_some (lookup_pool j o db'.pools) ≡ true
  pub pooled : (o : String) → contains o os ≡ true → is_some (lookup_pool m o db'.pools) ≡ true

abbrev seed_row : (m now n i : ℕ) → (ℕ → ℕ) → String → Tx (Unit {0})
seed_row m now n i bet_id o =
    if ltb 0 n then insert_bet (bet_id i) (seed_bet m now n o) else pure tt

abbrev with_pool : ℕ → ℕ → String → Db → Db
with_pool m n o db = record db {
  pools = db.pools ++ record { market_id = m; outcome = o; total = n } ∷ [];
}

with_pool-kept :
    (m n j : ℕ) (o q : String) (db : Db)
    → lookup_pool m o db.pools ≡ none
    → is_some (lookup_pool j q db.pools) ≡ true
    → is_some (lookup_pool j q (with_pool m n o db).pools) ≡ true
with_pool-kept m n j o q db fresh h =
    ground
      (arith, lookup-add_pool j q (record { market_id = m; outcome = o; total = n }) db.pools fresh)

with_pool-pooled :
    (m n : ℕ) (o q : String) (db : Db)
    → lookup_pool m o db.pools ≡ none
    → str_eq o q ≡ true
    → is_some (lookup_pool m q (with_pool m n o db).pools) ≡ true
with_pool-pooled m n o q db fresh h = ground (
  arith,
  lookup-add_pool m q (record { market_id = m; outcome = o; total = n }) db.pools fresh,
  eq_iff o q,
)

-- A turn without a seed: an empty pool.
empty_pool-Balanced :
    (m : ℕ) (o : String) (db : Db)
    → lookup_pool m o db.pools ≡ none
    → Balanced db
    → Balanced (with_pool m 0 o db)
empty_pool-Balanced m o db fresh b =
    let p : Pool = record { market_id = m; outcome = o; total = 0 } in
    record {
      bets_known = b.bets_known;
      keyed = Keyed-add_pool p db.pools fresh b.keyed;
      market_staked = λ j. ground (arith, b.market_staked j, pools_in-add_pool j p db.pools);
      pool_staked = λ j q. ground (
        arith,
        b.pool_staked j q,
        b.pool_staked m o,
        lookup-add_pool j q p db.pools fresh,
        fresh,
        eq_iff o q,
      );
      house_known = b.house_known;
    }

-- A turn with one: a pool that holds the bet of the house.
seeded_pool-Balanced :
    (m now n i : ℕ) (o : String) (db : Db)
    → lookup_pool m o db.pools ≡ none
    → is_some (lookup m db.markets) ≡ true
    → Balanced db
    → Balanced (record (with_pool m n o db) { bets = add_row i (seed_bet m now n o) db.bets })
seeded_pool-Balanced m now n i o db fresh km b =
    let p : Pool = record { market_id = m; outcome = o; total = n } in
    let bet = seed_bet m now n o in
    record {
      bets_known =
          BetsKnown-add_row db.users db.markets i bet db.bets b.house_known km b.bets_known;
      keyed = Keyed-add_pool p db.pools fresh b.keyed;
      market_staked = λ j. ground (
        arith,
        b.market_staked j,
        pools_in-add_pool j p db.pools,
        stake_in-add_row j i bet db.bets,
      );
      pool_staked = λ j q. ground (
        arith,
        b.pool_staked j q,
        b.pool_staked m o,
        lookup-add_pool j q p db.pools fresh,
        stake_on-add_row j i q bet db.bets,
        fresh,
        eq_iff o q,
      );
      house_known = b.house_known;
    }

-- One turn.
turn-Seeded :
    (m now n i : ℕ) (bet_id : ℕ → ℕ) (o : String) (db mid db' : Db)
    → Balanced db
    → live_market db.markets m ≡ true
    → is_some (lookup m db.markets) ≡ true
    → insert_pool m o n db ≡ ok (tt, mid)
    → seed_row m now n i bet_id o mid ≡ ok (tt, db')
    → Seeded m n (o ∷ []) db db'
turn-Seeded m now n i bet_id o db mid db' b live km p q =
    let (fresh, pool) = insert_pool-result m o n db mid p in
    elim (Bool-cases (ltb 0 n)) [
      | inl s ↦
          let bet = seed_bet m now n o in
          let row = insert_bet-Inserted (bet_id i) bet mid db' (ground arith) in
          let result : db' ≡ record (with_pool m n o db) { bets = add_row (bet_id i) bet db.bets } =
            ground (arith, row.result, pool) in
          rw result (record {
            users = refl;
            markets = refl;
            balanced = seeded_pool-Balanced m now n (bet_id i) o db fresh km b;
            staked = ground (arith, at_stake-add_row db.markets (bet_id i) bet db.bets, live);
            kept = λ j r h. with_pool-kept m n j o r db fresh h;
            pooled = λ r h. with_pool-pooled m n o r db fresh (ground arith);
          })
      | inr s ↦
          let zero_seed : n ≡ 0 = ground arith in
          let result : db' ≡ with_pool m n o db = ground (arith, pool) in
          rw result (record {
            users = refl;
            markets = refl;
            balanced = rw zero_seed (empty_pool-Balanced m o db fresh b);
            staked = rw zero_seed (omega arith);
            kept = λ j r h. with_pool-kept m n j o r db fresh h;
            pooled = λ r h. with_pool-pooled m n o r db fresh (ground arith);
          })
    ]

Seeded-cons :
    (m n : ℕ) (o : String) (os : List String) (db mid db' : Db)
    → Seeded m n (o ∷ []) db mid
    → Seeded m n os mid db'
    → Seeded m n (o ∷ os) db db'
Seeded-cons m n o os db mid db' s r = record {
  users = r.users ∙ s.users;
  markets = r.markets ∙ s.markets;
  balanced = r.balanced;
  staked = omega (arith, s.staked, r.staked);
  kept = λ j q h. r.kept j q (s.kept j q h);
  pooled = λ q h. ground (arith, r.pooled q, s.pooled q, r.kept m q);
}

-- The whole loop stakes the seed once for each outcome, and gives each a pool.
pub seed_outcomes-Seeded :
    (m now n : ℕ) (bet_id : ℕ → ℕ) (i : ℕ) (os : List String) (db db' : Db)
    → Balanced db
    → live_market db.markets m ≡ true
    → is_some (lookup m db.markets) ≡ true
    → seed_outcomes m now n bet_id i os db ≡ ok (tt, db')
    → Seeded m n os db db'
unfolding seed_outcomes
seed_outcomes-Seeded m now n bet_id i [] db db' b live km e =
    let same : db' ≡ db = ground arith in
    rw same (record {
      users = refl;
      markets = refl;
      balanced = b;
      staked = omega arith;
      kept = λ j o h. h;
      pooled = λ o h. absurd (ground arith);
    })
seed_outcomes-Seeded m now n bet_id i (o ∷ os) db db' b live km e =
    elim (Tx-cases (insert_pool m o n db)) [
      | inr (x, p) ↦ absurd (ground arith)
      | inl (mid, p) ↦ elim (Tx-cases (seed_row m now n i bet_id o mid)) [
        | inr (x, q) ↦ absurd (ground arith)
        | inl (last, q) ↦
            let s = turn-Seeded m now n i bet_id o db mid last b live km p q in
            let rest =
              seed_outcomes-Seeded m now n bet_id (i + 1) os last db' s.balanced (rw s.markets live)
                (rw s.markets km) (ground arith) in
            Seeded-cons m n o os db last db' s rest
      ]
    ]

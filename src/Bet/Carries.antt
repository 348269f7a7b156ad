-- ===== src/Bet/Carries.antt =====
-- The requests to bet-backend that leave the listings alone, or cancel those of the market they close.
use tchebets_open.Prelude.{
  ℕ, ◌+◌, String, ◌≡◌, refl, true, false, List, [], ◌∷◌, ok, inl, inr, ℤ, pos, ◌-ℤ◌, arith, ltb,
  length, Option-cases, Bool-cases, lookup, modify, add_row, lookup-add_row, if◌then◌else◌,
}
use tchebets_open.Int64.{mul64}
use tchebets_open.Bet.Models.{Market, Bet, Db, status_locked, status_cancelled}
use tchebets_open.Bet.Errors.{Tx, pure, in_tx}
use tchebets_open.Bet.Statements.{insert_pool, insert_bet}
use tchebets_open.Bet.Frames.{
  add_pool-OnlyPools, OnlyPools, insert_pool-result, insert_bet-Inserted,
}
use tchebets_open.Bet.Market.{
  place_bet, place_bet_tx, lock_market, lock_tx, refund_market_internal, refund_tx, resolve_market,
  resolve_tx, adjust_balance, adjust_tx, write_balance, market_bets,
}
use tchebets_open.Bet.Create.{create_market, create_tx, seed_outcomes, seed_bet, sync_user}
use tchebets_open.Bet.Credits.{OnlyBalances, add_balance-OnlyBalances}
use tchebets_open.Bet.Inversion.{Run-cases, Tx-cases}
use tchebets_open.Bet.Place.{placed, place_bet-Accepted}
use tchebets_open.Bet.CreateValid.{create-Created, with_market, new_market}
use tchebets_open.Bet.Refund.{delisted, refund-Refunded}
use tchebets_open.Bet.Lifecycle.{lock-result}
use tchebets_open.Bet.Closing.{refund_bets-Only, debit_house-Only, resolved_as, resolve_tx-Only}
use tchebets_open.Bet.Backing.{
  Carried, Carried-refl, Carried-trans, Carried-grown, Carried-same, Carried-credited,
  Carried-closed,
}

-- A transaction keeps what a successful run of it keeps.
pub in_tx-Carried :
    {A : Type 0} (m : Tx A) (db : Db)
    → ((a : A) (db' : Db) → m db ≡ ok (a, db') → Carried db db')
    → Carried db (in_tx m db).1
in_tx-Carried m db good = elim (Run-cases (m db)) [
  | inl (a, db', q) ↦ rw (q, in_tx) (good a db' q)
  | inr (x, q) ↦ rw (q, in_tx) (Carried-refl db)
]

pub in_tx-done :
    {A : Type 0} (m : Tx A) (db db' : Db) (a : A) → m db ≡ ok (a, db') → in_tx m db ≡ (ok a, db')
in_tx-done m db db' a e = rw (e, in_tx) refl

OnlyPools-Carried : (db db' : Db) → OnlyPools db db' → Carried db db'
OnlyPools-Carried db db' o = Carried-same db db' o.listings o.bets o.markets

bet-Carried : (id : ℕ) (b : Bet) (db db' : Db) → insert_bet id b db ≡ ok (tt, db') → Carried db db'
bet-Carried id b db db' e =
    let row = insert_bet-Inserted id b db db' e in
    rw row.result (
      Carried-grown db (record db { bets = add_row id b db.bets }) refl
        (λ i c q. ground (arith, lookup-add_row id i b db.bets row.fresh)) (λ i m q. q))

pub place-Carried :
    (b now u m : ℕ) (o : String) (stake : ℤ) (db : Db)
    → Carried db (place_bet b now u m o stake db).1
unfolding place_bet
place-Carried b now u m o stake db = in_tx-Carried (place_bet_tx b now u m o stake) db (λ r db' e.
    let (n, paid, pooled, _, _, a) =
      place_bet-Accepted b now u m o stake r db db'
        (in_tx-done (place_bet_tx b now u m o stake) db db' r e) in
    Carried-trans
      (Carried-credited db paid (add_balance-OnlyBalances u (pos 0 -ℤ pos n) db paid a.debit))
      (Carried-trans
        (OnlyPools-Carried paid pooled (add_pool-OnlyPools m o (pos n) paid pooled a.pool))
        (bet-Carried b (placed b now u m o n) pooled db' a.insert)))

abbrev seed_row : (m now n i : ℕ) → (ℕ → ℕ) → String → Tx (Unit {0})
seed_row m now n i ids o = if ltb 0 n then insert_bet (ids i) (seed_bet m now n o) else pure tt

seed_row-Carried :
    (m now n i : ℕ) (ids : ℕ → ℕ) (o : String) (db db' : Db)
    → seed_row m now n i ids o db ≡ ok (tt, db')
    → Carried db db'
seed_row-Carried m now n i ids o db db' e = elim (Bool-cases (ltb 0 n)) [
  | inl p ↦ bet-Carried (ids i) (seed_bet m now n o) db db' (ground arith)
  | inr p ↦ let same : db' ≡ db = ground arith in rw same (Carried-refl db)
]

pool-Carried :
    (m n : ℕ) (o : String) (db db' : Db) → insert_pool m o n db ≡ ok (tt, db') → Carried db db'
pool-Carried m n o db db' e =
    let (_, same) = insert_pool-result m o n db db' e in
    Carried-same db db' (ground (arith, same)) (ground (arith, same)) (ground (arith, same))

seeds-Carried :
    (m now n i : ℕ) (ids : ℕ → ℕ) (os : List String) (db db' : Db)
    → seed_outcomes m now n ids i os db ≡ ok (tt, db')
    → Carried db db'
unfolding seed_outcomes
seeds-Carried m now n i ids [] db db' e =
    let same : db' ≡ db = ground arith in rw same (Carried-refl db)
seeds-Carried m now n i ids (o ∷ os) db db' e = elim (Tx-cases (insert_pool m o n db)) [
  | inr (x, q) ↦ absurd (ground arith)
  | inl (mid, q) ↦ elim (Tx-cases (seed_row m now n i ids o mid)) [
    | inr (x, r) ↦ absurd (ground arith)
    | inl (last, r) ↦ Carried-trans (pool-Carried m n o db mid q) (
        Carried-trans (seed_row-Carried m now n i ids o mid last r)
          (seeds-Carried m now n (i + 1) ids os last db' (ground arith)))
  ]
]

pub create-Carried :
    (m : ℕ) (ids : ℕ → ℕ) (now : ℕ) (q : String) (os : List String) (seed : ℤ) (db : Db)
    → Carried db (create_market m ids now q os seed db).1
unfolding create_market
create-Carried m ids now q os seed db = in_tx-Carried (create_tx m ids now q os seed) db (λ r db' e.
    let (n, mid, _, c) =
      create-Created m ids now q os seed r db db'
        (in_tx-done (create_tx m ids now q os seed) db db' r e) in
    let row = new_market q os n now in
    let start = with_market m row db in
    Carried-trans
      (Carried-grown db start refl (λ i b l. l)
        (λ i k l. ground (arith, lookup-add_row m i row db.markets c.fresh)))
      (Carried-trans
        (Carried-credited start mid
          (debit_house-Only (mul64 (pos n) (pos (length os))) start mid c.debit))
        (seeds-Carried m now n 0 ids os mid db' c.seeds)))

pub lock-Carried : (now m : ℕ) (db : Db) → Carried db (lock_market now m db).1
unfolding lock_market
lock-Carried now m db = in_tx-Carried (lock_tx now m) db (λ r db' e.
    let (k, q, o, same) = lock-result now m db db' (in_tx-done (lock_tx now m) db db' tt e) in
    rw same (Carried-closed now m (λ k. record k { status = status_locked }) db))

-- The market is closed, over balances that changed.
closed-Carried :
    (now m : ℕ) (f : Market → Market) (db mid db' : Db)
    → OnlyBalances (delisted now m db) mid
    → db' ≡ record mid { markets = modify m f mid.markets }
    → Carried db db'
closed-Carried now m f db mid db' only same =
    let last = record (delisted now m db) { markets = modify m f db.markets } in
    Carried-trans (Carried-closed now m f db) (
      Carried-same last db' (ground (arith, same, only.listings)) (ground (arith, same, only.bets))
        (ground (arith, same, only.markets)))

pub refund-Carried : (now m : ℕ) (db : Db) → Carried db (refund_market_internal now m db).1
unfolding refund_market_internal
refund-Carried now m db = in_tx-Carried (refund_tx now m) db (λ r db' e.
    let (mid, c) = refund-Refunded now m db db' (in_tx-done (refund_tx now m) db db' tt e) in
    closed-Carried now m (λ k. record k { status = status_cancelled }) db mid db'
      (refund_bets-Only (market_bets m db.bets) (delisted now m db) mid c.paid) c.result)

pub resolve-Carried :
    (now m : ℕ) (win : String) (db : Db) → Carried db (resolve_market now m win db).1
unfolding resolve_market
resolve-Carried now m win db = elim (Run-cases (resolve_tx now m win db)) [
  | inr (x, q) ↦ rw q (Carried-refl db)
  | inl (false, mid, q) ↦ rw q (refund-Carried now m db)
  | inl (true, last, q) ↦
      let (mid, only, same) = resolve_tx-Only now m win db last q in
      rw q (closed-Carried now m (resolved_as win) db mid last only same)
]

pub adjust-Carried : (u : ℕ) (delta : ℤ) (db : Db) → Carried db (adjust_balance u delta db).1
unfolding adjust_balance adjust_tx write_balance
adjust-Carried u delta db = in_tx-Carried (adjust_tx u delta) db (λ r db' e.
    elim (Option-cases (lookup u db.users)) [
      | inl q ↦ absurd (ground arith)
      | inr (v, q) ↦ Carried-same db db' (ground arith) (ground arith) (ground arith)
    ])

pub sync-Carried : (now u : ℕ) (balance : ℤ) (db : Db) → Carried db (sync_user now u balance db).1
unfolding sync_user
sync-Carried now u balance db =
    Carried-same db (sync_user now u balance db).1 (ground arith) (ground arith) (ground arith)

-- ===== src/Bet/Resolve.antt =====
-- `ResolveMarket` conserves the money.
use tchebets_open.Prelude.{
  ℕ, sym, zero, suc, ◌==◌, ◌*◌, ◌≤◌, ◌<◌, String, ◌≡◌, refl, true, some, ok, ◌⊎◌, inl, inr,
  Option-cases, Bool-cases, arith, pos, lookup, contains, ◌∙◌, ap,
}
use native.Mathlib.Decide.{dec_le}
use tchebets_open.Int64.{int64_limit}
use tchebets_open.Bet.Models.{Market, Db, status_resolved}
use tchebets_open.Bet.Errors.{Tx}
use tchebets_open.Bet.Statements.{cancel_listings, lookup_pool}
use tchebets_open.Bet.Market.{
  scan_pools, refund_market_internal, settle, resolve_tx, resolve_market,
}
use tchebets_open.Bet.Wealth.{wealth, stake_on, pools_in, is_live, at_stake-settle}
use tchebets_open.Bet.Inversion.{Tx-cases}
use tchebets_open.Bet.Tables.{stake_on-le-stake_in, scan_pools-pos}
use tchebets_open.Bet.Valid.{IsValid}
use tchebets_open.Bet.Refund.{delisted, refund_conserves}
use tchebets_open.Bet.Settle.{Paid, settle-plain, settle-Paid}

square-bound : (t : ℕ) → t * t < int64_limit → t < int64_limit
square-bound zero h = omega arith
square-bound (suc t) h = grind arith

triple-bound : (t : ℕ) → t * t < int64_limit → t * 3 < int64_limit
triple-bound t h = elim (dec_le 3 t) [ yes p ↦ grind arith | no p ↦ omega arith ]

product-bound : (v t : ℕ) → v ≤ t → t * t < int64_limit → v * t < int64_limit
product-bound v t le h = grind arith

-- A resolution that succeeds with `win` as the winner of a market whose pools hold `t`, of which
-- `v` on the winner, or else a refund.
record Resolved (now m : ℕ) (win : String) (db db' : Db) : Type 0 where
  market : Market
  is_market : lookup m db.markets ≡ some market
  live : is_live market.status ≡ true
  offered : contains win market.outcomes ≡ true
  done :
      (((v : ℕ) × (lookup_pool m win db.pools ≡ some v)
          × (0 < v)
          × (settle m win (pos (pools_in m db.pools)) (pos v) (delisted now m db) ≡ ok (tt, db')))
        ⊎ ((lookup_pool m win db.pools ≡ some 0)
            × (refund_market_internal now m db ≡ (ok tt, db'))))

resolve-Resolved :
    (now m : ℕ) (win : String) (db db' : Db)
    → IsValid db
    → pools_in m db.pools < int64_limit
    → resolve_market now m win db ≡ (ok tt, db')
    → Resolved now m win db db'
unfolding resolve_market resolve_tx cancel_listings
resolve-Resolved now m win db db' valid small e = elim (Option-cases (lookup m db.markets)) [
  | inl q ↦ absurd (ground arith)
  | inr (k, q) ↦
      let scan = scan_pools-pos m win db.pools 0 (pos 0) valid.balanced.keyed (omega arith) in
      let offered : contains win k.outcomes ≡ true = ground arith in
      let has = valid.pooled m k win q offered in
      elim (Option-cases (lookup_pool m win db.pools)) [
        | inl r ↦ absurd (ground arith)
        | inr (v, r) ↦ record {
          market = k;
          is_market = q;
          live = ground arith;
          offered = offered;
          done =
              let t = pools_in m db.pools in
              let found : scan_pools m win db.pools (pos 0, pos 0) ≡ (pos t, pos v) =
                ground (arith, scan) in
              elim (Bool-cases (v == 0)) [
                | inl z ↦ inr (ground arith, ground (arith, found))
                | inr nz ↦ elim (Tx-cases (settle m win (pos t) (pos v) (delisted now m db))) [
                  | inr (x, w) ↦ absurd (ground (arith, found))
                  | inl (last, w) ↦ inl (v, r, ground arith, ground (arith, found))
                ]
              ];
        }
      ]
]

-- A resolution paid the pools out, or refunded the bets.
pub record Settled (m : ℕ) (win : String) (db db' : Db) : Type 0 where
  pub market : Market
  pub is_market : lookup m db.markets ≡ some market
  pub live : is_live market.status ≡ true
  pub paid : Paid m win (pools_in m db.pools) db db'

pub resolve-Settled :
    (now m : ℕ) (win : String) (db db' : Db)
    → IsValid db
    → pools_in m db.pools * pools_in m db.pools < int64_limit
    → resolve_market now m win db ≡ (ok tt, db')
    → Settled m win db db'
      ⊎ ((stake_on m win db.bets ≡ 0) × (refund_market_internal now m db ≡ (ok tt, db')))
resolve-Settled now m win db db' valid small e =
    let t = pools_in m db.pools in
    let r = resolve-Resolved now m win db db' valid (square-bound t small) e in
    elim r.done [
      | inr (z, q) ↦ inr (ground (arith, valid.balanced.pool_staked m win, z), q)
      | inl (v, l, p, q) ↦
          let staked : stake_on m win db.bets ≡ v =
            ground (arith, valid.balanced.pool_staked m win, l) in
          let le : v ≤ t =
            omega
              (arith, staked, valid.balanced.market_staked m, stake_on-le-stake_in m win db.bets) in
          let triple : t * 3 < int64_limit = triple-bound t small in
          let paid =
            settle-Paid m win t v (delisted now m db) db' valid.balanced.bets_known
              valid.balanced.house_known p staked triple (product-bound v t le small)
              (ap (λ (f : Tx (Unit {0})). f (delisted now m db))
                  (sym (settle-plain m win t v triple))
                ∙ q) in
          inl (record {
            market = r.market;
            is_market = r.is_market;
            live = r.live;
            paid = record {
              sum = paid.sum;
              each = paid.each;
              bets = paid.bets;
              pools = paid.pools;
              users = paid.users;
              markets = paid.markets;
            };
          })
    ]

-- On valid tables, a successful `ResolveMarket` turns the stakes of the market into balances, with
-- nothing lost or made, if the square of its pools is an `int64`: so too where the winning pool is
-- empty and the stakes are refunded.
pub resolve_conserves :
    (now m : ℕ) (win : String) (db db' : Db)
    → IsValid db
    → pools_in m db.pools * pools_in m db.pools < int64_limit
    → resolve_market now m win db ≡ (ok tt, db')
    → wealth db' ≡ wealth db
unfolding wealth
resolve_conserves now m win db db' valid small e =
    elim (resolve-Settled now m win db db' valid small e) [
      | inr (z, q) ↦ unfold wealth in refund_conserves now m db db' valid.balanced q
      | inl s ↦
          let settled =
            at_stake-settle m
              (λ (k : Market). record k { status = status_resolved; winning_outcome = some win })
              db.markets s.market db.bets s.is_market s.live refl in
          ground (
            arith,
            s.paid.sum,
            s.paid.bets,
            s.paid.markets,
            settled,
            valid.balanced.market_staked m,
          )
    ]

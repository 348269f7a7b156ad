-- ===== src/Bet/Refund.antt =====
-- `RefundMarketInternal` conserves the money.
use tchebets_open.Prelude.{
  ℕ, ◌≡◌, refl, true, some, ok, inl, inr, Option-cases, arith, lookup, modify, modify_all,
}
use tchebets_open.Bet.Models.{Market, Db, status_cancelled}
use tchebets_open.Bet.Statements.{set_status, cancel_listings, cancel_row}
use tchebets_open.Bet.Market.{market_bets, refund_bets, refund_market_internal}
use tchebets_open.Bet.Wealth.{wealth, is_live, at_stake-settle}
use tchebets_open.Bet.Inversion.{Tx-cases}
use tchebets_open.Bet.Payout.{refund_bets-held}
use tchebets_open.Bet.Tables.{BetsKnown, stakes-market_bets, PayeesKnown-market_bets}
use tchebets_open.Bet.Valid.{Balanced}

-- The tables once the listings of a market are cancelled.
abbrev pub delisted : ℕ → ℕ → Db → Db
delisted now m db = record db { listings = modify_all (cancel_row now m) db.listings }

-- A refund that succeeds met a live market, and paid back its bets.
pub record Refunded (now m : ℕ) (db mid db' : Db) : Type 0 where
  pub market : Market
  pub is_market : lookup m db.markets ≡ some market
  pub live : is_live market.status ≡ true
  pub paid : refund_bets (market_bets m db.bets) (delisted now m db) ≡ ok (tt, mid)
  pub result :
      db'
      ≡ record mid { markets = modify m (λ k. record k { status = status_cancelled }) mid.markets }

pub refund-Refunded :
    (now m : ℕ) (db db' : Db)
    → refund_market_internal now m db ≡ (ok tt, db')
    → (mid : Db) × Refunded now m db mid db'
unfolding refund_market_internal cancel_listings set_status
refund-Refunded now m db db' e = elim (Option-cases (lookup m db.markets)) [
  | inl q ↦ absurd (ground arith)
  | inr (k, q) ↦ elim (Tx-cases (refund_bets (market_bets m db.bets) (delisted now m db))) [
    | inr (x, r) ↦ absurd (ground arith)
    | inl (mid, r) ↦ (
      mid,
      record { market = k; is_market = q; live = ground arith; paid = r; result = ground arith },
    )
  ]
]

-- What stays once a market is refunded: its stakes have gone back to the balances.
Refunded-conserves :
    (now m : ℕ) (db mid db' : Db)
    → BetsKnown db.users db.markets db.bets
    → Refunded now m db mid db'
    → wealth db' ≡ wealth db
unfolding wealth
Refunded-conserves now m db mid db' k r =
    let (sum, only) =
      refund_bets-held (market_bets m db.bets) (delisted now m db) mid
        (PayeesKnown-market_bets m db.users db.markets db.bets k) r.paid in
    let settled =
      at_stake-settle m (λ (k : Market). record k { status = status_cancelled }) db.markets r.market
        db.bets r.is_market r.live refl in
    ground (arith, sum, only.markets, only.bets, r.result, stakes-market_bets m db.bets, settled)

-- A successful cancellation, on tables whose pools are their stakes, returns each stake to the
-- owner of its bet: balances and open stakes together stay the same.
pub refund_conserves :
    (now m : ℕ) (db db' : Db)
    → Balanced db
    → refund_market_internal now m db ≡ (ok tt, db')
    → wealth db' ≡ wealth db
refund_conserves now m db db' v e =
    let (mid, r) = refund-Refunded now m db db' e in
    Refunded-conserves now m db mid db' v.bets_known r

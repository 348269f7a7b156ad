-- ===== src/Bet/Lifecycle.antt =====
-- `LockMarket`, `RefundMarketInternal` and `ResolveMarket` keep the tables valid, and a lock moves
-- no money.
use tchebets_open.Prelude.{
  ℕ, ◌+◌, ◌*◌, ◌<◌, String, ◌≡◌, refl, ap, true, some, ok, inl, inr, Option-cases, arith, lookup,
  modify,
}
use tchebets_open.Int64.{int64_limit}
use tchebets_open.Bet.Models.{Market, Db, is_open, status_locked, status_resolved, status_cancelled}
use tchebets_open.Bet.Statements.{cancel_listings, set_status}
use tchebets_open.Bet.Market.{lock_market, refund_market_internal, resolve_market, market_bets}
use tchebets_open.Bet.Wealth.{wealth, held, at_stake-keep, pools_in}
use tchebets_open.Bet.Payout.{refund_bets-held}
use tchebets_open.Bet.Tables.{PayeesKnown-market_bets}
use tchebets_open.Bet.Valid.{IsValid}
use tchebets_open.Bet.Keeps.{Kept-IsValid, modify-Kept}
use tchebets_open.Bet.Refund.{delisted, refund-Refunded}
use tchebets_open.Bet.Resolve.{resolve-Settled}

-- The tables after a lock.
abbrev pub locked : ℕ → ℕ → Db → Db
locked now m db = record (delisted now m db) {
  markets = modify m (λ k. record k { status = status_locked }) db.markets;
}

pub lock-result :
    (now m : ℕ) (db db' : Db)
    → lock_market now m db ≡ (ok tt, db')
    → (k : Market) × (lookup m db.markets ≡ some k)
      × (is_open k.status ≡ true)
      × (db' ≡ locked now m db)
unfolding lock_market cancel_listings set_status
lock-result now m db db' e = elim (Option-cases (lookup m db.markets)) [
  | inl q ↦ absurd (ground arith)
  | inr (k, q) ↦ (k, q, ground arith, ground arith)
]

pub lock_conserves :
    (now m : ℕ) (db db' : Db) → lock_market now m db ≡ (ok tt, db') → wealth db' ≡ wealth db
unfolding wealth
lock_conserves now m db db' e =
    let (k, q, o, same) = lock-result now m db db' e in
    rw same (
      ap (λ (n : ℕ). held db.users + n)
        (at_stake-keep m (λ (c : Market). record c { status = status_locked }) db.markets k db.bets
          q (ground arith)))

-- After a successful `LockMarket` on valid tables the tables are valid.
pub lock-IsValid :
    (now m : ℕ) (db db' : Db) → IsValid db → lock_market now m db ≡ (ok tt, db') → IsValid db'
lock-IsValid now m db db' v e =
    let (k, q, o, same) = lock-result now m db db' e in
    let kept =
      modify-Kept m (λ (c : Market). record c { status = status_locked }) (λ c. refl) db
        (locked now m db) (λ j. refl) refl in
    rw same (Kept-IsValid db (locked now m db) kept refl refl v)

-- After a successful cancellation on valid tables the tables are valid.
pub refund-IsValid :
    (now m : ℕ) (db db' : Db)
    → IsValid db
    → refund_market_internal now m db ≡ (ok tt, db')
    → IsValid db'
refund-IsValid now m db db' v e =
    let (mid, r) = refund-Refunded now m db db' e in
    let (sum, only) =
      refund_bets-held (market_bets m db.bets) (delisted now m db) mid
        (PayeesKnown-market_bets m db.users db.markets db.bets v.balanced.bets_known) r.paid in
    let kept =
      modify-Kept m (λ (c : Market). record c { status = status_cancelled }) (λ c. refl) db db'
        (λ j. rw r.result (only.users j)) (ground (arith, r.result, only.markets)) in
    Kept-IsValid db db' kept (ground (arith, r.result, only.pools))
      (ground (arith, r.result, only.bets)) v

-- After a successful `ResolveMarket` on valid tables the tables are valid, if the square of the
-- pools of the market is an `int64`.
pub resolve-IsValid :
    (now m : ℕ) (win : String) (db db' : Db)
    → IsValid db
    → pools_in m db.pools * pools_in m db.pools < int64_limit
    → resolve_market now m win db ≡ (ok tt, db')
    → IsValid db'
resolve-IsValid now m win db db' v small e = elim (resolve-Settled now m win db db' v small e) [
  | inr (z, q) ↦ refund-IsValid now m db db' v q
  | inl s ↦
      Kept-IsValid db db'
        (modify-Kept m
          (λ (c : Market). record c { status = status_resolved; winning_outcome = some win })
          (λ c. refl) db db' s.paid.users s.paid.markets)
        s.paid.pools s.paid.bets v
]

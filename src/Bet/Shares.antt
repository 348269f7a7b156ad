-- ===== src/Bet/Shares.antt =====
-- What each user gets when a market is cancelled or resolved.
use tchebets_open.Prelude.{
  ℕ, String, ◌-◌, ◌+◌, ◌≡◌, refl, ◌&&◌, [], ◌∷◌, ok, inl, inr, arith, ◌==◌, if◌then◌else◌, Table,
  total, ◌*◌, ◌/◌, ◌<◌,
}
use tchebets_open.Int64.{int64_limit}
use tchebets_open.Bet.Models.{Bet, Db, house_user_id}
use tchebets_open.Bet.Market.{market_bets, winning_bets, resolve_market, refund_market_internal}
use tchebets_open.Bet.Payout.{payouts}
use tchebets_open.Bet.Tables.{PayeesKnown-market_bets}
use tchebets_open.Bet.Valid.{Balanced, IsValid}
use tchebets_open.Bet.Refund.{delisted, refund-Refunded}
use tchebets_open.Bet.Wealth.{stake_on, pools_in}
use tchebets_open.Bet.Resolve.{resolve-Settled}
use tchebets_open.Bet.Owed.{balance_in, owed, refund_bets-balance_in, winnings}

-- The stakes of a user in a market.
abbrev pub stakes_of : ℕ → ℕ → Table Bet → ℕ
stakes_of j m bets = total (λ b. if (m == b.market_id) && (j == b.user_id) then b.stake else 0) bets

owed-market_bets : (j m : ℕ) (bets : Table Bet) → owed j (market_bets m bets) ≡ stakes_of j m bets
owed-market_bets j m [] = refl
owed-market_bets j m ((i, b) ∷ bets) = ground (arith, owed-market_bets j m bets)

-- A successful cancellation, on tables whose pools are their stakes, gives each user exactly the
-- stakes of the bets in that market that the user owns.
pub refund_pays :
    (now m j : ℕ) (db db' : Db)
    → Balanced db
    → refund_market_internal now m db ≡ (ok tt, db')
    → balance_in j db'.users ≡ balance_in j db.users + stakes_of j m db.bets
refund_pays now m j db db' v e =
    let (mid, r) = refund-Refunded now m db db' e in
    let paid =
      refund_bets-balance_in j (market_bets m db.bets) (delisted now m db) mid
        (PayeesKnown-market_bets m db.users db.markets db.bets v.bets_known) r.paid in
    ground (arith, r.result, paid, owed-market_bets j m db.bets)

-- On valid tables, if there is a stake on the winner and the square of the pools is an `int64`, a
-- successful `ResolveMarket` gives each user the rounded shares of the bets on the winner that the
-- user owns, out of the pools less 3 percent; and the house the 3 percent and what the rounding
-- leaves.
pub resolve_pays :
    (now m j : ℕ) (win : String) (db db' : Db)
    → IsValid db
    → pools_in m db.pools * pools_in m db.pools < int64_limit
    → 0 < stake_on m win db.bets
    → resolve_market now m win db ≡ (ok tt, db')
    → let t : ℕ = pools_in m db.pools in
      let d : ℕ = t - t * 3 / 100 in
      let v : ℕ = stake_on m win db.bets in
      let ws = winning_bets m win db.bets in
      balance_in j db'.users
      ≡ balance_in j db.users
        + winnings j d v ws
        + (if j == house_user_id then t * 3 / 100 + (d - payouts d v ws) else 0)
resolve_pays now m j win db db' valid small p e =
    elim (resolve-Settled now m win db db' valid small e) [
      | inl s ↦ s.paid.each j
      | inr (z, q) ↦ absurd (omega arith)
    ]

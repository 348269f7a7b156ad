-- ===== src/Bet/Tests.antt =====
-- The theorems on bet-backend, on the tables of Bet/Sample.antt.
use tchebets_open.Prelude.{
  ok, ◌-◌, ◌*◌, ◌/◌, ◌==◌, if◌then◌else◌, modify, add_row, ℕ, ◌+◌, ◌≡◌, refl, some, arith, pos,
  negsuc,
}
use tchebets_open.Bet.Models.{BetListing, Db, house_user_id}
use tchebets_open.Bet.Market.{winning_bets, place_bet, adjust_balance}
use tchebets_open.Bet.Listing.{listing_details, sold_details}
use tchebets_open.Bet.Wealth.{wealth, stake_on, pools_in}
use tchebets_open.Bet.Valid.{IsValid}
use tchebets_open.Bet.Refund.{refund_conserves}
use tchebets_open.Bet.Resolve.{resolve_conserves}
use tchebets_open.Bet.Sale.{Listed, list-Listed, buy_conserves, Bought, buy-Bought}
use tchebets_open.Bet.Ledger.{adjusted, adjust_exact}
use tchebets_open.Bet.Payout.{payouts}
use tchebets_open.Bet.History.{place, run, total_inflow, total_outflow}
use tchebets_open.Bet.Conservation.{run_conserves}
use tchebets_open.Bet.Place.{placed as placed_bet, place_bet_conserves}
use tchebets_open.Bet.Taken.{place_bet_taken}
use tchebets_open.Bet.Owed.{balance_in, winnings}
use tchebets_open.Bet.Shares.{stakes_of, refund_pays, resolve_pays}
use tchebets_open.Bet.Statements.{set_pool}
use tchebets_open.Bet.Handlers.{handle}
use tchebets_open.Bet.Statuses.{Told, handle-Told}
use tchebets_open.Bet.Sample.{
  stake_of_50, empty_db, empty-IsValid, market, open_db, bet_of_1, placed_db, placed,
  placed-IsValid, cancelled_db, refunded, locked_db, locked-IsValid, resolved_db, resolved,
  pools_of_60, offer, listed_db, offered, sold_db, bought, day, day-AllFit,
}

place_bet_conserves_example : wealth placed_db ≡ wealth open_db
place_bet_conserves_example =
    place_bet_conserves 200 2 1 7 "yes" (pos 40) bet_of_1 open_db placed_db placed

refund_conserves_example : wealth cancelled_db ≡ wealth placed_db
refund_conserves_example =
    refund_conserves 3 7 placed_db cancelled_db placed-IsValid.balanced refunded

resolve_conserves_example : wealth resolved_db ≡ wealth locked_db
resolve_conserves_example =
    resolve_conserves 4 7 "yes" locked_db resolved_db locked-IsValid (ground (arith, pools_of_60))
      resolved

list-Listed_example :
    (n : ℕ) × (pos 30 ≡ pos n)
    × Listed 300 3 200 1 (listing_details 300 offer bet_of_1) n placed_db listed_db
list-Listed_example =
    list-Listed 300 3 200 1 (pos 30) (listing_details 300 offer bet_of_1) placed_db listed_db
      offered

buy_conserves_example : wealth sold_db ≡ wealth listed_db
buy_conserves_example =
    buy_conserves 4 300 2 (sold_details 4 300 2 offer bet_of_1) listed_db sold_db bought

buy-Bought_example :
    (l : BetListing) × (paid : Db) × (credited : Db) × Bought 4 300 2 l listed_db paid credited
      sold_db
buy-Bought_example =
    buy-Bought 4 300 2 (sold_details 4 300 2 offer bet_of_1) listed_db sold_db bought

run_conserves_example :
    IsValid (run day empty_db)
    × (wealth (run day empty_db) + total_outflow day empty_db
        ≡ wealth empty_db + total_inflow day empty_db)
run_conserves_example = run_conserves day empty_db empty-IsValid day-AllFit

adjust_exact_example : adjust_balance 1 (negsuc 29) open_db ≡ adjusted 1 (some 70) open_db
adjust_exact_example =
    adjust_exact 1 (negsuc 29) (record { balance = 100; created_at = 0 }) open_db refl
      (ground arith) (ground arith) (ground arith)

refund_pays_example :
    balance_in 1 cancelled_db.users ≡ balance_in 1 placed_db.users + stakes_of 1 7 placed_db.bets
refund_pays_example = refund_pays 3 7 1 placed_db cancelled_db placed-IsValid.balanced refunded

resolve_pays_example :
    let t : ℕ = pools_in 7 locked_db.pools in
    let d : ℕ = t - t * 3 / 100 in
    let v : ℕ = stake_on 7 "yes" locked_db.bets in
    let ws = winning_bets 7 "yes" locked_db.bets in
    balance_in 1 resolved_db.users
    ≡ balance_in 1 locked_db.users
      + winnings 1 d v ws
      + (if 1 == house_user_id then t * 3 / 100 + (d - payouts d v ws) else 0)
resolve_pays_example =
    resolve_pays 4 7 1 "yes" locked_db resolved_db locked-IsValid (ground (arith, pools_of_60))
      (ground (arith, stake_of_50)) resolved

place_bet_taken_example : place_bet 200 2 1 7 "yes" (pos 40) open_db ≡ (
  ok (placed_bet 200 2 1 7 "yes" 40),
  record open_db {
    users = modify 1 (λ w. record w { balance = 100 - 40 }) open_db.users;
    pools = set_pool 7 "yes" (10 + 40) open_db.pools;
    bets = add_row 200 (placed_bet 200 2 1 7 "yes" 40) open_db.bets;
  },
)
place_bet_taken_example =
    place_bet_taken 200 2 1 7 40 10 "yes" market (record { balance = 100; created_at = 0 }) open_db
      (ground arith) refl refl refl (ground arith) refl (ground arith) (ground arith) refl
      (ground arith) refl

handle-Told_example :
    Told 2 (place 200 1 7 "yes" (pos 40)) (handle 2 (place 200 1 7 "yes" (pos 40)) open_db) open_db
handle-Told_example = handle-Told 2 (place 200 1 7 "yes" (pos 40)) open_db

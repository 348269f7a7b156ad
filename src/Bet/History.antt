-- ===== src/Bet/History.antt =====
-- Requests to bet-backend one after the other. Each runs in transactions that hold the locks of the
-- rows they touch, so requests at the same time have the effect of some order.
use tchebets_open.Prelude.{
  ℕ, ◌+◌, ◌*◌, ◌<◌, ◌≤◌, String, none, some, List, [], ◌∷◌, Result, ok, err, ℤ, pos_part, neg_part,
  lookup, length,
}
use tchebets_open.Int64.{int64_limit, to_column}
use tchebets_open.Bet.Models.{Db}
use tchebets_open.Bet.Errors.{BetError}
use tchebets_open.Bet.Market.{place_bet, lock_market, cancel_market, resolve_market, adjust_balance}
use tchebets_open.Bet.Create.{create_market, sync_user}
use tchebets_open.Bet.Listing.{list_bet_for_sale, cancel_listing, buy_listed_bet}
use tchebets_open.Bet.Wealth.{wealth, pools_in}
use tchebets_open.Bet.Ledger.{balance_of}

pub data Request : Type 0 where
  create : (market_id : ℕ) → (ℕ → ℕ) → String → List String → ℤ → Request
  place : (bet_id user_id market_id : ℕ) → String → ℤ → Request
  lock : (market_id : ℕ) → Request
  resolve : (market_id : ℕ) → String → Request
  cancel : (market_id : ℕ) → Request
  adjust : (user_id : ℕ) → ℤ → Request
  sync : (user_id : ℕ) → ℤ → Request
  list_bet : (listing_id bet_id seller_id : ℕ) → ℤ → Request
  unlist : (listing_id seller_id : ℕ) → Request
  buy : (listing_id buyer_id : ℕ) → Request

-- The tables after a request at the time `now`, whether it succeeds or not.
unfoldable pub step : ℕ → Request → Db → Db
step now (create m ids q os seed) db = (create_market m ids now q os seed db).1
step now (place b u m o stake) db = (place_bet b now u m o stake db).1
step now (lock m) db = (lock_market now m db).1
step now (resolve m win) db = (resolve_market now m win db).1
step now (cancel m) db = (cancel_market now m db).1
step now (adjust u delta) db = (adjust_balance u delta db).1
step now (sync u balance) db = (sync_user now u balance db).1
step now (list_bet l b s price) db = (list_bet_for_sale l now b s price db).1
step now (unlist l s) db = (cancel_listing now l s db).1
step now (buy l b) db = (buy_listed_bet now l b db).1

unfoldable pub run : List (ℕ × Request) → Db → Db
run [] db = db
run ((now, r) ∷ rs) db = run rs (step now r db)

-- The deltas that bet-backend accepts from outside.
abbrev pub accepted : {A : Type 0} → Result BetError A → ℕ → ℕ
accepted (ok _) n = n
accepted (err _) n = 0

-- What a request brings in from outside, and what it takes out.
unfoldable pub inflow : ℕ → Request → Db → ℕ
inflow now (adjust u delta) db = accepted (adjust_balance u delta db).0 (pos_part delta)
inflow now (sync u balance) db = elim (to_column balance) [ none ↦ 0 | some v ↦ v ]
inflow now _ db = 0

unfoldable pub outflow : ℕ → Request → Db → ℕ
outflow now (adjust u delta) db = accepted (adjust_balance u delta db).0 (neg_part delta)
outflow now (sync u balance) db = elim (to_column balance) [
  | none ↦ 0
  | some v ↦ balance_of (lookup u db.users)
]
outflow now _ db = 0

-- Bounds under which the arithmetic of Go on `int64` is exact; they are not the widest ones.
abbrev pub Fits : Request → Db → Type 0
Fits (create m ids q os seed) db = pos_part seed * length os < int64_limit
Fits (resolve m win) db = pools_in m db.pools * pools_in m db.pools < int64_limit
Fits (adjust u delta) db =
    (wealth db < int64_limit) × (neg_part delta ≤ int64_limit) × (pos_part delta < int64_limit)
Fits _ db = Unit

abbrev pub AllFit : List (ℕ × Request) → Db → Type 0
AllFit [] db = Unit
AllFit ((now, r) ∷ rs) db = Fits r db × AllFit rs (step now r db)

unfoldable pub total_inflow : List (ℕ × Request) → Db → ℕ
total_inflow [] db = 0
total_inflow ((now, r) ∷ rs) db = inflow now r db + total_inflow rs (step now r db)

unfoldable pub total_outflow : List (ℕ × Request) → Db → ℕ
total_outflow [] db = 0
total_outflow ((now, r) ∷ rs) db = outflow now r db + total_outflow rs (step now r db)

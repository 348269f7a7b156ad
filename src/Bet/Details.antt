-- ===== src/Bet/Details.antt =====
-- The readers of bet-backend/service/market_service.go and listing_service.go.
-- The type of the odds (`float64`) and its division are parameters.
use tchebets_open.Prelude.{
  ℕ, String, Bool, ◌&&◌, Option, none, some, List, [], ◌∷◌, Result, ok, err, ◌==◌, str_eq, leb,
  if◌then◌else◌, ℤ, pos, ltb_ℤ, Table, lookup,
}
use tchebets_open.Int64.{add64}
use tchebets_open.Bet.Models.{User, Market, Pool, Bet, BetListing, BetListingDetails, Db, is_listed}
use tchebets_open.Bet.Errors.{BetError, market_not_found, user_not_found}

-- `map[string]V`, by keys in the order of their first assignment.
abbrev pub set_key {ℓ} : {V : Type ℓ} → String → V → List (String × V) → List (String × V)
set_key k v [] = (k, v) ∷ []
set_key k v ((j, w) ∷ kvs) = if str_eq j k then (k, v) ∷ kvs else (j, w) ∷ set_key k v kvs

abbrev pub get_key {ℓ} : {V : Type ℓ} → String → List (String × V) → Option V
get_key k [] = none
get_key k ((j, w) ∷ kvs) = if str_eq j k then some w else get_key k kvs

pub record MarketDetails (F : Type 0) : Type 0 where
  pub id : ℕ
  pub market : Market
  pub pools : List (String × ℤ)
  pub total_pool : ℤ
  pub live_odds : List (String × F)

-- `for _, outcome := range m.Outcomes { pools[outcome] = 0 }`.
unfoldable pub init_pools : List String → List (String × ℤ) → List (String × ℤ)
init_pools [] acc = acc
init_pools (o ∷ os) acc = init_pools os (set_key o (pos 0) acc)

-- The loop over the rows of `SELECT outcome, total FROM pools WHERE market_id = $1`.
unfoldable pub collect_pools : ℕ → List Pool → List (String × ℤ) × ℤ → List (String × ℤ) × ℤ
collect_pools m [] acc = acc
collect_pools m (p ∷ ps) (pools, t) = collect_pools m ps (
    if m == p.market_id
    then (set_key p.outcome (pos p.total) pools, add64 t (pos p.total))
    else (pools, t))

module _ {F : Type 0} (zero_odds : F) (ratio : ℤ → ℤ → F) where
  unfoldable pub odds_of : ℤ → ℤ → F
  odds_of t total = if ltb_ℤ (pos 0) t && ltb_ℤ (pos 0) total then ratio t total else zero_odds

  unfoldable pub live_odds_of : ℤ → List (String × ℤ) → List (String × F)
  live_odds_of t [] = []
  live_odds_of t ((o, total) ∷ pools) = (o, odds_of t total) ∷ live_odds_of t pools

  -- `GetMarketDetails`.
  unfoldable pub get_market_details : ℕ → Db → Result BetError (MarketDetails F)
  get_market_details id db = elim (lookup id db.markets) [
    | none ↦ err market_not_found
    | some m ↦
        let (pools, t) = collect_pools id db.pools (init_pools m.outcomes [], pos 0) in
        ok (record {
          id = id;
          market = m;
          pools = pools;
          total_pool = t;
          live_odds = live_odds_of t pools;
        })
  ]

-- `GetUser`.
unfoldable pub get_user : ℕ → Db → Result BetError User
get_user id db = elim (lookup id db.users) [ none ↦ err user_not_found | some u ↦ ok u ]

-- `ORDER BY created_at ASC`: a stable insertion, by the time of each row.
abbrev pub insert_by {ℓ} : {A : Type ℓ} → (A → ℕ) → A → List A → List A
insert_by key a [] = a ∷ []
insert_by key a (x ∷ xs) = if leb (key a) (key x) then a ∷ x ∷ xs else x ∷ insert_by key a xs

abbrev pub order_by {ℓ} : {A : Type ℓ} → (A → ℕ) → List A → List A
order_by key [] = []
order_by key (x ∷ xs) = insert_by key x (order_by key xs)

abbrev pub bets_where : (Bet → Bool) → Table Bet → List (ℕ × Bet)
bets_where keep [] = []
bets_where keep ((i, b) ∷ bs) =
    let rest = bets_where keep bs in if keep b then (i, b) ∷ rest else rest

-- `ListMarketBets`.
unfoldable pub list_market_bets : ℕ → Db → List (ℕ × Bet)
list_market_bets m db =
    order_by (λ e. (e.1).created_at) (bets_where (λ b. m == b.market_id) db.bets)

abbrev pub join_bet : ℕ → BetListing → Option Bet → List BetListingDetails → List BetListingDetails
join_bet i l none rest = rest
join_bet i l (some b) rest =
    record { id = i; listing = l; outcome = b.outcome; stake = b.stake } ∷ rest

abbrev pub listings_where :
    (BetListing → Bool) → Table Bet → Table BetListing → List BetListingDetails
listings_where keep bets [] = []
listings_where keep bets ((i, l) ∷ ls) =
    let rest = listings_where keep bets ls in
    if keep l then join_bet i l (lookup l.bet_id bets) rest else rest

-- `ListActiveListingsForMarket` and `ListActiveListingsForSeller`.
unfoldable pub list_active_listings_for_market : ℕ → Db → List BetListingDetails
list_active_listings_for_market m db =
    order_by (λ d. d.listing.created_at)
      (listings_where (λ l. (m == l.market_id) && is_listed l.status) db.bets db.listings)

unfoldable pub list_active_listings_for_seller : ℕ → Db → List BetListingDetails
list_active_listings_for_seller s db =
    order_by (λ d. d.listing.created_at)
      (listings_where (λ l. (s == l.seller_id) && is_listed l.status) db.bets db.listings)

-- `ORDER BY created_at DESC`.
abbrev pub insert_down {ℓ} : {A : Type ℓ} → (A → ℕ) → A → List A → List A
insert_down key a [] = a ∷ []
insert_down key a (x ∷ xs) = if leb (key x) (key a) then a ∷ x ∷ xs else x ∷ insert_down key a xs

abbrev pub order_down {ℓ} : {A : Type ℓ} → (A → ℕ) → List A → List A
order_down key [] = []
order_down key (x ∷ xs) = insert_down key x (order_down key xs)

-- `ListUserBets`.
unfoldable pub list_user_bets : ℕ → Db → List (ℕ × Bet)
list_user_bets u db = order_down (λ e. (e.1).created_at) (bets_where (λ b. u == b.user_id) db.bets)

module _ {F : Type 0} (zero_odds : F) (ratio : ℤ → ℤ → F) where
  -- The loop of `ListMarkets` over the ids: the first error ends it.
  unfoldable pub all_details : Table Market → Db → Result BetError (List (MarketDetails F))
  all_details [] db = ok []
  all_details ((i, m) ∷ ms) db =
      let rest = all_details ms db in
      elim (get_market_details zero_odds ratio i db) [
        | err e ↦ err e
        | ok d ↦ elim rest [ err e ↦ err e | ok ds ↦ ok (d ∷ ds) ]
      ]

  -- `ListMarkets`.
  unfoldable pub list_markets : Db → Result BetError (List (MarketDetails F))
  unfolding all_details
  list_markets db = all_details (order_down (λ e. (e.1).created_at) db.markets) db

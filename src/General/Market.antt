-- ===== src/General/Market.antt =====
-- The home page and the page of a market of general-backend/handlers/public_handlers.go, with what
-- handlers/viewbuild.go and views/viewmodels.go make of the data, before it is printed. The dates and the
-- sort by time are library code: parameters.
use Prim.Native.Char.{code}
use Prim.Native.String.{[], ◌∷◌, len, ◌++◌}
use tchebets_open.Prelude.{
  ℕ, ◌/◌, String, Bool, true, not, ◌&&◌, Option, none, some, List, [], ◌∷◌, map, Result, ok, err,
  ◌==◌, str_eq, ltb, leb, if◌then◌else◌, Table, lookup, length,
}
use tchebets_open.Bet.Models.{Bet, BetListingDetails, is_open, house_user_id}
use tchebets_open.General.Sanitize.{sanitize_uuid}
use tchebets_open.General.Site.{Site, SiteError, Account, Env}
use tchebets_open.General.Accounts.{find_account_by_id}
use tchebets_open.General.Reads.{
  Details, client_market_details, client_list_markets, client_market_bets, client_market_listings,
}
use tchebets_open.General.Views.{
  MarketCard, build_market_card, bettor_count, load_accounts_for, build_activity_feed, is_mine,
  noted,
}
use tchebets_open.General.Profile.{NavBar, build_nav, listings_or_none}

-- The part of an email before `@`.
abbrev pub local_part : String → String
local_part [] = []
local_part (c ∷ s) = let rest = local_part s in if code c == b'@' then [] else c ∷ rest

abbrev pub last_two : String → String
last_two [] = []
last_two (c ∷ []) = c ∷ []
last_two (c ∷ d ∷ []) = c ∷ d ∷ []
last_two (c ∷ d ∷ e ∷ s) = last_two (d ∷ e ∷ s)

abbrev pub mask_local : String → Option String
mask_local [] = none
mask_local (c ∷ s) =
    some (if leb (len (c ∷ s)) 3 then (c ∷ []) ++ "***" else (c ∷ []) ++ "***" ++ last_two (c ∷ s))

-- `MaskEmail` of an ASCII email; `none` is a panic, where nothing stands before `@`.
unfoldable pub mask_email : String → Option String
mask_email email = mask_local (local_part email)

-- `RelativeTimePT`, from the nanoseconds that have passed and what `%d` prints.
unfoldable pub relative_time_pt : (ℕ → String) → ℕ → String
relative_time_pt print d =
    if ltb d 60000000000
    then "agora"
    else if ltb d 3600000000000
    then "há " ++ print (d / 60000000000) ++ " min"
    else if ltb d 86400000000000
    then "há " ++ print (d / 3600000000000) ++ "h"
    else "há " ++ print ((d / 3600000000000) / 24) ++ "d"

-- The label of a user; `none` is the text for an unknown one.
abbrev pub label_of : ℕ → Table Account → Option String
label_of u accounts = elim (lookup u accounts) [ none ↦ none | some a ↦ some a.email ]

pub record ActivityItem : Type 0 where
  pub masked : Option String
  pub bet : Bet

pub record ListingItem : Type 0 where
  pub details : BetListingDetails
  pub masked_seller : Option String
  pub mine : Bool

-- The second loop of `buildActivityFeed`.
unfoldable pub activity_items : Table Account → List (ℕ × Bet) → List ActivityItem
activity_items accounts [] = []
activity_items accounts ((i, b) ∷ bs) =
    record { masked = label_of b.user_id accounts; bet = b } ∷ activity_items accounts bs

-- `buildForSaleVM`.
unfoldable pub build_for_sale : List BetListingDetails → Table Account → Option ℕ → List ListingItem
build_for_sale [] accounts viewer = []
build_for_sale (l ∷ ls) accounts viewer =
    record {
      details = l;
      masked_seller = label_of (l.listing).seller_id accounts;
      mine = is_mine viewer l;
    }
    ∷ build_for_sale ls accounts viewer

abbrev pub merged : ℕ → Option Account → Table Account → Site → Table Account × Site
merged u (some a) accounts s = (accounts, s)
merged u none accounts s =
    if u == house_user_id
    then (accounts, s)
    else (let (r, t) = find_account_by_id u s in (noted u r accounts, t))

-- `mergeAccountsForListings`.
unfoldable pub merge_accounts : List BetListingDetails → Table Account → Site → Table Account × Site
merge_accounts [] accounts s = (accounts, s)
merge_accounts (l ∷ ls) accounts s =
    let u : ℕ = (l.listing).seller_id in
    let (accounts', t) = merged u (lookup u accounts) accounts s in merge_accounts ls accounts' t

-- `MarketDetailVM`.
pub record MarketPage : Type 0 where
  pub details : Details
  pub card : MarketCard
  pub bettors : ℕ
  pub activity : List ActivityItem
  pub can_bet : Bool
  pub for_sale : List ListingItem
  pub nav : NavBar

-- The filter of `loadFilteredCards`: `today` and `over_a_week` look at the time of a market.
abbrev pub in_filter : (today over_a_week : ℕ → Bool) → String → ℕ → Bool
in_filter today over_a_week filter created_at =
    if str_eq filter "hoje"
    then today created_at
    else if str_eq filter "semana"
    then not (over_a_week created_at)
    else true

unfoldable pub filtered : (today over_a_week : ℕ → Bool) → String → List Details → List Details
filtered today over_a_week filter [] = []
filtered today over_a_week filter (d ∷ ds) =
    let rest = filtered today over_a_week filter ds in
    if is_open (d.market).status && in_filter today over_a_week filter (d.market).created_at
    then d ∷ rest
    else rest

abbrev pub cards_of :
    (today over_a_week : ℕ → Bool)
    → String
    → Result SiteError (List Details) × Site
    → Result SiteError (List Details × List MarketCard) × Site
cards_of today over_a_week filter (err e, s) = (err e, s)
cards_of today over_a_week filter (ok ds, s) =
    let kept = filtered today over_a_week filter ds in (ok (kept, map build_market_card kept), s)

-- `loadFilteredCards`.
unfoldable pub load_filtered_cards :
    (today over_a_week : ℕ → Bool)
    → String
    → Site
    → Result SiteError (List Details × List MarketCard) × Site
unfolding filtered
load_filtered_cards today over_a_week filter s =
    cards_of today over_a_week filter (client_list_markets s)

abbrev pub home_of :
    Option ℕ
    → Result SiteError (List Details × List MarketCard) × Site
    → Result ℕ (NavBar × ℕ × List MarketCard) × Site
home_of session (err e, s) = (err 502, s)
home_of session (ok (ds, cards), s) =
    let (nav, t) = build_nav session s in (ok (nav, length ds, cards), t)

-- `Home`, of a visitor with a session or without.
unfoldable pub home :
    (today over_a_week : ℕ → Bool)
    → Option ℕ
    → Site
    → Result ℕ (NavBar × ℕ × List MarketCard) × Site
unfolding load_filtered_cards
home today over_a_week session s = home_of session (load_filtered_cards today over_a_week "todos" s)

abbrev pub partial_of :
    Result SiteError (List Details × List MarketCard) × Site → Result ℕ (List MarketCard) × Site
partial_of (err e, s) = (err 502, s)
partial_of (ok (ds, cards), s) = (ok cards, s)

-- `MarketsPartial`.
unfoldable pub markets_partial :
    (today over_a_week : ℕ → Bool) → String → Site → Result ℕ (List MarketCard) × Site
unfolding load_filtered_cards
markets_partial today over_a_week filter s =
    partial_of (load_filtered_cards today over_a_week filter s)

module _ (env : Env) (newest_first : List (ℕ × Bet) → List (ℕ × Bet)) (session : Option ℕ) where
  -- `buildMarketDetailVM`, and the rest of the page.
  abbrev pub market_vm :
      Details → List (ℕ × Bet) → Table Account → List BetListingDetails → NavBar → MarketPage
  market_vm d bets accounts listings nav = record {
    details = d;
    card = build_market_card d;
    bettors = bettor_count bets;
    activity = activity_items accounts (build_activity_feed newest_first bets 10);
    can_bet = is_open (d.market).status;
    for_sale = build_for_sale listings accounts session;
    nav = nav;
  }

  abbrev pub market_with :
      Details → ℕ → Result SiteError (List (ℕ × Bet)) × Site → Result ℕ MarketPage × Site
  market_with d m (err e, s) = (err 502, s)
  market_with d m (ok bets, s) =
      let (listings, t) = client_market_listings m s in
      let (seen, accounts, u) = load_accounts_for bets ([], [], t) in
      let (accounts', v) = merge_accounts (listings_or_none listings) accounts u in
      let (nav, x) = build_nav session v in
      (ok (market_vm d bets accounts' (listings_or_none listings) nav), x)

  abbrev pub market_for : ℕ → Result SiteError Details × Site → Result ℕ MarketPage × Site
  market_for m (err e, s) = (err 404, s)
  market_for m (ok d, s) = market_with d m (client_market_bets m s)

  -- `marketDetailPage`: a page, or a status.
  unfoldable pub market_detail_page : String → Site → Result ℕ MarketPage × Site
  unfolding merge_accounts activity_items build_for_sale
  market_detail_page path s = elim (sanitize_uuid env.parse_uuid path) [
    | err e ↦ (err 400, s)
    | ok m ↦ market_for m (client_market_details m s)
  ]

-- ===== src/General/Profile.antt =====
-- The profile page of general-backend/handlers/profile_handlers.go and the bar of handlers/nav.go: what
-- they show, before it is printed.
use tchebets_open.Prelude.{
  ℕ, String, Bool, true, false, Option, none, some, List, [], ◌∷◌, Result, ok, err, ◌==◌,
  if◌then◌else◌, Table, lookup,
}
use tchebets_open.Bet.Models.{MarketStatus, Bet, BetListingDetails, User}
use tchebets_open.General.Site.{Site, SiteError, Account, client_get_user}
use tchebets_open.General.Accounts.{find_account_by_id}
use tchebets_open.General.Reads.{
  Details, client_market_details, client_user_bets, client_user_listings,
}

-- The question and the status of a market; `none` shows its id and no status.
abbrev pub Shown : Type 0
Shown = Option (String × MarketStatus)

abbrev pub shown : Result SiteError Details → Shown
shown (ok d) = some ((d.market).question, (d.market).status)
shown (err e) = none

-- `BetHistoryItemVM`; a listing shows its id and its price.
pub record HistoryItem : Type 0 where
  pub bet_id : ℕ
  pub bet : Bet
  pub market : Shown
  pub listing : Option (ℕ × ℕ)

-- `marketCache`.
abbrev pub MarketCache : Type 0
MarketCache = Table Shown

abbrev pub fetch_from : ℕ → Option Shown → MarketCache → Site → Shown × MarketCache × Site
fetch_from m (some d) cache s = (d, cache, s)
fetch_from m none cache s =
    let (r, t) = client_market_details m s in (shown r, (m, shown r) ∷ cache, t)

unfoldable pub fetch_market : ℕ → MarketCache → Site → Shown × MarketCache × Site
fetch_market m cache s = fetch_from m (lookup m cache) cache s

-- `listingByBet`: the last listing of a bet stays.
abbrev pub listing_by_bet : List BetListingDetails → ℕ → Option (ℕ × ℕ)
listing_by_bet [] b = none
listing_by_bet (l ∷ ls) b =
    let rest = listing_by_bet ls b in
    elim rest [
      | some x ↦ some x
      | none ↦ if (l.listing).bet_id == b then some (l.id, (l.listing).asking_price) else none
    ]

abbrev pub history_item : List BetListingDetails → ℕ → Bet → Shown → HistoryItem
history_item listings i b market = record {
  bet_id = i;
  bet = b;
  market = market;
  listing = listing_by_bet listings i;
}

-- The loop over the bets.
unfoldable pub bet_history :
    List BetListingDetails → List (ℕ × Bet) → MarketCache → Site → List HistoryItem × Site
unfolding fetch_market
bet_history listings [] cache s = ([], s)
bet_history listings ((i, b) ∷ bs) cache s =
    let (d, cache', t) = fetch_market b.market_id cache s in
    let (rest, u) = bet_history listings bs cache' t in (history_item listings i b d ∷ rest, u)

pub record ProfilePage : Type 0 where
  pub email : String
  pub balance : ℕ
  pub bets : List HistoryItem

-- `NavVM`.
pub record NavBar : Type 0 where
  pub logged_in : Bool
  pub is_admin : Bool
  pub balance : ℕ

abbrev pub no_nav : NavBar
no_nav = record { logged_in = false; is_admin = false; balance = 0 }

abbrev pub balance_or_zero : Result SiteError User → ℕ
balance_or_zero (ok u) = u.balance
balance_or_zero (err e) = 0

abbrev pub nav_of : ℕ → Result SiteError Account × Site → NavBar × Site
nav_of id (err e, s) = (no_nav, s)
nav_of id (ok a, s) =
    let (r, t) = client_get_user id s in
    (record { logged_in = true; is_admin = a.is_admin; balance = balance_or_zero r }, t)

-- `buildNav`, with a session or without.
unfoldable pub build_nav : Option ℕ → Site → NavBar × Site
build_nav none s = (no_nav, s)
build_nav (some id) s = nav_of id (find_account_by_id id s)

abbrev pub listings_or_none : Result SiteError (List BetListingDetails) → List BetListingDetails
listings_or_none (ok ls) = ls
listings_or_none (err e) = []

abbrev pub profile_of :
    Account → ℕ → User → Result SiteError (List (ℕ × Bet)) × Site → Result ℕ ProfilePage × Site
profile_of a id u (err e, s) = (err 502, s)
profile_of a id u (ok bets, s) =
    let (listings, t) = client_user_listings id s in
    let (history, v) = bet_history (listings_or_none listings) bets [] t in
    (ok (record { email = a.email; balance = u.balance; bets = history }), v)

abbrev pub profile_for : Account → ℕ → Result SiteError User × Site → Result ℕ ProfilePage × Site
profile_for a id (err e, s) = (err 502, s)
profile_for a id (ok u, s) = profile_of a id u (client_user_bets id s)

-- `Profile` in the mode of fake deposits, of the visitor `id` with the account `a`: a page, or a status.
unfoldable pub profile : Account → ℕ → Site → Result ℕ ProfilePage × Site
unfolding bet_history
profile a id s = profile_for a id (client_get_user id s)

-- ===== src/General/Reads.antt =====
-- The methods of general-backend/betclient/types.go that only read. The odds are left out.
use tchebets_open.Prelude.{ℕ, List, Result, ok, err}
use tchebets_open.Bet.Models.{Bet, BetListingDetails}
use tchebets_open.Bet.Errors.{BetError}
use tchebets_open.Bet.Details.{
  MarketDetails, get_market_details, list_markets, list_market_bets, list_user_bets,
  list_active_listings_for_market, list_active_listings_for_seller,
}
use tchebets_open.General.Site.{SiteError, S, call, decode_err}

abbrev pub Details : Type 0
Details = MarketDetails (Unit {0})

-- A reply with an error of bet-backend has the status given.
abbrev pub read_reply : {A : Type 0} → ℕ → Result BetError A → Result SiteError A
read_reply code (ok a) = ok a
read_reply code (err e) = err (decode_err code)

unfoldable pub client_market_details : ℕ → S Details
client_market_details id =
    call (λ s. (read_reply 404 (get_market_details (tt {0}) (λ _ _. tt {0}) id s.bets), s))

unfoldable pub client_list_markets : S (List Details)
client_list_markets = call (λ s. (read_reply 500 (list_markets (tt {0}) (λ _ _. tt {0}) s.bets), s))

unfoldable pub client_market_bets : ℕ → S (List (ℕ × Bet))
client_market_bets id = call (λ s. (ok (list_market_bets id s.bets), s))

unfoldable pub client_user_bets : ℕ → S (List (ℕ × Bet))
client_user_bets id = call (λ s. (ok (list_user_bets id s.bets), s))

unfoldable pub client_market_listings : ℕ → S (List BetListingDetails)
client_market_listings id = call (λ s. (ok (list_active_listings_for_market id s.bets), s))

unfoldable pub client_user_listings : ℕ → S (List BetListingDetails)
client_user_listings id = call (λ s. (ok (list_active_listings_for_seller id s.bets), s))

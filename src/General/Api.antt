-- ===== src/General/Api.antt =====
-- general-backend/handlers/handlers.go: the JSON routes, each a check of the request and a call of
-- bet-backend whose reply is passed on. The bodies of the replies are left out.
use tchebets_open.Prelude.{
  ℕ, String, Bool, true, false, not, ◌&&◌, List, [], ◌∷◌, Result, ok, err, ℤ, pos, negsuc, ◌==◌,
}
use tchebets_open.Bet.Handlers.{
  is_given, handle_place, handle_lock, handle_resolve, handle_cancel, handle_sync, handle_create,
  handle_list, handle_unlist, handle_buy,
}
use tchebets_open.General.Sanitize.{
  SanitizeError, max_sanity_int, sanitize_uuid, non_empty_string, positive_int64,
  non_negative_int64, sanitize_outcomes,
}
use tchebets_open.General.Site.{
  Site, Env, relay, Read, read_user, read_market, read_markets, read_market_bets, read_user_bets,
  read_market_listings, read_user_listings, handle_read,
}

abbrev pub max_question_len : ℕ
max_question_len = 500

abbrev pub max_outcome_len : ℕ
max_outcome_len = 100

abbrev pub min_outcomes : ℕ
min_outcomes = 2

abbrev pub max_outcomes : ℕ
max_outcomes = 10

-- A handler: the status of the reply, and the state after it.
abbrev pub Api : Type 0
Api = Site → ℕ × Site

-- A check that fails is answered with 400.
abbrev pub checked : {A : Type 0} → Result SanitizeError A → (A → Api) → Api
checked (ok a) f s = f a s
checked (err _) f s = (400, s)

-- `ShouldBindJSON`: a field that is `required` has not the zero value.
abbrev pub bound_json : Bool → Api → Api
bound_json true f s = f s
bound_json false f s = (400, s)

abbrev pub is_nonzero : ℤ → Bool
is_nonzero (pos n) = not (n == 0)
is_nonzero (negsuc n) = true

pub data ApiRequest : Type 0 where
  post_sync : (id : String) → ℤ → ApiRequest
  post_market : (market_id : ℕ) → (ℕ → ℕ) → String → List String → ℤ → ApiRequest
  post_bet : (bet_id : ℕ) → (path user_id outcome : String) → ℤ → ApiRequest
  post_lock : (path : String) → ApiRequest
  post_resolve : (path winning_outcome : String) → ApiRequest
  post_cancel : (path : String) → ApiRequest
  post_listing : (listing_id : ℕ) → (path seller_id : String) → ℤ → ApiRequest
  post_unlist : (path seller_id : String) → ApiRequest
  post_buy : (path buyer_id : String) → ApiRequest
  fetch_user : (path : String) → ApiRequest
  fetch_market : (path : String) → ApiRequest
  fetch_market_bets : (path : String) → ApiRequest
  fetch_user_bets : (path : String) → ApiRequest
  fetch_market_listings : (path : String) → ApiRequest
  fetch_user_listings : (path : String) → ApiRequest
  fetch_markets : ApiRequest

module _ (env : Env) where
  abbrev pub with_id : String → (ℕ → Api) → Api
  with_id s = checked (sanitize_uuid env.parse_uuid s)

  -- `syncUser`.
  unfoldable pub api_sync : ℕ → String → ℤ → Api
  api_sync now id balance = bound_json (is_given id) (
      with_id id (λ u.
        checked (non_negative_int64 balance max_sanity_int) (λ n. relay (handle_sync now u n))))

  -- `createMarket`. A list that is missing stands as the empty one; both are refused.
  unfoldable pub api_create : ℕ → ℕ → (ℕ → ℕ) → String → List String → ℤ → Api
  api_create now m ids question outcomes seed = bound_json (is_given question) (
      checked (non_empty_string question max_question_len) (λ q.
        checked (sanitize_outcomes env.to_lower outcomes min_outcomes max_outcomes max_outcome_len)
          (λ os.
            checked (non_negative_int64 seed max_sanity_int)
              (λ n. relay (handle_create m ids now q os n)))))

  -- `placeBet`.
  unfoldable pub api_place : ℕ → ℕ → String → String → String → ℤ → Api
  api_place now b path user outcome stake = with_id path (λ m.
      bound_json (is_given user && is_given outcome && is_nonzero stake) (
        with_id user (λ u. checked (non_empty_string outcome max_outcome_len) (λ o.
          checked (positive_int64 stake max_sanity_int)
            (λ n. relay (handle_place b now u m o n))))))

  -- `lockMarket`, `resolveMarket` and `cancelMarket`.
  unfoldable pub api_lock : ℕ → String → Api
  api_lock now path = with_id path (λ m. relay (handle_lock now m))

  unfoldable pub api_resolve : ℕ → String → String → Api
  api_resolve now path win = with_id path (λ m.
      bound_json (is_given win)
        (checked (non_empty_string win max_outcome_len) (λ o. relay (handle_resolve now m o))))

  unfoldable pub api_cancel : ℕ → String → Api
  api_cancel now path = with_id path (λ m. relay (handle_cancel now m))

  -- `createListing`, `cancelListing` and `buyListing`.
  unfoldable pub api_list : ℕ → ℕ → String → String → ℤ → Api
  api_list now l path seller price = with_id path (λ b.
      bound_json (is_given seller && is_nonzero price) (
        with_id seller (λ u.
          checked (positive_int64 price max_sanity_int) (λ n. relay (handle_list l now b u n)))))

  unfoldable pub api_unlist : ℕ → String → String → Api
  api_unlist now path seller =
      with_id path
        (λ l. bound_json (is_given seller) (with_id seller (λ u. relay (handle_unlist now l u))))

  unfoldable pub api_buy : ℕ → String → String → Api
  api_buy now path buyer =
      with_id path
        (λ l. bound_json (is_given buyer) (with_id buyer (λ u. relay (handle_buy now l u))))

  -- What the handlers that read share: the id of the path, and the call they make.
  unfoldable pub api_get : String → (ℕ → Read) → Api
  api_get path read = with_id path (λ id. relay (handle_read (read id)))

  -- `getUser`, `getMarket`, `listMarketBets`, `listUserBets`, `listMarketListings` and
  -- `listUserListings`.
  abbrev pub api_get_user : String → Api
  api_get_user path = api_get path read_user

  abbrev pub api_get_market : String → Api
  api_get_market path = api_get path read_market

  abbrev pub api_market_bets : String → Api
  api_market_bets path = api_get path read_market_bets

  abbrev pub api_user_bets : String → Api
  api_user_bets path = api_get path read_user_bets

  abbrev pub api_market_listings : String → Api
  api_market_listings path = api_get path read_market_listings

  abbrev pub api_user_listings : String → Api
  api_user_listings path = api_get path read_user_listings

  -- `listMarkets`.
  unfoldable pub api_list_markets : Api
  api_list_markets = relay (handle_read read_markets)

  -- The routes.
  unfoldable pub handle_api : ℕ → ApiRequest → Api
  handle_api now (post_sync id n) = api_sync now id n
  handle_api now (post_market m ids q os n) = api_create now m ids q os n
  handle_api now (post_bet b path u o n) = api_place now b path u o n
  handle_api now (post_lock path) = api_lock now path
  handle_api now (post_resolve path o) = api_resolve now path o
  handle_api now (post_cancel path) = api_cancel now path
  handle_api now (post_listing l path u n) = api_list now l path u n
  handle_api now (post_unlist path u) = api_unlist now path u
  handle_api now (post_buy path u) = api_buy now path u
  handle_api now (fetch_user path) = api_get_user path
  handle_api now (fetch_market path) = api_get_market path
  handle_api now (fetch_market_bets path) = api_market_bets path
  handle_api now (fetch_user_bets path) = api_user_bets path
  handle_api now (fetch_market_listings path) = api_market_listings path
  handle_api now (fetch_user_listings path) = api_user_listings path
  handle_api now fetch_markets = api_list_markets

  -- Requests one after the other.
  unfoldable pub run_api : List (ℕ × ApiRequest) → Site → Site
  run_api [] s = s
  run_api ((now, q) ∷ qs) s = run_api qs (handle_api now q s).1

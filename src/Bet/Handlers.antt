-- ===== src/Bet/Handlers.antt =====
-- bet-backend/handlers/handlers.go and listing_handlers.go: the requests that change state, with the
-- checks of the JSON binding and the status of the reply. The body of a reply is the value of the
-- service or the message of its error, and is left out. Ids are well-formed here.
use tchebets_open.Prelude.{
  ℕ, String, Bool, true, false, not, ◌&&◌, List, Result, ok, err, str_eq, ltb, ℤ, pos, ltb_ℤ,
  length,
}
use tchebets_open.Bet.Models.{Db}
use tchebets_open.Bet.Errors.{
  BetError, market_not_open, insufficient_balance, invalid_outcome, bet_not_found,
  listing_not_found, not_bet_owner, not_listing_owner, cannot_list_house_bet, bet_already_listed,
  listing_not_active, cannot_buy_own_listing, listing_market_no_longer_open, user_not_found,
}
use tchebets_open.Bet.Market.{place_bet, lock_market, resolve_market, cancel_market, adjust_balance}
use tchebets_open.Bet.Create.{create_market, sync_user}
use tchebets_open.Bet.Listing.{list_bet_for_sale, cancel_listing, buy_listed_bet}
use tchebets_open.Bet.History.{
  Request, create, place, lock, resolve, cancel, adjust, sync, list_bet, unlist, buy,
}

-- The status of a reply, and the tables after it.
abbrev pub reply : {A : Type 0} → ℕ → (BetError → ℕ) → Result BetError A × Db → ℕ × Db
reply code status (ok _, db) = (code, db)
reply code status (err e, db) = (status e, db)

-- `ShouldBindJSON`: a request that fails its rules is answered with 400.
abbrev pub bound : Bool → (Db → ℕ × Db) → Db → ℕ × Db
bound true f db = f db
bound false f db = (400, db)

abbrev pub server_error : BetError → ℕ
server_error e = 500

abbrev pub place_status : BetError → ℕ
place_status insufficient_balance = 402
place_status market_not_open = 400
place_status invalid_outcome = 400
place_status _ = 500

abbrev pub adjust_status : BetError → ℕ
adjust_status insufficient_balance = 402
adjust_status user_not_found = 404
adjust_status _ = 500

-- `writeListingError`.
abbrev pub listing_status : BetError → ℕ
listing_status bet_not_found = 404
listing_status listing_not_found = 404
listing_status not_bet_owner = 403
listing_status not_listing_owner = 403
listing_status cannot_list_house_bet = 400
listing_status cannot_buy_own_listing = 400
listing_status market_not_open = 400
listing_status insufficient_balance = 402
listing_status bet_already_listed = 409
listing_status listing_not_active = 409
listing_status listing_market_no_longer_open = 409
listing_status _ = 500

abbrev pub is_given : String → Bool
is_given s = not (str_eq s "")

unfoldable pub handle_place : (bet_id now user_id market_id : ℕ) → String → ℤ → Db → ℕ × Db
handle_place b now u m o stake =
    bound (is_given o && ltb_ℤ (pos 0) stake)
      (λ db. reply 201 place_status (place_bet b now u m o stake db))

unfoldable pub handle_lock : (now market_id : ℕ) → Db → ℕ × Db
handle_lock now m db = reply 200 server_error (lock_market now m db)

unfoldable pub handle_resolve : (now market_id : ℕ) → String → Db → ℕ × Db
handle_resolve now m win =
    bound (is_given win) (λ db. reply 200 server_error (resolve_market now m win db))

unfoldable pub handle_cancel : (now market_id : ℕ) → Db → ℕ × Db
handle_cancel now m db = reply 200 server_error (cancel_market now m db)

unfoldable pub handle_adjust : ℕ → ℤ → Db → ℕ × Db
handle_adjust u delta db = reply 200 adjust_status (adjust_balance u delta db)

unfoldable pub handle_sync : (now id : ℕ) → ℤ → Db → ℕ × Db
handle_sync now u balance =
    bound (not (ltb_ℤ balance (pos 0))) (λ db. reply 200 server_error (sync_user now u balance db))

unfoldable pub handle_create :
    (market_id : ℕ) → (ℕ → ℕ) → (now : ℕ) → String → List String → ℤ → Db → ℕ × Db
handle_create m ids now q os seed =
    bound (is_given q && not (ltb (length os) 2) && not (ltb_ℤ seed (pos 0)))
      (λ db. reply 201 server_error (create_market m ids now q os seed db))

unfoldable pub handle_list : (listing_id now bet_id seller_id : ℕ) → ℤ → Db → ℕ × Db
handle_list l now b s price =
    bound (ltb_ℤ (pos 0) price)
      (λ db. reply 201 listing_status (list_bet_for_sale l now b s price db))

unfoldable pub handle_unlist : (now listing_id seller_id : ℕ) → Db → ℕ × Db
handle_unlist now l s db = reply 200 listing_status (cancel_listing now l s db)

unfoldable pub handle_buy : (now listing_id buyer_id : ℕ) → Db → ℕ × Db
handle_buy now l b db = reply 200 listing_status (buy_listed_bet now l b db)

-- The routes.
unfoldable pub handle : ℕ → Request → Db → ℕ × Db
handle now (create m ids q os seed) db = handle_create m ids now q os seed db
handle now (place b u m o stake) db = handle_place b now u m o stake db
handle now (lock m) db = handle_lock now m db
handle now (resolve m win) db = handle_resolve now m win db
handle now (cancel m) db = handle_cancel now m db
handle now (adjust u delta) db = handle_adjust u delta db
handle now (sync u balance) db = handle_sync now u balance db
handle now (list_bet l b s price) db = handle_list l now b s price db
handle now (unlist l s) db = handle_unlist now l s db
handle now (buy l b) db = handle_buy now l b db

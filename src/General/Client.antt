-- ===== src/General/Client.antt =====
-- The methods of general-backend/betclient/types.go that change state. The times and the new ids are
-- those that bet-backend takes.
use tchebets_open.Prelude.{ℕ, String, List, ℤ}
use tchebets_open.Bet.Handlers.{
  handle_place, handle_sync, handle_create, handle_list, handle_unlist, handle_buy,
}
use tchebets_open.General.Site.{S, typed}

abbrev pub create_market_typed :
    (now market_id : ℕ) → (ℕ → ℕ) → String → List String → ℤ → S (Unit {0})
create_market_typed now m ids question outcomes seed =
    typed 201 (handle_create m ids now question outcomes seed)

abbrev pub sync_user_typed : (now id : ℕ) → ℤ → S (Unit {0})
sync_user_typed now id balance = typed 200 (handle_sync now id balance)

abbrev pub place_bet_typed : (now bet_id market_id user_id : ℕ) → String → ℤ → S (Unit {0})
place_bet_typed now b market_id user_id outcome stake =
    typed 201 (handle_place b now user_id market_id outcome stake)

abbrev pub list_bet_for_sale_typed : (now listing_id bet_id seller_id : ℕ) → ℤ → S (Unit {0})
list_bet_for_sale_typed now l bet_id seller_id asking_price =
    typed 201 (handle_list l now bet_id seller_id asking_price)

abbrev pub cancel_listing_typed : (now listing_id seller_id : ℕ) → S (Unit {0})
cancel_listing_typed now listing_id seller_id = typed 200 (handle_unlist now listing_id seller_id)

abbrev pub buy_listing_typed : (now listing_id buyer_id : ℕ) → S (Unit {0})
buy_listing_typed now listing_id buyer_id = typed 200 (handle_buy now listing_id buyer_id)

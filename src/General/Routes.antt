-- ===== src/General/Routes.antt =====
-- The routes of general-backend/main.go that change state and have a page, with the groups of the
-- logged-in and of the admins.
use tchebets_open.Prelude.{ℕ, String, List, [], ◌∷◌, ℤ}
use tchebets_open.General.Site.{Site, Env, Account}
use tchebets_open.General.Pages.{
  Session, Handler, require_user, require_admin, register, login, logout, deposit, place_bet_page,
  list_bet_page, cancel_listing_page, buy_listing_page,
}
use tchebets_open.General.Admin.{
  admin_create_market, admin_lock_market, admin_resolve_market, admin_cancel_market,
  admin_promote_user,
}

-- What a logged-in visitor asks for.
pub data UserRequest : Type 0 where
  ask_logout : UserRequest
  ask_deposit : ℤ → UserRequest
  ask_place : (bet_id : ℕ) → (path outcome : String) → ℤ → UserRequest
  ask_list : (listing_id : ℕ) → (path : String) → ℤ → UserRequest
  ask_unlist : (path : String) → UserRequest
  ask_buy : (path : String) → UserRequest

-- What an admin asks for.
pub data AdminRequest : Type 0 where
  ask_create : (market_id : ℕ) → (ℕ → ℕ) → (question team_a team_b : String) → ℤ → AdminRequest
  ask_lock : (path : String) → AdminRequest
  ask_resolve : (path winning_outcome : String) → AdminRequest
  ask_cancel : (path : String) → AdminRequest
  ask_promote : (email : String) → AdminRequest

pub data PageRequest : Type 0 where
  ask_register : (id : ℕ) → (email password : String) → PageRequest
  ask_login : (email password next : String) → PageRequest
  as_user : UserRequest → PageRequest
  as_admin : AdminRequest → PageRequest

module _ (env : Env) where
  unfoldable pub handle_user : ℕ → UserRequest → ℕ → Account → Handler
  handle_user now ask_logout id a = logout
  handle_user now (ask_deposit n) id a = deposit now id n
  handle_user now (ask_place b path o n) id a = place_bet_page env now b id path o n
  handle_user now (ask_list l path n) id a = list_bet_page env now l id path n
  handle_user now (ask_unlist path) id a = cancel_listing_page env now id path
  handle_user now (ask_buy path) id a = buy_listing_page env now id path

  unfoldable pub handle_admin : ℕ → AdminRequest → ℕ → Account → Handler
  handle_admin now (ask_create m ids q x y n) id a = admin_create_market now m ids q x y n
  handle_admin now (ask_lock path) id a = admin_lock_market env now path
  handle_admin now (ask_resolve path o) id a = admin_resolve_market env now path o
  handle_admin now (ask_cancel path) id a = admin_cancel_market env now path
  handle_admin now (ask_promote email) id a = admin_promote_user env email

  unfoldable pub handle_page : ℕ → PageRequest → Handler
  handle_page now (ask_register id email password) = register env now id email password
  handle_page now (ask_login email password next) = login env email password next
  handle_page now (as_user q) = require_user (handle_user now q)
  handle_page now (as_admin q) = require_user (require_admin (handle_admin now q))

  -- Requests of any visitors, each with a session, one after the other.
  unfoldable pub run_pages : List (ℕ × PageRequest × Session) → Site → Site
  run_pages [] s = s
  run_pages ((now, q, w) ∷ qs) s = let (p, w', t) = handle_page now q w s in run_pages qs t

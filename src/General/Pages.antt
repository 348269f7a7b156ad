-- ===== src/General/Pages.antt =====
-- The pages of general-backend that change state: general-backend/handlers/auth_handlers.go,
-- profile_handlers.go, public_handlers.go, listing_handlers.go and admin_handlers.go, behind the
-- sessions of general-backend/auth/session.go. The texts of the pages are left out.
use tchebets_open.Prelude.{
  ℕ, String, Bool, true, false, ◌&&◌, Option, none, some, Result, ok, err, str_eq, if◌then◌else◌, ℤ,
  pos,
}
use tchebets_open.Int64.{add64}
use tchebets_open.Bet.Models.{User}
use tchebets_open.Bet.Handlers.{is_given}
use tchebets_open.General.Sanitize.{
  SanitizeError, max_sanity_int, sanitize_uuid, non_empty_string, positive_int64,
}
use tchebets_open.General.Site.{Site, Env, Account, SiteError, status_error, client_get_user}
use tchebets_open.General.Client.{
  sync_user_typed, place_bet_typed, list_bet_for_sale_typed, cancel_listing_typed,
  buy_listing_typed,
}
use tchebets_open.General.Accounts.{create_account, find_account_by_email, find_account_by_id}
use tchebets_open.General.Api.{max_outcome_len, is_nonzero}

abbrev pub max_email_len : ℕ
max_email_len = 254

-- A reply: a redirection to a path; to the login page, with the address of the request as `next`; to
-- the profile, with the message of a refusal of bet-backend with that status; or a page or a part of
-- one with a status; to the page of a market.
pub data Page : Type 0 where
  redirect : String → Page
  to_login : Page
  refusal : ℕ → Page
  page : ℕ → Page
  to_market : ℕ → Page

-- The session of the visitor is the id in the signed cookie. A handler may change it.
abbrev pub Session : Type 0
Session = Option ℕ

abbrev pub Handler : Type 0
Handler = Session → Site → Page × Session × Site

abbrev pub show : Page → Handler
show p w s = (p, w, s)

-- `if err != nil { … }`.
abbrev pub on_result :
    {A : Type 0}
    → Result SiteError A × Site
    → (SiteError → Handler)
    → (A → Handler)
    → Session
    → Page × Session × Site
on_result (ok a, s) h k w = k a w s
on_result (err e, s) h k w = h e w s

abbrev pub passing : {A : Type 0} → Result SanitizeError A → Page → (A → Handler) → Handler
passing (ok a) p k = k a
passing (err _) p k = show p

abbrev pub require : Bool → Page → Handler → Handler
require true p k = k
require false p k = show p

abbrev pub on_option : {A : Type 0} → Option A → Page → (A → Handler) → Handler
on_option (some a) p k = k a
on_option none p k = show p

-- `RequireUser`.
unfoldable pub require_user : (ℕ → Account → Handler) → Handler
require_user k none s = (to_login, none, s)
require_user k (some id) s =
    on_result (find_account_by_id id s) (λ e w t. (to_login, none, t)) (k id) (some id)

-- `RequireAdmin`.
unfoldable pub require_admin : (ℕ → Account → Handler) → ℕ → Account → Handler
require_admin k id a = require a.is_admin (page 403) (k id a)

-- `errors.As(err, &se)`: the message of bet-backend, or a text of the page.
abbrev pub flash_of : String → SiteError → Page
flash_of p (status_error code) = refusal code
flash_of p _ = redirect p

-- `Logout`.
unfoldable pub logout : Handler
logout w s = (redirect "/", none, s)

-- The second call of `Deposit`, with the balance that the first one read.
unfoldable pub deposit_write : (now id : ℕ) → ℤ → User → Handler
deposit_write now id n u w s =
    on_result (sync_user_typed now id (add64 (pos u.balance) n) s)
      (λ x. show (redirect "/profile?flash=falha+ao+depositar"))
      (λ _. show (redirect "/profile?flash=Dep%C3%B3sito+realizado")) w

-- `Deposit`.
unfoldable pub deposit : ℕ → ℕ → ℤ → Handler
unfolding deposit_write
deposit now id amount =
    require (is_nonzero amount) (redirect "/profile?flash=valor+inv%C3%A1lido") (
      passing (positive_int64 amount max_sanity_int) (redirect "/profile?flash=valor+inv%C3%A1lido")
        (λ n w s.
          on_result (client_get_user id s)
            (λ x. show (redirect "/profile?flash=motor+de+apostas+indispon%C3%ADvel"))
            (deposit_write now id n) w))

module _ (env : Env) where
  -- `Register`, with the new id.
  unfoldable pub register : (now id : ℕ) → String → String → Handler
  register now id email password =
      require (is_given email && env.is_email email && is_given password) (page 400) (
        passing (non_empty_string email max_email_len) (page 400) (λ e.
          require (is_given password) (page 400) (
            on_option (env.hash_password password) (page 400) (λ hash w s.
              on_result (create_account env now id e hash s) (λ x. show (page 400))
                (λ a w t.
                  on_result (sync_user_typed now id (pos 0) t) (λ x. show (page 400))
                    (λ _ w u. (redirect "/", some id, u)) w)
                w))))

  -- `Login`.
  unfoldable pub login : String → String → String → Handler
  login email password next =
      require (is_given email && env.is_email email && is_given password) (page 400) (λ w s.
        on_result (find_account_by_email env email s) (λ x. show (page 401))
          (λ r w t.
            if env.check_password (r.1).password_hash password
            then (redirect (if str_eq next "" then "/" else next), some r.0, t)
            else (page 401, w, t))
          w)

  -- `PlaceBetPage`.
  unfoldable pub place_bet_page : (now bet_id user : ℕ) → String → String → ℤ → Handler
  place_bet_page now b u path outcome stake =
      passing (sanitize_uuid env.parse_uuid path) (page 400) (λ m.
        require (is_given outcome && is_nonzero stake) (page 400) (
          passing (non_empty_string outcome max_outcome_len) (page 400) (λ o.
            passing (positive_int64 stake max_sanity_int) (page 400) (λ n w s.
              on_result (place_bet_typed now b m u o n s) (λ x. show (page 200))
                (λ _. show (page 200)) w))))

  -- `ListBetForSalePage`, `CancelListingPage` and `BuyListingPage`.
  unfoldable pub list_bet_page : (now listing_id user : ℕ) → String → ℤ → Handler
  list_bet_page now l u path price =
      passing (sanitize_uuid env.parse_uuid path) (redirect "/profile?flash=aposta+inv%C3%A1lida")
        (λ b. require (is_nonzero price) (redirect "/profile?flash=pre%C3%A7o+inv%C3%A1lido") (
          passing (positive_int64 price max_sanity_int)
            (redirect "/profile?flash=pre%C3%A7o+inv%C3%A1lido")
            (λ n w s.
              on_result (list_bet_for_sale_typed now l b u n s)
                (λ x. show (
                  flash_of "/profile?flash=n%C3%A3o+foi+poss%C3%ADvel+colocar+a+aposta+%C3%A0+venda"
                    x))
                (λ _. show (redirect "/profile?flash=Aposta+colocada+%C3%A0+venda")) w)))

  unfoldable pub cancel_listing_page : (now user : ℕ) → String → Handler
  cancel_listing_page now u path =
      passing (sanitize_uuid env.parse_uuid path) (redirect "/profile?flash=listagem+inv%C3%A1lida")
        (λ l w s.
          on_result (cancel_listing_typed now l u s)
            (λ x. show (redirect "/profile?flash=falha+ao+cancelar+venda"))
            (λ _. show (redirect "/profile?flash=Venda+cancelada")) w)

  unfoldable pub buy_listing_page : (now user : ℕ) → String → Handler
  buy_listing_page now u path = passing (sanitize_uuid env.parse_uuid path) (page 400) (λ l w s.
      on_result (buy_listing_typed now l u s) (λ x. show (page 200)) (λ _. show (page 200)) w)

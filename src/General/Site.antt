-- ===== src/General/Site.antt =====
-- general-backend: its accounts (store/accounts.go, `Account`), the tables of bet-backend that it
-- reaches (betclient/client.go, betclient/types.go), and the calls over the network, which may be
-- lost.
use tchebets_open.Prelude.{
  ℕ, String, Bool, Option, List, Result, ok, err, ◌==◌, if◌then◌else◌, Table,
}
use tchebets_open.Bet.Models.{Db, User}
use tchebets_open.Bet.Errors.{BetError}
use tchebets_open.Bet.Details.{get_user, get_market_details}
use tchebets_open.Wallet.Models.{Answer, fine, dropped, unanswered}
use tchebets_open.Wallet.Effects.{next_answer, later_answers}

pub record Account : Type 0 where
  pub email : String
  pub password_hash : String
  pub is_admin : Bool
  pub created_at : ℕ

pub record Site : Type 0 where
  pub accounts : Table Account
  pub bets : Db
  pub answers : List Answer

-- The code that general-backend only calls, and its environment.
pub record Env : Type 0 where
  pub parse_uuid : String → Option ℕ
  pub to_lower : String → String
  pub is_email : String → Bool
  pub hash_password : String → Option String
  pub check_password : String → String → Bool
  pub initial_admin_email : String

-- `ErrUnavailable`, `ErrMarketNotFound`, `StatusError`, and the errors of the store.
pub data SiteError : Type 0 where
  unavailable : SiteError
  market_not_found : SiteError
  status_error : ℕ → SiteError
  account_not_found : SiteError
  email_taken : SiteError

abbrev pub S : Type 0 → Type 0
S A = Site → Result SiteError A × Site

abbrev pub answered : {A : Type 0} → Answer → S A → S A
answered fine f s = f s
answered dropped f s = (err unavailable, s)
answered unanswered f s = let (_, s') = f s in (err unavailable, s')

-- A call over the network takes the next answer.
unfoldable pub call : {A : Type 0} → S A → S A
call f s = answered (next_answer s.answers) f (record s { answers = later_answers s.answers })

-- `Client.do`: the status of the reply of bet-backend.
unfoldable pub ask : (Db → ℕ × Db) → S ℕ
ask f = call (λ s. let (code, db) = f s.bets in (ok code, record s { bets = db }))

-- `relay`.
abbrev pub relay_reply : Result SiteError ℕ × Site → ℕ × Site
relay_reply (ok code, s) = (code, s)
relay_reply (err unavailable, s) = (502, s)
relay_reply (err _, s) = (500, s)

unfoldable pub relay : (Db → ℕ × Db) → Site → ℕ × Site
relay f s = relay_reply (ask f s)

-- `decodeErr`.
unfoldable pub decode_err : ℕ → SiteError
decode_err code = if code == 404 then market_not_found else status_error code

-- The methods of betclient/types.go that change state: any status but the expected one is an error.
abbrev pub expect : ℕ → Result SiteError ℕ × Site → Result SiteError (Unit {0}) × Site
expect code (ok c, s) = if c == code then (ok tt, s) else (err (decode_err c), s)
expect code (err e, s) = (err e, s)

unfoldable pub typed : ℕ → (Db → ℕ × Db) → S (Unit {0})
typed code f s = expect code (ask f s)

abbrev pub user_reply : Result BetError User → Result SiteError User
user_reply (ok u) = ok u
user_reply (err _) = err (decode_err 404)

-- `Client.GetUser`, over `GetUser` of bet-backend.
unfoldable pub client_get_user : ℕ → S User
client_get_user id = call (λ s. (user_reply (get_user id s.bets), s))

-- The requests to bet-backend that only read, and the status of their replies.
pub data Read : Type 0 where
  read_user : ℕ → Read
  read_market : ℕ → Read
  read_markets : Read
  read_market_bets : ℕ → Read
  read_user_bets : ℕ → Read
  read_market_listings : ℕ → Read
  read_user_listings : ℕ → Read

abbrev found : {A : Type 0} → Result BetError A → ℕ
found (ok _) = 200
found (err _) = 404

unfoldable pub handle_read : Read → Db → ℕ × Db
handle_read (read_user id) db = (found (get_user id db), db)
handle_read (read_market id) db = (found (get_market_details (tt {0}) (λ _ _. tt {0}) id db), db)
handle_read _ db = (200, db)

-- ===== src/General/Crypto.antt =====
-- The pages of the crypto mode of general-backend/handlers/profile_handlers.go, over the client of
-- general-backend/walletclient/client.go. A page is the text of the `flash` that it redirects with.
use tchebets_open.Prelude.{◌/◌, ℕ, String, ◌&&◌, ◌==◌, Result, ok, err, if◌then◌else◌, ℤ}
use tchebets_open.Bet.Handlers.{is_given}
use tchebets_open.Wallet.Models.{World, Answer, fine, dropped, unanswered, Chain, Config}
use tchebets_open.Wallet.Effects.{next_answer, later_answers}
use tchebets_open.Wallet.Handlers.{handle_address, handle_provision, handle_faucet, handle_withdraw}
use tchebets_open.General.Sanitize.{SanitizeError, max_sanity_int, solana_address, positive_int64}
use tchebets_open.General.Api.{is_nonzero}

-- `ErrManualReview`, `ErrInsufficientBalance`, `ErrFaucetAlreadyClaimed`, `ErrDepositAddressNotFound`,
-- and the errors with a status or of an unreachable service.
pub data ClientError : Type 0 where
  review no_balance claimed not_provisioned wallet_failed : ClientError

abbrev pub status_seen : Answer → (World → ℕ × World) → World → Result ClientError ℕ × World
status_seen fine f w = let (code, w') = f w in (ok code, w')
status_seen dropped f w = (err wallet_failed, w)
status_seen unanswered f w = let (_, w') = f w in (err wallet_failed, w')

-- `doStatus`: the status of the reply, or an error where the call is lost.
unfoldable pub do_status : (World → ℕ × World) → World → Result ClientError ℕ × World
do_status f w =
    status_seen (next_answer w.answers) f (record w { answers = later_answers w.answers })

abbrev pub meant :
    (ℕ → Result ClientError (Unit {0}))
    → Result ClientError ℕ × World
    → Result ClientError (Unit {0}) × World
meant f (ok code, w) = (f code, w)
meant f (err e, w) = (err e, w)

abbrev pub lookup_meaning : ℕ → Result ClientError (Unit {0})
lookup_meaning code =
    if code == 200 then ok tt else if code == 404 then err not_provisioned else err wallet_failed

abbrev pub faucet_meaning : ℕ → Result ClientError (Unit {0})
faucet_meaning code =
    if code == 200 then ok tt else if code == 409 then err claimed else err wallet_failed

abbrev pub withdraw_meaning : ℕ → Result ClientError (Unit {0})
withdraw_meaning code =
    if code == 200
    then ok tt
    else if code == 202
    then err review
    else if code == 402
    then err no_balance
    else err wallet_failed

-- `do`: any status from 200 to 299 is success; the services reply with 200 or from 400.
abbrev pub provision_meaning : ℕ → Result ClientError (Unit {0})
provision_meaning code = if (code / 100) == 2 then ok tt else err wallet_failed

-- `LookupDepositAddress`.
unfoldable pub lookup_deposit_address : ℕ → World → Result ClientError (Unit {0}) × World
lookup_deposit_address id w = meant lookup_meaning (do_status (handle_address id) w)

abbrev pub checked_page :
    {A : Type 0}
    → Result SanitizeError A
    → String
    → (A → World → String × World)
    → World
    → String × World
checked_page (ok a) p k w = k a w
checked_page (err _) p k w = (p, w)

abbrev pub provision_flash : Result ClientError (Unit {0}) × World → String × World
provision_flash (ok _, w) = ("Endereço de depósito criado.", w)
provision_flash (err _, w) =
    ("Não foi possível criar o endereço de depósito agora. Tente novamente em instantes.", w)

abbrev pub faucet_flash : Result ClientError (Unit {0}) × World → String × World
faucet_flash (ok _, w) = ("USDC de teste enviado — o saldo será creditado em instantes", w)
faucet_flash (err claimed, w) = ("Você já resgatou o USDC de teste", w)
faucet_flash (err _, w) = ("falha ao resgatar USDC de teste", w)

abbrev pub withdraw_flash : Result ClientError (Unit {0}) × World → String × World
withdraw_flash (ok _, w) = ("Saque enviado", w)
withdraw_flash (err review, w) = ("Saque em análise manual", w)
withdraw_flash (err no_balance, w) = ("saldo insuficiente", w)
withdraw_flash (err _, w) = ("falha ao sacar", w)

module _ (chain : Chain) (cfg : Config) where
  -- `ProvisionAccount`, `Faucet` and `RequestWithdrawal` of the client.
  unfoldable pub client_provision : ℕ → World → Result ClientError (Unit {0}) × World
  client_provision id w = meant provision_meaning (do_status (handle_provision chain cfg id) w)

  unfoldable pub client_faucet : ℕ → World → Result ClientError (Unit {0}) × World
  client_faucet id w = meant faucet_meaning (do_status (handle_faucet chain cfg id) w)

  unfoldable pub client_withdraw :
      (wid id : ℕ) → String → ℤ → World → Result ClientError (Unit {0}) × World
  client_withdraw wid id dest amount w =
      meant withdraw_meaning (do_status (handle_withdraw chain cfg wid id dest amount) w)

  -- `ProvisionDepositAddress` and `Faucet`, of the visitor `id`.
  unfoldable pub provision_page : ℕ → World → String × World
  provision_page id w = provision_flash (client_provision id w)

  unfoldable pub faucet_page : ℕ → World → String × World
  faucet_page id w = faucet_flash (client_faucet id w)

  -- `Withdraw`.
  unfoldable pub withdraw_page : (wid id : ℕ) → String → ℤ → World → String × World
  withdraw_page wid id dest amount w =
      if is_given dest && is_nonzero amount
      then checked_page (solana_address dest) "endereço de destino inválido"
          (λ d.
            checked_page (positive_int64 amount max_sanity_int) "valor inválido"
              (λ n v. withdraw_flash (client_withdraw wid id d n v)))
          w
      else ("dados de saque inválidos", w)

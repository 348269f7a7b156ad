-- ===== src/Wallet/Handlers.antt =====
-- wallet-backend/handlers/handlers.go: the requests over the service, and the status of each reply.
-- The bodies of the replies are left out.
use tchebets_open.Prelude.{
  ℕ, String, Bool, not, ◌&&◌, Result, ok, err, str_eq, ◌==◌, if◌then◌else◌, ℤ, pos, negsuc,
}
use tchebets_open.Wallet.Models.{
  World, WalletError, not_found, faucet_already_claimed, manual_review, amount_below_min,
  amount_above_max, insufficient_balance, Chain, Config,
}
use tchebets_open.Wallet.Effects.{call}
use tchebets_open.Wallet.Store.{get_address_by_account}
use tchebets_open.Wallet.Service.{provision_account, faucet_test_usdc, request_withdrawal}

abbrev pub wallet_reply :
    {A : Type 0} → (WalletError → ℕ) → Result WalletError A × World → ℕ × World
wallet_reply status (ok a, w) = (200, w)
wallet_reply status (err e, w) = (status e, w)

abbrev pub address_status : WalletError → ℕ
address_status not_found = 404
address_status _ = 500

abbrev pub provision_status : WalletError → ℕ
provision_status e = 500

abbrev pub faucet_status : WalletError → ℕ
faucet_status faucet_already_claimed = 409
faucet_status _ = 500

abbrev pub withdraw_status : WalletError → ℕ
withdraw_status manual_review = 202
withdraw_status amount_below_min = 400
withdraw_status amount_above_max = 400
withdraw_status insufficient_balance = 402
withdraw_status _ = 500

-- `binding:"required"` refuses the empty text and the number 0.
abbrev pub withdraw_given : String → ℤ → Bool
withdraw_given dest (pos n) = not (str_eq dest "") && not (n == 0)
withdraw_given dest (negsuc n) = not (str_eq dest "")

-- `getAddress`.
unfoldable pub handle_address : ℕ → World → ℕ × World
handle_address id w = wallet_reply address_status (call (get_address_by_account id) w)

module _ (chain : Chain) (cfg : Config) where
  -- `provision`, `faucet` and `withdraw`.
  unfoldable pub handle_provision : ℕ → World → ℕ × World
  handle_provision id w = wallet_reply provision_status (provision_account chain cfg id w)

  unfoldable pub handle_faucet : ℕ → World → ℕ × World
  handle_faucet id w = wallet_reply faucet_status (faucet_test_usdc chain cfg id w)

  unfoldable pub handle_withdraw : (wid id : ℕ) → String → ℤ → World → ℕ × World
  handle_withdraw wid id dest amount w =
      if withdraw_given dest amount
      then wallet_reply withdraw_status (request_withdrawal chain cfg wid id dest amount w)
      else (400, w)

-- ===== src/Wallet/Models.antt =====
-- wallet-backend/models/models.go and the tables of wallet-backend/db/db.go, with the balances of
-- bet-backend and the transfers on the chain that the service reaches.
use tchebets_open.Prelude.{ℕ, ℤ, String, Option, List, Table}
use tchebets_open.Bet.Models.{Db}
use tchebets_open.Bet.Errors.{BetError}

pub data Asset : Type 0 where
  sol usdc usdt : Asset

-- `Decimals`.
unfoldable pub decimals : Asset → ℕ
decimals sol = 9
decimals usdc = 6
decimals usdt = 6

pub data DepositStatus : Type 0 where
  detected swapping credited deposit_failed : DepositStatus

pub data WithdrawalStatus : Type 0 where
  requested signing broadcast confirmed failed : WithdrawalStatus

pub record WalletAddress : Type 0 where
  pub account_id : ℕ
  pub derivation_index : ℕ
  pub address : String
  pub usdc_ata : String

pub record Deposit : Type 0 where
  pub signature : String
  pub account_id : ℕ
  pub asset : Asset
  pub raw_amount : ℕ
  pub credited_usdc : ℕ
  pub credited_reais : ℕ
  pub status : DepositStatus

pub record Withdrawal : Type 0 where
  pub account_id : ℕ
  pub dest_address : String
  pub asset : Asset
  pub amount_reais : ℤ
  pub amount_usdc : ℤ
  pub status : WithdrawalStatus
  pub signature : Option String

-- `DetectedDeposit` of wallet-backend/chain/chain.go; the amount is a `uint64`.
pub record DetectedDeposit : Type 0 where
  pub signature : String
  pub asset : Asset
  pub raw_amount : ℕ

-- A transfer of USDC out of the treasury that the chain has seen.
pub record Transfer : Type 0 where
  pub to_ata : String
  pub micro_usdc : ℕ

-- What the next call to a database, to bet-backend or to the chain meets: it runs; it is lost before
-- it runs; or it runs and its answer is lost. The last two look alike to the caller.
pub data Answer : Type 0 where
  fine dropped unanswered : Answer

pub data WalletError : Type 0 where
  not_found : WalletError
  unavailable : WalletError
  constraint : WalletError
  ledger_error : BetError → WalletError
  insufficient_balance : WalletError
  faucet_already_claimed : WalletError
  amount_below_min : WalletError
  amount_above_max : WalletError
  manual_review : WalletError
  unsupported_asset : WalletError

-- The tables of wallet-backend, the tables of bet-backend, the chain, and the answers to come.
pub record World : Type 0 where
  pub addresses : List WalletAddress
  pub next_index : ℕ
  pub faucet_claims : List ℕ
  pub deposits : List Deposit
  pub withdrawals : Table Withdrawal
  pub cursors : List (String × String)
  pub ledger : Db
  pub transfers : List Transfer
  pub answers : List Answer

-- The configuration of `Service`.
pub record Config : Type 0 where
  pub limit_min : ℕ
  pub limit_max : ℕ
  pub manual_review_over : ℕ
  pub rate_micros : ℕ
  pub faucet : ℕ

-- The code that the service only calls: the keys of the master wallet, the chain and the swap.
pub record Chain : Type 0 where
  pub address_of : ℕ → String
  pub ata_of : String → String
  pub signature_of : ℕ → String
  pub swap_out : ℕ → ℕ

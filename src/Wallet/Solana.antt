-- ===== src/Wallet/Solana.antt =====
-- wallet-backend/chain/solana.go: the client of the chain, over what its libraries and the RPC answer.
-- The state is the list of instructions that the cluster has taken, the newest first.
use tchebets_open.Prelude.{
  ℕ, zero, String, Bool, true, false, Option, none, some, List, ◌∷◌, Result, ok, err, if◌then◌else◌,
}
use tchebets_open.Wallet.Confirm.{
  Poll, ConfirmError, cancelled, not_built, not_sent, Confirmation, confirm_signature,
  sign_send_confirm,
}

pub data ChainError : Type 0 where
  invalid_key : String → ChainError
  rpc_failed : ChainError
  not_a_number : String → ChainError
  not_confirmed : ConfirmError → ChainError
  no_route empty_swap not_decoded : ChainError

-- The instructions of the transactions, each with one signer; the last is the transaction of a swap.
pub data Instruction : Type 0 where
  create_ata : (payer owner mint : String) → Instruction
  transfer_checked : (amount decimals : ℕ) (source_ata mint dest_ata owner : String) → Instruction
  transfer_lamports : (lamports : ℕ) (source dest : String) → Instruction
  swap_transaction : (signer transaction : String) → Instruction

-- What `SendTransaction` meets: the cluster takes the transaction and its signature comes back; it takes
-- it and the answer is lost; or it does not take it.
pub data SendAnswer : Type 0 where
  taken : String → SendAnswer
  taken_unanswered refused : SendAnswer

-- `GetAccountInfo`.
pub data AccountInfo : Type 0 where
  present not_found unknown : AccountInfo

pub record Cluster : Type 0 where
  pub usdc_mint : String
  pub is_key : String → Bool
  pub find_ata : (owner mint : String) → Option String
  pub account_info : String → AccountInfo
  pub sol_balance : String → Option ℕ
  pub token_balance : String → Option String
  pub parse_uint : String → Option ℕ
  -- The blockhash, the building and the signing.
  pub builds : Instruction → Bool
  pub send : Instruction → SendAnswer
  -- The polls of a signature, when the context is done, and how many polls may run.
  pub poll : String → ℕ → Poll
  pub done : ℕ → Bool
  pub polls : ℕ

abbrev pub Log : Type 0
Log = List Instruction

-- `usdcDecimals`.
abbrev pub usdc_decimals : ℕ
usdc_decimals = 6

abbrev pub settled_or_cancelled : Option Confirmation → Confirmation
settled_or_cancelled none = err cancelled
settled_or_cancelled (some r) = r

abbrev pub sent_answer : SendAnswer → Result ConfirmError String
sent_answer (taken sig) = ok sig
sent_answer taken_unanswered = err not_sent
sent_answer refused = err not_sent

-- What the cluster has taken after a send.
abbrev pub logged : SendAnswer → Instruction → Log → Log
logged refused ix log = log
logged _ ix log = ix ∷ log

abbrev pub chain_result : {A : Type 0} → A → Confirmation → Result ChainError A
chain_result a (ok _) = ok a
chain_result a (err e) = err (not_confirmed e)

module _ (c : Cluster) where
  -- `confirmSignature`; the fuel is enough where the context is done within it.
  unfoldable pub confirm : String → Confirmation
  confirm sig = settled_or_cancelled (confirm_signature (c.poll sig) c.done c.polls zero)

  -- `signSendConfirm`, with the signature, the error and what the cluster took.
  unfoldable pub submit : Instruction → Log → (String × Confirmation) × Log
  unfolding confirm
  submit ix log =
      if c.builds ix
      then (sign_send_confirm (ok tt) (sent_answer (c.send ix)) confirm, logged (c.send ix) ix log)
      else (sign_send_confirm (err not_built) (sent_answer (c.send ix)) confirm, log)

  -- `ReadSOLBalance`.
  unfoldable pub read_sol_balance : String → Result ChainError ℕ
  read_sol_balance address =
      if c.is_key address
      then elim (c.sol_balance address) [ none ↦ err rpc_failed | some n ↦ ok n ]
      else err (invalid_key address)

  -- `DeriveUSDCATA`.
  unfoldable pub derive_usdc_ata : String → Result ChainError String
  derive_usdc_ata owner =
      if c.is_key owner
      then elim (c.find_ata owner c.usdc_mint) [ none ↦ err rpc_failed | some ata ↦ ok ata ]
      else err (invalid_key owner)

  -- `accountExists`.
  unfoldable pub account_exists : String → Result ChainError Bool
  account_exists key = elim (c.account_info key) [
    | present ↦ ok true
    | not_found ↦ ok false
    | unknown ↦ err rpc_failed
  ]

  abbrev pub parsed_amount : Option String → Result ChainError ℕ
  parsed_amount none = err rpc_failed
  parsed_amount (some s) = elim (c.parse_uint s) [ none ↦ err (not_a_number s) | some n ↦ ok n ]

  abbrev pub balance_if : String → Result ChainError Bool → Result ChainError ℕ
  balance_if ata (err e) = err e
  balance_if ata (ok false) = ok 0
  balance_if ata (ok true) = parsed_amount (c.token_balance ata)

  -- `ReadUSDCBalance`: an account that was never made holds 0.
  unfoldable pub read_usdc_balance : String → Result ChainError ℕ
  unfolding derive_usdc_ata account_exists
  read_usdc_balance owner = elim (derive_usdc_ata owner) [
    | err e ↦ err e
    | ok ata ↦ balance_if ata (account_exists ata)
  ]

  abbrev pub ata_created :
      String → (String × Confirmation) × Log → (Result ChainError (String × String)) × Log
  ata_created ata ((sig, r), log) = (chain_result (ata, sig) r, log)

  abbrev pub ensure_if :
      (treasury owner ata : String)
      → Result ChainError Bool
      → Log
      → Result ChainError (String × String) × Log
  ensure_if treasury owner ata (err e) log = (err e, log)
  ensure_if treasury owner ata (ok true) log = (ok (ata, ""), log)
  ensure_if treasury owner ata (ok false) log =
      ata_created ata (submit (create_ata treasury owner c.usdc_mint) log)

  -- `EnsureUSDCATA`: the token account, and the signature of the transaction that makes it.
  unfoldable pub ensure_ata :
      (treasury owner : String) → Log → Result ChainError (String × String) × Log
  unfolding derive_usdc_ata account_exists submit
  ensure_ata treasury owner log = elim (derive_usdc_ata owner) [
    | err e ↦ (err e, log)
    | ok ata ↦ ensure_if treasury owner ata (account_exists ata) log
  ]

  abbrev pub signed : (String × Confirmation) × Log → Result ChainError String × Log
  signed ((sig, r), log) = (chain_result sig r, log)

  abbrev pub transfer_from :
      String → Option String → String → ℕ → Log → Result ChainError String × Log
  transfer_from owner none dest_ata amount log = (err rpc_failed, log)
  transfer_from owner (some source) dest_ata amount log =
      if c.is_key dest_ata
      then signed
          (submit (transfer_checked amount usdc_decimals source c.usdc_mint dest_ata owner) log)
      else (err (invalid_key dest_ata), log)

  -- `TransferUSDC`.
  unfoldable pub transfer_tokens :
      (owner dest_ata : String) → ℕ → Log → Result ChainError String × Log
  unfolding submit
  transfer_tokens owner dest_ata amount log =
      transfer_from owner (c.find_ata owner c.usdc_mint) dest_ata amount log

  -- `TransferSOL`.
  unfoldable pub transfer_sol : (source dest : String) → ℕ → Log → Result ChainError String × Log
  unfolding submit
  transfer_sol source dest lamports log =
      if c.is_key dest
      then signed (submit (transfer_lamports lamports source dest) log)
      else (err (invalid_key dest), log)

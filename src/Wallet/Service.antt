-- ===== src/Wallet/Service.antt =====
-- wallet-backend/service/service.go: provisioning, the faucet, deposits and withdrawals, and the
-- pass over one address of wallet-backend/poller/poller.go. The service calls the ledger of
-- bet-backend through wallet-backend/betclient/client.go.
use tchebets_open.Prelude.{
  ℕ, String, not, ◌&&◌, none, List, [], ◌∷◌, Result, ok, err, str_eq, if◌then◌else◌, ℤ, pos,
  pos_part, ◌-ℤ◌, ltb_ℤ, length,
}
use tchebets_open.Int64.{wrap64}
use tchebets_open.Bet.Errors.{BetError}
use tchebets_open.Bet.Market.{adjust_balance}
use tchebets_open.Wallet.Models.{
  Asset, sol, usdc, usdt, detected, swapping, requested, signing, confirmed, failed, WalletAddress,
  Deposit, Withdrawal, DetectedDeposit, WalletError, not_found, ledger_error, insufficient_balance,
  faucet_already_claimed, amount_below_min, amount_above_max, manual_review, unsupported_asset,
  Config, Chain,
}
use tchebets_open.Wallet.Convert.{micro_usdc_to_reais, reais_to_micro_usdc}
use tchebets_open.Wallet.Effects.{W, pure, fail, ◌>>=◌, ◌>>◌, attempt, ignore, guard, call}
use tchebets_open.Wallet.Store.{
  get_address_by_account, next_derivation_index, insert_address, claim_faucet, release_faucet,
  insert_deposit_if_new, set_deposit_status, mark_deposit_failed, mark_deposit_credited,
  insert_withdrawal, set_withdrawal_status, set_withdrawal_sent, get_scan_cursor, set_scan_cursor,
}

-- The status 402 of bet-backend is a sentinel of its own; the other refusals are plain errors.
abbrev pub ledger_refusal : BetError → WalletError
ledger_refusal BetError.insufficient_balance = insufficient_balance
ledger_refusal e = ledger_error e

abbrev pub ledger_answer : Result BetError ℤ → Result WalletError ℤ
ledger_answer (ok b) = ok b
ledger_answer (err e) = err (ledger_refusal e)

-- `AdjustBalance` of the client, as bet-backend runs it.
unfoldable pub adjust_ledger : ℕ → ℤ → W ℤ
adjust_ledger id delta w =
    let (r, db) = adjust_balance id delta w.ledger in (ledger_answer r, record w { ledger = db })

module _ (chain : Chain) (cfg : Config) where
  open chain use {address_of, ata_of, signature_of, swap_out}

  -- `EnsureUSDCATA`: the address of the token account, made if it is missing.
  unfoldable pub ensure_usdc_ata : String → W String
  ensure_usdc_ata owner = pure (ata_of owner)

  -- `TransferUSDC` from the treasury.
  unfoldable pub transfer_usdc : String → ℕ → W String
  transfer_usdc to amount w = (
    ok (signature_of (length w.transfers)),
    record w { transfers = record { to_ata = to; micro_usdc = amount } ∷ w.transfers },
  )

  -- `ConfirmTx` changes nothing.
  unfoldable pub confirm_tx : W (Unit {0})
  confirm_tx = pure tt

  abbrev pub insert_or_existing :
      ℕ → WalletAddress → Result WalletError (Unit {0}) → W WalletAddress
  insert_or_existing id row (ok _) = pure row
  insert_or_existing id row (err e) = do
    existing ← attempt (call (get_address_by_account id))
    elim existing [ ok a ↦ pure a | err _ ↦ fail e ]

  unfoldable pub provision_new : ℕ → W WalletAddress
  provision_new id = do
    index ← call next_derivation_index
    ata ← call (ensure_usdc_ata (address_of index))
    let row : WalletAddress = record {
      account_id = id;
      derivation_index = index;
      address = address_of index;
      usdc_ata = ata;
    }
    done ← attempt (call (insert_address row))
    insert_or_existing id row done

  abbrev pub provision_after : ℕ → Result WalletError WalletAddress → W WalletAddress
  provision_after id (ok a) = pure a
  provision_after id (err not_found) = provision_new id
  provision_after id (err e) = fail e

  -- `ProvisionAccount`.
  unfoldable pub provision_account : ℕ → W WalletAddress
  unfolding provision_new
  provision_account id = do
    existing ← attempt (call (get_address_by_account id))
    provision_after id existing

  abbrev pub faucet_after : ℕ → Result WalletError String → W String
  faucet_after id (ok sig) = pure sig
  faucet_after id (err e) = do ignore (call (release_faucet id)); fail e

  -- `FaucetTestUSDC`.
  unfoldable pub faucet_test_usdc : ℕ → W String
  faucet_test_usdc id = do
    row ← provision_account id
    claimed ← call (claim_faucet id)
    guard claimed faucet_already_claimed
    sent ← attempt (call (transfer_usdc row.usdc_ata cfg.faucet))
    faucet_after id sent

  -- `resolveCreditAmount`.
  unfoldable pub resolve_credit_amount : ℕ → DetectedDeposit → Asset → W ℤ
  resolve_credit_amount id d usdc = pure (wrap64 (pos d.raw_amount))
  resolve_credit_amount id d sol = do
    call (set_deposit_status d.signature swapping)
    row ← call (get_address_by_account id)
    out ← call (pure (swap_out d.raw_amount))
    pure (wrap64 (pos out))
  resolve_credit_amount id d usdt = fail unsupported_asset

  -- A step of a deposit that fails parks it, and reports the failure.
  abbrev pub or_mark_failed : {A : Type 0} → String → Result WalletError A → W A
  or_mark_failed sig (ok a) = pure a
  or_mark_failed sig (err e) = do ignore (call (mark_deposit_failed sig)); fail e

  abbrev pub detected_row : ℕ → DetectedDeposit → Deposit
  detected_row id d = record {
    signature = d.signature;
    account_id = id;
    asset = d.asset;
    raw_amount = d.raw_amount;
    credited_usdc = 0;
    credited_reais = 0;
    status = detected;
  }

  unfoldable pub credit_deposit : ℕ → DetectedDeposit → W (Unit {0})
  credit_deposit id d = do
    priced ← attempt (resolve_credit_amount id d d.asset)
    micro ← or_mark_failed d.signature priced
    let reais = micro_usdc_to_reais micro cfg.rate_micros
    moved ← attempt (call (adjust_ledger id reais))
    done ← or_mark_failed d.signature moved
    call (mark_deposit_credited d.signature micro reais)

  -- `IngestDeposit`.
  unfoldable pub ingest_deposit : ℕ → DetectedDeposit → W (Unit {0})
  ingest_deposit id d = do
    inserted ← call (insert_deposit_if_new (detected_row id d))
    if inserted then credit_deposit id d else pure tt

  -- `refund`, whose error is dropped.
  unfoldable pub refund : ℕ → ℤ → W (Unit {0})
  refund id amount = ignore (call (adjust_ledger id amount))

  -- `failAndRefund`.
  unfoldable pub fail_and_refund : ℕ → ℕ → ℤ → WalletError → W (Unit {0})
  unfolding refund
  fail_and_refund wid id amount cause = do
    ignore (call (set_withdrawal_status wid failed))
    refund id amount
    fail cause

  abbrev pub confirm_or_refund : ℕ → ℕ → ℤ → Result WalletError (Unit {0}) → W (Unit {0})
  confirm_or_refund wid id amount (err e) = fail_and_refund wid id amount e
  confirm_or_refund wid id amount (ok _) = call (set_withdrawal_status wid confirmed)

  abbrev pub sent_or_refund : ℕ → ℕ → ℤ → Result WalletError String → W (Unit {0})
  sent_or_refund wid id amount (err e) = fail_and_refund wid id amount e
  sent_or_refund wid id amount (ok sig) = do
    call (set_withdrawal_sent wid sig)
    done ← attempt (call confirm_tx)
    confirm_or_refund wid id amount done

  abbrev pub send_or_refund : ℕ → ℕ → ℤ → ℕ → Result WalletError String → W (Unit {0})
  send_or_refund wid id amount micro (err e) = fail_and_refund wid id amount e
  send_or_refund wid id amount micro (ok ata) = do
    sent ← attempt (call (transfer_usdc ata micro))
    sent_or_refund wid id amount sent

  -- `settleWithdrawal`.
  unfoldable pub settle_withdrawal : (wid id : ℕ) → String → ℤ → ℕ → W (Unit {0})
  unfolding fail_and_refund
  settle_withdrawal wid id dest amount micro = do
    ignore (call (set_withdrawal_status wid signing))
    ata ← attempt (call (ensure_usdc_ata dest))
    send_or_refund wid id amount micro ata

  abbrev pub withdrawal_row : ℕ → String → ℤ → ℤ → Withdrawal
  withdrawal_row id dest amount micro = record {
    account_id = id;
    dest_address = dest;
    asset = usdc;
    amount_reais = amount;
    amount_usdc = micro;
    status = requested;
    signature = none;
  }

  abbrev pub recorded_or_refund : ℕ → ℤ → Result WalletError (Unit {0}) → W (Unit {0})
  recorded_or_refund id amount (ok _) = pure tt
  recorded_or_refund id amount (err e) = do refund id amount; fail e

  -- `RequestWithdrawal`; `wid` is the fresh UUID of the row.
  unfoldable pub request_withdrawal : (wid id : ℕ) → String → ℤ → W (Unit {0})
  unfolding refund
  request_withdrawal wid id dest amount = do
    let micro = reais_to_micro_usdc amount cfg.rate_micros
    guard (not (ltb_ℤ micro (pos cfg.limit_min))) amount_below_min
    guard (not (ltb_ℤ (pos cfg.limit_max) micro)) amount_above_max
    debit ← call (adjust_ledger id (pos 0 -ℤ amount))
    recorded ← attempt (call (insert_withdrawal wid (withdrawal_row id dest amount micro)))
    recorded_or_refund id amount recorded
    guard (not (ltb_ℤ (pos cfg.manual_review_over) micro)) manual_review
    settle_withdrawal wid id dest amount (pos_part micro)

  -- The loop of `scanAddress` over what was found: the first failure ends it.
  unfoldable pub ingest_all : ℕ → List DetectedDeposit → W (Unit {0})
  ingest_all id [] = pure tt
  ingest_all id (d ∷ ds) = do ingest_deposit id d; ingest_all id ds

  abbrev pub advance_cursor :
      String → String → String → Result WalletError (Unit {0}) → W (Unit {0})
  advance_cursor base cursor new (err e) = pure tt
  advance_cursor base cursor new (ok _) =
      if not (str_eq new "") && not (str_eq new cursor)
      then call (set_scan_cursor base new)
      else pure tt

  -- `scanAddress`; `scan` is the answer of the scanner to the cursor.
  unfoldable pub scan_address :
      ℕ → String → (String → Result WalletError (List DetectedDeposit × String)) → W (Unit {0})
  scan_address id base scan = do
    cursor ← call (get_scan_cursor base)
    (found, new) ← (λ w. (scan cursor, w))
    done ← attempt (ingest_all id found)
    advance_cursor base cursor new done

-- ===== src/Wallet/Quiet.antt =====
-- The statements and calls of wallet-backend that move no balance and record no deposit, and the
-- operations made of them alone.
use tchebets_open.Prelude.{ℕ, String, Result, ok, err, ℤ, pos}
use tchebets_open.Int64.{wrap64}
use tchebets_open.Wallet.Models.{
  Asset, sol, usdc, usdt, DepositStatus, deposit_failed, WithdrawalStatus, World, WalletAddress,
  WalletError, Withdrawal, DetectedDeposit, not_found, unsupported_asset, faucet_already_claimed,
  swapping, Chain, Config,
}
use tchebets_open.Wallet.Effects.{W, pure, fail, call}
use tchebets_open.Wallet.Store.{
  set_deposit_status, mark_deposit_failed, mark_deposit_credited, get_address_by_account,
  set_withdrawal_status, set_withdrawal_sent, insert_withdrawal, claim_faucet, release_faucet,
  insert_address, next_derivation_index, get_scan_cursor, set_scan_cursor,
}
use tchebets_open.Wallet.Service.{
  ensure_usdc_ata, transfer_usdc, confirm_tx, insert_or_existing, provision_new, provision_after,
  provision_account, faucet_after, faucet_test_usdc, resolve_credit_amount, or_mark_failed,
}
use tchebets_open.Wallet.Keeps.{
  Keeps, Blind, Keeps-pure, Keeps-fail, Keeps-bind, Keeps-attempt, Keeps-ignore, Keeps-guard,
  Keeps-call,
}

module _ (chain : Chain) (cfg : Config) where
  -- What these statements keep.
  pub record Quiet (P : World → Type 0) : Type 0 where
    pub blind : Blind P
    pub status : (q : String) (t : DepositStatus) → Keeps P (set_deposit_status q t)
    pub marked : (q : String) (m r : ℤ) → Keeps P (mark_deposit_credited q m r)
    pub address : (id : ℕ) → Keeps P (get_address_by_account id)
    pub withdrawal : (id : ℕ) (t : WithdrawalStatus) → Keeps P (set_withdrawal_status id t)
    pub sent : (id : ℕ) (s : String) → Keeps P (set_withdrawal_sent id s)
    pub requested : (id : ℕ) (v : Withdrawal) → Keeps P (insert_withdrawal id v)
    pub claim : (id : ℕ) → Keeps P (claim_faucet id)
    pub release : (id : ℕ) → Keeps P (release_faucet id)
    pub transfer : (to : String) (n : ℕ) → Keeps P (transfer_usdc chain cfg to n)
    pub index : Keeps P next_derivation_index
    pub provision : (a : WalletAddress) → Keeps P (insert_address a)
    pub cursor : (a : String) → Keeps P (get_scan_cursor a)
    pub advance : (a s : String) → Keeps P (set_scan_cursor a s)

  module _ {P : World → Type 0} (q : Quiet P) where
    pub called : {A : Type 0} {m : W A} → Keeps P m → Keeps P (call m)
    called {m = m} k = Keeps-call m q.blind k

    pub mark_failed-Quiet : (s : String) → Keeps P (call (mark_deposit_failed s))
    unfolding mark_deposit_failed
    mark_failed-Quiet s = called (q.status s deposit_failed)

    pub or_mark_failed-Quiet :
        {A : Type 0} (s : String) (r : Result WalletError A)
        → Keeps P (or_mark_failed chain cfg s r)
    or_mark_failed-Quiet s (ok a) = Keeps-pure a
    or_mark_failed-Quiet s (err e) = record { at = λ w h. (mark_failed-Quiet s).at w h }

    ensure-Quiet : (s : String) → Keeps P (ensure_usdc_ata chain cfg s)
    unfolding ensure_usdc_ata
    ensure-Quiet s = Keeps-pure (chain.ata_of s)

    pub confirm-Quiet : Keeps P (call (confirm_tx chain cfg))
    unfolding confirm_tx
    confirm-Quiet = called (Keeps-pure tt)

    pub ensure_call-Quiet : (s : String) → Keeps P (call (ensure_usdc_ata chain cfg s))
    ensure_call-Quiet s = called (ensure-Quiet s)

    pub resolve-Quiet :
        (id : ℕ) (d : DetectedDeposit) (a : Asset)
        → Keeps P (resolve_credit_amount chain cfg id d a)
    unfolding resolve_credit_amount
    resolve-Quiet id d usdc = Keeps-pure (wrap64 (pos d.raw_amount))
    resolve-Quiet id d usdt = Keeps-fail unsupported_asset
    resolve-Quiet id d sol = Keeps-bind _ _ (called (q.status d.signature swapping)) λ _.
        Keeps-bind _ _ (called (q.address id)) λ _.
          Keeps-bind _ _ (called (Keeps-pure (chain.swap_out d.raw_amount)))
            λ out. Keeps-pure (wrap64 (pos out))

    existing-Quiet :
        (row : WalletAddress) (e : WalletError) (r : Result WalletError WalletAddress)
        → Keeps P (elim r [ ok a ↦ pure a | err _ ↦ fail e ])
    existing-Quiet row e (ok a) = Keeps-pure a
    existing-Quiet row e (err x) = Keeps-fail e

    insert_or_existing-Quiet :
        (id : ℕ) (row : WalletAddress) (r : Result WalletError (Unit {0}))
        → Keeps P (insert_or_existing chain cfg id row r)
    insert_or_existing-Quiet id row (ok _) = Keeps-pure row
    insert_or_existing-Quiet id row (err e) =
        Keeps-bind _ _ (Keeps-attempt _ (called (q.address id))) (existing-Quiet row e)

    provision_new-Quiet : (id : ℕ) → Keeps P (provision_new chain cfg id)
    unfolding provision_new
    provision_new-Quiet id = Keeps-bind _ _ (called q.index) λ index.
        Keeps-bind _ _ (ensure_call-Quiet (chain.address_of index)) λ ata.
          Keeps-bind _ _ (Keeps-attempt _ (called (q.provision _))) (insert_or_existing-Quiet id _)

    provision_after-Quiet :
        (id : ℕ) (r : Result WalletError WalletAddress) → Keeps P (provision_after chain cfg id r)
    provision_after-Quiet id (ok a) = Keeps-pure a
    provision_after-Quiet id (err not_found) = provision_new-Quiet id
    provision_after-Quiet id (err e) = Keeps-fail e

    pub provision-Quiet : (id : ℕ) → Keeps P (provision_account chain cfg id)
    unfolding provision_account
    provision-Quiet id =
        Keeps-bind _ _ (Keeps-attempt _ (called (q.address id))) (provision_after-Quiet id)

    faucet_after-Quiet :
        (id : ℕ) (r : Result WalletError String) → Keeps P (faucet_after chain cfg id r)
    faucet_after-Quiet id (ok s) = Keeps-pure s
    faucet_after-Quiet id (err e) =
        Keeps-bind _ _ (Keeps-ignore _ (called (q.release id))) λ _. Keeps-fail e

    pub faucet-Quiet : (id : ℕ) → Keeps P (faucet_test_usdc chain cfg id)
    unfolding faucet_test_usdc
    faucet-Quiet id = Keeps-bind _ _ (provision-Quiet id) λ row.
        Keeps-bind _ _ (called (q.claim id)) λ claimed.
          Keeps-bind _ _ (Keeps-guard claimed faucet_already_claimed) λ _.
            Keeps-bind _ _ (Keeps-attempt _ (called (q.transfer row.usdc_ata cfg.faucet)))
              (faucet_after-Quiet id)

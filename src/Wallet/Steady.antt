-- ===== src/Wallet/Steady.antt =====
-- A condition that each operation of wallet-backend keeps holds after any history of it.
use tchebets_open.Prelude.{
  ℕ, ◌<◌, ◌≡◌, if◌then◌else◌, String, Bool, true, false, List, [], ◌∷◌, Result, ok, err, pos, not,
  ◌&&◌, str_eq,
}
use tchebets_open.Int64.{int64_limit}
use tchebets_open.Wallet.Models.{World, WalletError, WalletAddress, DetectedDeposit, Chain, Config}
use tchebets_open.Wallet.Effects.{pure, ◌>>=◌, attempt, call}
use tchebets_open.Wallet.Store.{set_scan_cursor}
use tchebets_open.Wallet.Service.{
  ingest_deposit, ingest_all, request_withdrawal, advance_cursor, scan_address,
}
use tchebets_open.Wallet.Scanner.{Rpc}
use tchebets_open.Wallet.Poller.{list_addresses, scan_each, scan_once}
use tchebets_open.Wallet.Handlers.{
  wallet_reply, withdraw_status, withdraw_given, handle_address, handle_provision, handle_faucet,
  handle_withdraw,
}
use tchebets_open.Wallet.Keeps.{Keeps, Keeps-pure, Keeps-bind, Keeps-ignore}
use tchebets_open.Wallet.Quiet.{Quiet, called, provision-Quiet, faucet-Quiet}
use tchebets_open.Wallet.History.{
  Event, get_address, provision, faucet, withdraw, poll_pass, step, run,
}

-- The amount of a request is not below 0 and an `int64`.
abbrev pub Debits : Event → Type 0
Debits (withdraw wid id dest amount) = (n : ℕ) × (amount ≡ pos n) × (n < int64_limit)
Debits _ = Unit

abbrev pub AllDebits : List Event → Type 0
AllDebits [] = Unit
AllDebits (e ∷ es) = Debits e × AllDebits es

module _ (chain : Chain) (cfg : Config) (usdc_mint : String) where
  pub record Steady (P : World → Type 0) : Type 0 where
    pub quiet : Quiet chain cfg P
    pub list : Keeps P list_addresses
    pub ingest : (id : ℕ) (d : DetectedDeposit) → Keeps P (ingest_deposit chain cfg id d)
    pub request :
        (wid id : ℕ) (dest : String) (n : ℕ)
        → n < int64_limit
        → Keeps P (request_withdrawal chain cfg wid id dest (pos n))

  module _ {P : World → Type 0} (s : Steady P) where
    ingest_all-Steady : (id : ℕ) (ds : List DetectedDeposit) → Keeps P (ingest_all chain cfg id ds)
    unfolding ingest_all
    ingest_all-Steady id [] = Keeps-pure tt
    ingest_all-Steady id (d ∷ ds) = Keeps-bind _ _ (s.ingest id d) λ _. ingest_all-Steady id ds

    advance-Steady :
        (base cursor new : String) (r : Result WalletError (Unit {0}))
        → Keeps P (advance_cursor chain cfg base cursor new r)
    advance-Steady base cursor new (err e) = Keeps-pure tt
    advance-Steady base cursor new (ok _) = by_test (not (str_eq new "") && not (str_eq new cursor))
      where
        by_test : (b : Bool) → Keeps P (if b then call (set_scan_cursor base new) else pure tt)
        by_test true = called chain cfg s.quiet (s.quiet.advance base new)
        by_test false = Keeps-pure tt

    found-Steady :
        (id : ℕ) (base cursor : String) (r : Result WalletError (List DetectedDeposit × String))
        → Keeps P (
            ◌>>=◌
              (λ w. (r, w))
              (λ (found, new).
                attempt (ingest_all chain cfg id found)
                >>= advance_cursor chain cfg base cursor new))
    found-Steady id base cursor (err e) = record { at = λ w h. h }
    found-Steady id base cursor (ok (found, new)) = record {
      at = λ w h. (advance-Steady base cursor new _).at _ ((ingest_all-Steady id found).at w h);
    }

    scan_address-Steady :
        (id : ℕ) (base : String)
        (scan : String → Result WalletError (List DetectedDeposit × String))
        → Keeps P (scan_address chain cfg id base scan)
    unfolding scan_address
    scan_address-Steady id base scan =
        Keeps-bind _ _ (called chain cfg s.quiet (s.quiet.cursor base))
          λ cursor. found-Steady id base cursor (scan cursor)

    scan_each-Steady :
        (rpc : Rpc) (as' : List WalletAddress) → Keeps P (scan_each chain cfg rpc usdc_mint as')
    unfolding scan_each
    scan_each-Steady rpc [] = Keeps-pure tt
    scan_each-Steady rpc (a ∷ as') =
        Keeps-bind _ _ (Keeps-ignore _ (scan_address-Steady a.account_id a.address _))
          λ _. scan_each-Steady rpc as'

    scan_once-Steady : (rpc : Rpc) → Keeps P (scan_once chain cfg rpc usdc_mint)
    unfolding scan_once
    scan_once-Steady rpc = Keeps-bind _ _ (called chain cfg s.quiet s.list) (scan_each-Steady rpc)

    replied :
        {A : Type 0} (status : WalletError → ℕ) (out : Result WalletError A × World)
        → P out.1
        → P (wallet_reply status out).1
    replied status (ok a, w) h = h
    replied status (err e, w) h = h

    withdraw-Steady :
        (wid id : ℕ) (dest : String) (n : ℕ) (w : World)
        → n < int64_limit
        → P w
        → P (handle_withdraw chain cfg wid id dest (pos n) w).1
    unfolding handle_withdraw
    withdraw-Steady wid id dest n w small h = by_test (withdraw_given dest (pos n))
      where
        by_test :
            (b : Bool)
            → P
                (if b
                  then wallet_reply withdraw_status
                      (request_withdrawal chain cfg wid id dest (pos n) w)
                  else (400, w)).1
        by_test true = replied _ _ ((s.request wid id dest n small).at w h)
        by_test false = h

    step-Steady : (e : Event) (w : World) → Debits e → P w → P (step chain cfg usdc_mint e w)
    unfolding step handle_address handle_provision handle_faucet
    step-Steady (get_address id) w d h =
        replied _ _ ((called chain cfg s.quiet (s.quiet.address id)).at w h)
    step-Steady (provision id) w d h = replied _ _ ((provision-Quiet chain cfg s.quiet id).at w h)
    step-Steady (faucet id) w d h = replied _ _ ((faucet-Quiet chain cfg s.quiet id).at w h)
    step-Steady (withdraw wid id dest amount) w (n, same, small) h =
        rw same (withdraw-Steady wid id dest n w small h)
    step-Steady (poll_pass rpc) w d h = (scan_once-Steady rpc).at w h

    pub run-Steady :
        (es : List Event) (w : World) → AllDebits es → P w → P (run chain cfg usdc_mint es w)
    unfolding run
    run-Steady [] w d h = h
    run-Steady (e ∷ es) w (d, ds) h = run-Steady es _ ds (step-Steady e w d h)

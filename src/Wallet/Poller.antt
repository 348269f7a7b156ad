-- ===== src/Wallet/Poller.antt =====
-- wallet-backend/poller/poller.go: a pass over every address.
use tchebets_open.Prelude.{String, List, [], ◌∷◌, ok}
use tchebets_open.Bet.Details.{order_by}
use tchebets_open.Wallet.Models.{WalletAddress, Chain, Config}
use tchebets_open.Wallet.Effects.{W, pure, ◌>>=◌, ◌>>◌, ignore, call}
use tchebets_open.Wallet.Service.{scan_address}
use tchebets_open.Wallet.Scanner.{Rpc, scan_deposits}

-- `ListAddresses`.
unfoldable pub list_addresses : W (List WalletAddress)
list_addresses w = (ok (order_by (λ a. a.derivation_index) w.addresses), w)

module _ (chain : Chain) (cfg : Config) (rpc : Rpc) (usdc_mint : String) where
  -- The loop of `scanOnce`: the error of one address does not stop the others.
  unfoldable pub scan_each : List WalletAddress → W (Unit {0})
  scan_each [] = pure tt
  scan_each (a ∷ as') = do
    ignore (
        scan_address chain cfg a.account_id a.address
          (scan_deposits rpc usdc_mint a.address a.usdc_ata))
    scan_each as'

  -- `scanOnce`.
  unfoldable pub scan_once : W (Unit {0})
  unfolding scan_each
  scan_once = do addresses ← call list_addresses; scan_each addresses

-- ===== src/Wallet/History.antt =====
-- wallet-backend as a whole: requests and passes of the poller, one after the other, where any call may
-- be lost.
use tchebets_open.Prelude.{ℕ, String, List, [], ◌∷◌, ℤ}
use tchebets_open.Wallet.Models.{World, Chain, Config}
use tchebets_open.Wallet.Handlers.{handle_address, handle_provision, handle_faucet, handle_withdraw}
use tchebets_open.Wallet.Scanner.{Rpc}
use tchebets_open.Wallet.Poller.{scan_once}

pub data Event : Type 0 where
  get_address provision faucet : (account_id : ℕ) → Event
  withdraw : (withdrawal_id account_id : ℕ) → String → ℤ → Event
  poll_pass : Rpc → Event

module _ (chain : Chain) (cfg : Config) (usdc_mint : String) where
  -- The state after a request, or after a pass over what the RPC answers.
  unfoldable pub step : Event → World → World
  step (get_address id) w = (handle_address id w).1
  step (provision id) w = (handle_provision chain cfg id w).1
  step (faucet id) w = (handle_faucet chain cfg id w).1
  step (withdraw wid id dest amount) w = (handle_withdraw chain cfg wid id dest amount w).1
  step (poll_pass rpc) w = (scan_once chain cfg rpc usdc_mint w).1

  unfoldable pub run : List Event → World → World
  run [] w = w
  run (e ∷ es) w = run es (step e w)

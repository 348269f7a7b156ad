-- ===== src/Wallet/Samples.antt =====
-- Histories of wallet-backend and transactions on a concrete cluster.
use tchebets_open.Prelude.{
  ◌+◌, ◌≤◌, ◌≡◌, refl, true, some, List, [], ◌∷◌, ok, err, arith, pos, negsuc, ◌^◌, ◌-◌,
}
use tchebets_open.Int64.{wrap64}
use tchebets_open.Bet.Wealth.{wealth}
use tchebets_open.Wallet.Models.{fine, unanswered, World, WalletAddress, unavailable}
use tchebets_open.Wallet.Convert.{reais_to_micro_usdc, mul_div_round}
use tchebets_open.Wallet.Service.{faucet_test_usdc}
use tchebets_open.Wallet.Worth.{worth}
use tchebets_open.Wallet.History.{Event, provision, faucet, withdraw, poll_pass, run}
use tchebets_open.Wallet.Credited.{SignaturesUnique, run_credits}
use tchebets_open.Wallet.Faucet.{grant, faucet_twice}
use tchebets_open.Wallet.Confirm.{settled}
use tchebets_open.Wallet.Solana.{
  transfer_checked, taken, present, Cluster, transfer_tokens, usdc_decimals,
}
use tchebets_open.Wallet.Jupiter.{Jupiter}
use tchebets_open.Wallet.Broadcast.{Sends, transfer_tokens-Sends}
use tchebets_open.Wallet.Tests.{chain, cfg, world, rpc}

abbrev events : List Event
events = provision 4 ∷ faucet 4 ∷ poll_pass rpc ∷ withdraw 9 4 "dest" (pos 20) ∷ poll_pass rpc ∷ []

run_credits_example :
    SignaturesUnique (run chain cfg "mint" events world).deposits
    × (wealth (run chain cfg "mint" events world).ledger + worth chain cfg []
        ≤ wealth world.ledger + worth chain cfg (run chain cfg "mint" events world).deposits)
run_credits_example =
    run_credits chain cfg "mint" events world (tt, (tt, (tt, ((20, refl, ground arith), (tt, tt)))))
      tt

abbrev lossy : World
lossy = record world { answers = fine ∷ fine ∷ unanswered ∷ [] }

abbrev row : WalletAddress
row = record { account_id = 4; derivation_index = 1; address = "addr"; usdc_ata = "ata" }

faucet_twice_example :
    let (r, w') = faucet_test_usdc chain cfg 4 lossy in
    let (s, w'') = faucet_test_usdc chain cfg 4 w' in
    (r ≡ err unavailable)
    × (w'.transfers ≡ grant chain cfg row ∷ [])
    × (s ≡ ok "sig")
    × (w''.transfers ≡ grant chain cfg row ∷ grant chain cfg row ∷ [])
faucet_twice_example = faucet_twice chain cfg 4 row lossy refl refl refl

-- An amount below 0 wraps around to one within the limits.
negative_wraps : reais_to_micro_usdc (negsuc (2 ^ 58 - 6)) 5000000 ≡ pos 1000000
unfolding reais_to_micro_usdc mul_div_round wrap64
negative_wraps = refl

abbrev cluster : Cluster
cluster = record {
  usdc_mint = "mint";
  is_key = λ s. true;
  find_ata = λ owner mint. some "ata";
  account_info = λ s. present;
  sol_balance = λ s. some 7;
  token_balance = λ s. some "5";
  parse_uint = λ s. some 5;
  builds = λ ix. true;
  send = λ ix. taken "sig";
  poll = λ sig i. settled;
  done = λ i. true;
  polls = 1;
}

abbrev jupiter : Jupiter
jupiter = record {
  get_quote = λ a b n bps. some (record { status = 200; body = "quote" });
  post_swap = λ q user. some (record { status = 200; body = "swap" });
  threshold_of = λ s. some "5";
  transaction_of = λ s. some "tx";
  decodes = λ s. true;
}

transfer_tokens-Sends_example :
    let (r, log') = transfer_tokens cluster "treasury" "dest" 20 [] in
    Sends cluster
      (λ sig. sig)
      (transfer_checked 20 usdc_decimals "ata" "mint" "dest" "treasury")
      []
      r
      log'
transfer_tokens-Sends_example = transfer_tokens-Sends cluster "treasury" "dest" "ata" 20 [] refl

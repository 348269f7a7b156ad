-- ===== src/Wallet/Faucet.antt =====
-- wallet-backend/service/service.go: FaucetTestUSDC, the one grant of an account.
use tchebets_open.Prelude.{ℕ, ◌≡◌, refl, false, some, List, [], ◌∷◌, ok, err, arith, length}
use tchebets_open.Wallet.Models.{
  fine, unanswered, World, WalletAddress, Transfer, unavailable, faucet_already_claimed, Chain,
  Config,
}
use tchebets_open.Wallet.Effects.{call}
use tchebets_open.Wallet.Store.{
  find_address, by_account, get_address_by_account, has_claim, drop_claim, claim_faucet,
  release_faucet,
}
use tchebets_open.Wallet.Service.{transfer_usdc, provision_account, faucet_test_usdc}

module _ (chain : Chain) (cfg : Config) where
  abbrev pub grant : WalletAddress → Transfer
  grant row = record { to_ata = row.usdc_ata; micro_usdc = cfg.faucet }

  -- With every call answered, the first request of a known account without a claim sends one grant to
  -- the token account of its row, and a second request is refused as claimed and sends nothing.
  pub faucet_once :
      (id : ℕ) (row : WalletAddress) (w : World)
      → w.answers ≡ []
      → find_address (by_account id) w.addresses ≡ some row
      → has_claim id w.faucet_claims ≡ false
      → let (r, w') = faucet_test_usdc chain cfg id w in
        let (s, w'') = faucet_test_usdc chain cfg id w' in
        (r ≡ ok (chain.signature_of (length w.transfers)))
        × (w'.transfers ≡ grant row ∷ w.transfers)
        × (s ≡ err faucet_already_claimed)
        × (w''.transfers ≡ w'.transfers)
  unfolding faucet_test_usdc provision_account call get_address_by_account claim_faucet
      transfer_usdc release_faucet
  faucet_once id row w quiet known new = (ground arith, ground arith, ground arith, ground arith)

  drop_claim-has : (id : ℕ) (cs : List ℕ) → has_claim id (drop_claim id cs) ≡ false
  drop_claim-has id [] = refl
  drop_claim-has id (c ∷ cs) = ground (arith, drop_claim-has id cs)

  -- If only the answer to the transfer is lost after it ran, the first request reports a failure and
  -- releases the claim, and a second request sends the grant again.
  pub faucet_twice :
      (id : ℕ) (row : WalletAddress) (w : World)
      → w.answers ≡ fine ∷ fine ∷ unanswered ∷ []
      → find_address (by_account id) w.addresses ≡ some row
      → has_claim id w.faucet_claims ≡ false
      → let (r, w') = faucet_test_usdc chain cfg id w in
        let (s, w'') = faucet_test_usdc chain cfg id w' in
        (r ≡ err unavailable)
        × (w'.transfers ≡ grant row ∷ w.transfers)
        × (s ≡ ok (chain.signature_of (length w'.transfers)))
        × (w''.transfers ≡ grant row ∷ grant row ∷ w.transfers)
  unfolding faucet_test_usdc provision_account call get_address_by_account claim_faucet
      transfer_usdc release_faucet
  faucet_twice id row w answers known new =
      let w' : World = (faucet_test_usdc chain cfg id w).1 in
      let sent : w'.transfers ≡ grant row ∷ w.transfers = ground arith in
      let free : has_claim id w'.faucet_claims ≡ false =
        ground (arith, drop_claim-has id w.faucet_claims) in
      let quiet : w'.answers ≡ [] = ground arith in
      let same : w'.addresses ≡ w.addresses = ground arith in
      let (r, again, s, t) = faucet_once id row w' quiet (rw same known) free in
      (ground arith, sent, r, rw again (rw sent refl))

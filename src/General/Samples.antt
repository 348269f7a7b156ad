-- ===== src/General/Samples.antt =====
-- Pages of general-backend on concrete tables.
use tchebets_open.Prelude.{ok, ℕ, String, pos, ◌⊎◌, ◌≡◌, refl, some, [], ◌∷◌, false}
use tchebets_open.Bet.Sample.{listed_db, bet_of_1}
use tchebets_open.Bet.Models.{status_open}
use tchebets_open.Bet.Details.{
  get_user, list_user_bets, list_active_listings_for_seller, get_market_details, collect_pools,
  init_pools, live_odds_of,
}
use tchebets_open.General.Site.{Site, Account, call, client_get_user}
use tchebets_open.General.Reads.{client_user_bets, client_user_listings, client_market_details}
use tchebets_open.General.Profile.{profile, bet_history, fetch_market}
use tchebets_open.General.Remembered.{Shows, profile-Shows}
use tchebets_open.General.Panel.{enrich_crypto, deposit_error}
use tchebets_open.General.Honest.{
  SameTables, ShowsAddress, AllDeposits, AllWithdrawals, enrich_crypto-honest,
}
use tchebets_open.Wallet.Models.{World, Deposit, Withdrawal, usdc, credited, confirmed}
use tchebets_open.Wallet.Tests.{world}
use tchebets_open.General.Market.{mask_email, relative_time_pt}

-- Two accounts with a deposit and a withdrawal each; every call is answered.
abbrev deposit_row : ℕ → String → Deposit
deposit_row id sig = record {
  signature = sig;
  account_id = id;
  asset = usdc;
  raw_amount = 1000000;
  credited_usdc = 1000000;
  credited_reais = 5;
  status = credited;
}

abbrev withdrawal_row : ℕ → Withdrawal
withdrawal_row id = record {
  account_id = id;
  dest_address = "dest";
  asset = usdc;
  amount_reais = pos 5;
  amount_usdc = pos 1000000;
  status = confirmed;
  signature = some "sent";
}

abbrev wallets : World
wallets = record world {
  deposits = deposit_row 4 "one" ∷ deposit_row 6 "two" ∷ [];
  withdrawals = (8, withdrawal_row 6) ∷ (9, withdrawal_row 4) ∷ [];
  answers = [];
}

enrich_crypto-honest_example :
    let (panel, w') = enrich_crypto (λ i. "id") 4 wallets in
    SameTables wallets w'
    × ((⊥ × (panel.address ≡ deposit_error)) ⊎ ShowsAddress 4 wallets.addresses panel.address)
    × ((⊥ × (panel.deposits ≡ [])) ⊎ AllDeposits 4 wallets.deposits panel.deposits)
    × ((⊥ × (panel.withdrawals ≡ []))
        ⊎ AllWithdrawals (λ i. "id") 4 wallets.withdrawals panel.withdrawals)
enrich_crypto-honest_example = enrich_crypto-honest (λ i. "id") 4 wallets

abbrev ana : Account
ana = record { email = "ana@x"; password_hash = "pw"; is_admin = false; created_at = 0 }

-- User 1 has a bet for sale, beside the bets of the house; every call is answered.
abbrev site : Site
site = record { accounts = (1, ana) ∷ []; bets = listed_db; answers = [] }

profile-Shows_example : Shows ⊥ ana 1 listed_db (profile ana 1 site).0
profile-Shows_example = profile-Shows ana 1 site

-- What the page shows of it.
profile_of_ana :
    (profile ana 1 site).0
    ≡ ok (record {
      email = "ana@x";
      balance = 60;
      bets =
          record {
            bet_id = 200;
            bet = bet_of_1;
            market = some ("rain?", status_open);
            listing = some (300, 30);
          }
          ∷ [];
    })
unfolding profile bet_history fetch_market client_get_user client_user_bets client_user_listings
    client_market_details call get_user list_user_bets list_active_listings_for_seller
    get_market_details collect_pools init_pools live_odds_of
profile_of_ana = refl

mask_maria : mask_email "maria@example.com" ≡ some "m***ia"
unfolding mask_email
mask_maria = refl

mask_short : mask_email "ana@x" ≡ some "a***"
unfolding mask_email
mask_short = refl

two_hours : relative_time_pt (λ n. "2") 7200000000000 ≡ "há 2h"
unfolding relative_time_pt
two_hours = refl

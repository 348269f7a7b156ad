-- ===== src/General/Tests.antt =====
-- Requests to general-backend on concrete tables.
use Prim.Native.String.{String}
use mathlib.Core.Path.{subst}
use tchebets_open.Prelude.{
  ◌*◌, ◌<◌, ℕ, ◌≡◌, refl, ◌⊎◌, some, none, List, [], ◌∷◌, map, ok, err, arith, pos, str_eq,
  if◌then◌else◌, length, ◌≤◌, ◌+◌, false, true,
}
use tchebets_open.Bet.Sample.{empty_db, open_db}
use tchebets_open.Bet.Wealth.{wealth}
use tchebets_open.Bet.History.{Request, run, create, Fits}
use tchebets_open.Bet.Handlers.{handle}
use tchebets_open.Wallet.Models.{Answer, fine, dropped}
use tchebets_open.General.Text.{all_in, contains_char, trim, trim_left, trim_right}
use tchebets_open.General.Sanitize.{
  positive_int64, sanitize_outcomes, clean_outcomes, non_empty_string, solana_address,
  max_sanity_int, sanitize_uuid, invalid_address_length,
}
use tchebets_open.General.Sanitized.{AllClean, Distinct, sanitize_outcomes-clean}
use tchebets_open.General.Site.{Site, Env, Account, relay}
use tchebets_open.General.Api.{
  ApiRequest, post_resolve, post_bet, post_sync, fetch_markets, run_api, api_create,
}
use tchebets_open.General.Refines.{AllTame, run_api_refines}
use tchebets_open.Bet.Valid.{IsValid}
use tchebets_open.Bet.Sample.{locked_db, locked-IsValid, pools_of_60}
use tchebets_open.General.Sound.{sync_count, run_api_conserves}
use tchebets_open.General.Created.{api_create-bounds}
use tchebets_open.General.Pages.{Session, page, redirect, deposit, register}
use tchebets_open.General.Routes.{
  PageRequest, handle_page, run_pages, as_user, as_admin, ask_place, ask_promote, ask_register,
}
use tchebets_open.General.Acts.{Did, MayAsk, MayChange}
use tchebets_open.General.Visits.{handle_page-Did}
use tchebets_open.General.Admins.{EmailsUnique, run_pages-EmailsUnique}
use tchebets_open.General.Lost.{register_stuck}
use tchebets_open.General.Crypto.{withdraw_page, client_withdraw, do_status}
use tchebets_open.General.Payouts.{Paid, withdraw_page-honest}
use tchebets_open.Bet.Wealth.{pools_in}
use tchebets_open.Int64.{int64_limit, wrap64, add64}
use tchebets_open.Bet.Market.{adjust_balance, adjust_tx, write_balance}
use tchebets_open.Wallet.Models.{World, Chain, Config}
use tchebets_open.Wallet.Convert.{reais_to_micro_usdc, mul_div_round}
use tchebets_open.Wallet.Effects.{call}
use tchebets_open.Wallet.Store.{insert_withdrawal, set_withdrawal_status, set_withdrawal_sent}
use tchebets_open.Wallet.Service.{
  request_withdrawal, settle_withdrawal, adjust_ledger, ensure_usdc_ata, transfer_usdc, confirm_tx,
}
use tchebets_open.Wallet.Handlers.{handle_withdraw}
use tchebets_open.General.Deposited.{deposit-adds}

abbrev env : Env
env = record {
  parse_uuid = λ s. if str_eq s "u1" then some 1 else if str_eq s "m7" then some 7 else none;
  to_lower = λ s. s;
  is_email = λ s. true;
  hash_password = λ p. some p;
  check_password = λ h p. str_eq h p;
  initial_admin_email = "";
}

abbrev ana : Account
ana = record { email = "ana@x"; password_hash = "pw"; is_admin = false; created_at = 0 }

abbrev site : Site
site = record { accounts = (1, ana) ∷ []; bets = open_db; answers = [] }

-- White space goes on both sides and nowhere else.
trim_both : trim " a b " ≡ "a b"
unfolding trim trim_left trim_right
trim_both = refl

address_short : solana_address "abc" ≡ err invalid_address_length
unfolding solana_address trim trim_left trim_right
address_short = refl

sanitize_outcomes-clean_example :
    (2 ≤ 2)
    × (2 ≤ 10)
    × AllClean 100 ("SIM" ∷ "NAO" ∷ [])
    × Distinct ("SIM" ∷ "NAO" ∷ [])
    × (sanitize_outcomes (λ s. s) ("SIM" ∷ "NAO" ∷ []) 2 10 100 ≡ ok ("SIM" ∷ "NAO" ∷ []))
unfolding sanitize_outcomes clean_outcomes non_empty_string trim trim_left trim_right
sanitize_outcomes-clean_example =
    sanitize_outcomes-clean (λ s. s) (" SIM" ∷ "NAO " ∷ []) ("SIM" ∷ "NAO" ∷ []) 2 10 100 refl

run_api_refines_example :
    (rs : List (ℕ × Request)) × AllTame rs
    × (length rs ≤ 3)
    × ((run_api env
          ((5, post_sync "u1" (pos 3))
            ∷ (6, post_bet 9 "m7" "u1" " SIM" (pos 2))
            ∷ (7, fetch_markets)
            ∷ [])
          site).bets
        ≡ run rs open_db)
    × ((run_api env
          ((5, post_sync "u1" (pos 3))
            ∷ (6, post_bet 9 "m7" "u1" " SIM" (pos 2))
            ∷ (7, fetch_markets)
            ∷ [])
          site).accounts
        ≡ site.accounts)
run_api_refines_example =
    run_api_refines env
      ((5, post_sync "u1" (pos 3))
        ∷ (6, post_bet 9 "m7" "u1" " SIM" (pos 2))
        ∷ (7, fetch_markets)
        ∷ [])
      site

abbrev locked_site : Site
locked_site = record site { bets = locked_db }

abbrev visits : List (ℕ × ApiRequest)
visits =
    (5, post_resolve "m7" "yes")
    ∷ (6, post_sync "u1" (pos 3))
    ∷ (7, post_bet 9 "m7" "u1" " SIM" (pos 2))
    ∷ []

path_of_7 : (m : ℕ) → sanitize_uuid env.parse_uuid "m7" ≡ ok m → 7 ≡ m
unfolding sanitize_uuid trim trim_left trim_right
path_of_7 m e = ground (arith, e)

small_7 :
    (m : ℕ)
    → sanitize_uuid env.parse_uuid "m7" ≡ ok m
    → pools_in m locked_db.pools * pools_in m locked_db.pools < int64_limit
small_7 m e =
    subst (λ k. pools_in k locked_db.pools * pools_in k locked_db.pools < int64_limit)
      (path_of_7 m e) (ground (arith, pools_of_60))

run_api_conserves_example :
    IsValid (run_api env visits locked_site).bets
    × (wealth (run_api env visits locked_site).bets
        ≤ wealth locked_db + max_sanity_int * sync_count visits)
run_api_conserves_example =
    run_api_conserves env visits locked_site locked-IsValid (small_7, (tt, (tt, tt)))

api_create-bounds_example :
    (api_create env 5 7 (λ i. i) "Chove?" ("SIM" ∷ "NAO" ∷ []) (pos 10) site ≡ (400, site))
    ⊎ ((t : String) × (ts : List String) × (k : ℕ) × (api_create env 5 7
            (λ i. i)
            "Chove?"
            ("SIM" ∷ "NAO" ∷ [])
            (pos 10)
            site
          ≡ relay (handle 5 (create 7 (λ i. i) t ts (pos k))) site)
        × (pos 10 ≡ pos k)
        × Distinct (map (λ s. s) ts)
        × (length ts ≤ 10)
        × Fits (create 7 (λ i. i) t ts (pos k)) open_db)
api_create-bounds_example =
    api_create-bounds env 5 7 (λ i. i) "Chove?" ("SIM" ∷ "NAO" ∷ []) (pos 10) site

handle_page-Did_example :
    Did 5
      (MayAsk (as_user (ask_place 9 "m7" "SIM" (pos 2))) (some 1) site.accounts)
      (MayChange env (as_user (ask_place 9 "m7" "SIM" (pos 2))) (some 1) site.accounts)
      site
      (handle_page env 5 (as_user (ask_place 9 "m7" "SIM" (pos 2))) (some 1) site)
handle_page-Did_example =
    handle_page-Did env 5 (as_user (ask_place 9 "m7" "SIM" (pos 2))) (some 1) site

run_pages-EmailsUnique_example :
    EmailsUnique (run_pages env ((5, ask_register 2 "bia@x" "pw", none) ∷ []) site).accounts
run_pages-EmailsUnique_example =
    run_pages-EmailsUnique env ((5, ask_register 2 "bia@x" "pw", none) ∷ []) site (refl, tt)

abbrev shaky : Site
shaky = record { accounts = (1, ana) ∷ []; bets = empty_db; answers = fine ∷ dropped ∷ [] }

-- Another visitor registers, and the first one is promoted in vain, before the second attempt.
abbrev between : List (ℕ × PageRequest × Session)
between = (6, ask_register 4 "eva@x" "pw", none) ∷ (7, as_admin (ask_promote "bia@x"), some 1) ∷ []

register_stuck_example :
    (stuck : Site) × (register env 5 2 "bia@x" "pw" none shaky ≡ (page 400, none, stuck))
    × (stuck.bets ≡ empty_db)
    × ((as' : List Answer) × (register env 8 3 "bia@x" "pw" none (run_pages env between stuck)
          ≡ (page 400, none, record (run_pages env between stuck) { answers = as' })))
unfolding non_empty_string trim trim_left trim_right
register_stuck_example =
    register_stuck env 5 2 8 3 "bia@x" "pw" "pw" "bia@x" "pw" none none shaky [] between refl refl
      refl refl refl refl

abbrev sound : Site
sound = record { accounts = (1, ana) ∷ []; bets = empty_db; answers = fine ∷ fine ∷ [] }

deposit-adds_example :
    ((deposit 5 1 (pos 20) (some 1) sound).0 ≡ redirect "/profile?flash=Dep%C3%B3sito+realizado")
    × (wealth (deposit 5 1 (pos 20) (some 1) sound).2.bets ≡ wealth empty_db + 20)
deposit-adds_example =
    deposit-adds 5 1 20 (record { balance = 100; created_at = 0 }) (some 1) sound [] refl refl
      (ground arith) (ground arith) (ground arith)

abbrev chain : Chain
chain = record {
  address_of = λ i. "addr";
  ata_of = λ o. "ata";
  signature_of = λ i. "sig";
  swap_out = λ n. n;
}

-- Five reais a dollar.
abbrev cfg : Config
cfg = record {
  limit_min = 1000000;
  limit_max = 100000000;
  manual_review_over = 50000000;
  rate_micros = 5000000;
  faucet = 10000000;
}

abbrev world : World
world = record {
  addresses =
      record { account_id = 1; derivation_index = 1; address = "addr"; usdc_ata = "ata" } ∷ [];
  next_index = 2;
  faucet_claims = [];
  deposits = [];
  withdrawals = [];
  cursors = [];
  ledger = empty_db;
  transfers = [];
  answers = [];
}

abbrev dest : String
dest = "4Nd1mYwJ6s9VbQ2cXkR7uTzEaHfGpLqW"

-- A withdrawal of 20 reais is sent, and the page says so.
sent : (withdraw_page chain cfg 9 1 dest (pos 20) world).0 ≡ "Saque enviado"
unfolding withdraw_page solana_address trim trim_left trim_right all_in contains_char positive_int64
    client_withdraw do_status handle_withdraw request_withdrawal reais_to_micro_usdc mul_div_round
    wrap64 call adjust_ledger adjust_balance adjust_tx add64 write_balance insert_withdrawal
    settle_withdrawal set_withdrawal_status ensure_usdc_ata transfer_usdc confirm_tx
    set_withdrawal_sent
sent = refl

withdraw_page-honest_example :
    (((withdraw_page chain cfg 9 1 dest (pos 20) world).1.transfers ≡ [])
      × (str_eq (withdraw_page chain cfg 9 1 dest (pos 20) world).0 "Saque enviado" ≡ false))
    ⊎ ((d : String) × (n : ℕ) × (solana_address dest ≡ ok d)
        × (pos 20 ≡ pos n)
        × (n ≤ 1000000000)
        × Paid chain cfg 1 d (pos n) world (withdraw_page chain cfg 9 1 dest (pos 20) world).1)
withdraw_page-honest_example = withdraw_page-honest chain cfg 9 1 dest (pos 20) world

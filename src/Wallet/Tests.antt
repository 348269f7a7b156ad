-- ===== src/Wallet/Tests.antt =====
-- A deposit and a withdrawal on concrete tables of wallet-backend.
use tchebets_open.Prelude.{
  ◌==◌, if◌then◌else◌, ℕ, String, List, some, true, false, ◌||◌, ◌/◌, ◌≡◌, refl, ◌⊎◌, [], ◌∷◌, ok,
  err, arith, pos, negsuc, pos_part,
}
use tchebets_open.Int64.{add64, wrap64}
use tchebets_open.Bet.Models.{Db}
use tchebets_open.Bet.Market.{adjust_balance, adjust_tx, write_balance}
use tchebets_open.Wallet.Models.{
  fine, dropped, usdc, sol, DetectedDeposit, World, unavailable, Chain, Config,
}
use tchebets_open.Wallet.Convert.{
  micro_usdc_to_reais, reais_to_micro_usdc, mul_div_round, reais_round_trip,
}
use tchebets_open.Wallet.Effects.{call}
use tchebets_open.Wallet.Store.{insert_deposit_if_new, mark_deposit_credited}
use tchebets_open.Wallet.Service.{
  ingest_deposit, ingest_all, credit_deposit, resolve_credit_amount, adjust_ledger,
  settle_withdrawal, request_withdrawal,
}
use tchebets_open.Wallet.Confirm.{
  Poll, unknown, settled, Confirmation, confirm_signature, Verdict, confirm_signature-returns,
}
use tchebets_open.Wallet.Scanner.{
  Rpc, SignatureInfo, TxMeta, scan_deposits, gather, gather_one, deposits_of, deposits_in_tx,
  index_of, token_amount_at,
}
use tchebets_open.Wallet.Gathered.{listed}
use tchebets_open.Wallet.Scanned.{AllListed, OnceEach, scan_deposits-once}
use tchebets_open.Wallet.Deposits.{Untouched, ingest_once}
use tchebets_open.Wallet.Leads.{Accepted, Sent}
use tchebets_open.Wallet.Sending.{SentOnce}
use tchebets_open.Wallet.Withdrawals.{settle_unconfirmed, withdraw_once, withdraw_answered}

abbrev pub chain : Chain
chain = record {
  address_of = λ i. "addr";
  ata_of = λ o. "ata";
  signature_of = λ i. "sig";
  swap_out = λ n. n / 10;
}

-- Five reais a dollar.
abbrev pub cfg : Config
cfg = record {
  limit_min = 1000000;
  limit_max = 100000000;
  manual_review_over = 50000000;
  rate_micros = 5000000;
  faucet = 10000000;
}

abbrev ledger : Db
ledger = record {
  users = (4, record { balance = 100; created_at = 0 }) ∷ [];
  markets = [];
  pools = [];
  bets = [];
  listings = [];
}

abbrev pub world : World
world = record {
  addresses =
      record { account_id = 4; derivation_index = 1; address = "addr"; usdc_ata = "ata" } ∷ [];
  next_index = 2;
  faucet_claims = [];
  deposits = [];
  withdrawals = [];
  cursors = [];
  ledger = ledger;
  transfers = [];
  answers = [];
}

abbrev deposit : DetectedDeposit
deposit = record { signature = "tx1"; asset = usdc; raw_amount = 2000000 }

abbrev seen_world : World
seen_world = (ingest_deposit chain cfg 4 deposit world).1

reais_round_trip_example : micro_usdc_to_reais (reais_to_micro_usdc (pos 7) 5300000) 5300000 ≡ pos 7
reais_round_trip_example =
    reais_round_trip 7 5300000 (ground arith) (ground arith) (ground arith) (ground arith)

ingest_once_example :
    (seen_world.ledger ≡ world.ledger)
    ⊎ Untouched
        (ingest_all chain cfg 4 (deposit ∷ []) seen_world).1
        (ingest_deposit chain cfg 4 deposit (ingest_all chain cfg 4 (deposit ∷ []) seen_world).1).1
ingest_once_example = ingest_once chain cfg 4 4 4 deposit deposit (deposit ∷ []) world refl

-- The answer to the confirmation is lost.
abbrev unconfirmed : World
unconfirmed = record world { answers = fine ∷ fine ∷ fine ∷ fine ∷ dropped ∷ [] }

settle_unconfirmed_example :
    let (r, w') = settle_withdrawal chain cfg 9 4 "dest" (pos 20) 4000000 unconfirmed in
    (r ≡ err unavailable)
    × ((w'.ledger ≡ (adjust_balance 4 (pos 20) ledger).1)
        × (w'.transfers ≡ record { to_ata = "ata"; micro_usdc = 4000000 } ∷ []))
settle_unconfirmed_example =
    settle_unconfirmed chain cfg 9 4 "dest" (pos 20) 4000000 unconfirmed refl

priced : reais_to_micro_usdc (pos 20) 5000000 ≡ pos 4000000
unfolding reais_to_micro_usdc mul_div_round wrap64
priced = refl

withdraw_once_example :
    let (r, w') = request_withdrawal chain cfg 9 4 "dest" (pos 20) world in
    SentOnce chain cfg "dest" (pos_part (reais_to_micro_usdc (pos 20) 5000000)) [] r w'
    × (Sent [] w' ⊎ Accepted 4 (negsuc 19) world)
withdraw_once_example = withdraw_once chain cfg 9 4 "dest" (pos 20) world

debit : (adjust_balance 4 (negsuc 19) ledger).0 ≡ ok (pos 80)
unfolding adjust_balance adjust_tx add64
debit = refl

withdraw_answered_example :
    let (r, w') = request_withdrawal chain cfg 9 4 "dest" (pos 20) world in
    (r ≡ ok tt)
    × ((w'.ledger ≡ (adjust_balance 4 (negsuc 19) ledger).1)
        × (w'.transfers ≡ record { to_ata = "ata"; micro_usdc = 4000000 } ∷ []))
withdraw_answered_example =
    withdraw_answered chain cfg 9 4 "dest" 20 (pos 80) 4000000 world refl priced (ground arith)
      (ground arith) (ground arith) (ground arith) refl refl debit

-- One transaction pays 5 USDC and 7 lamports to the same account.
abbrev seen_tx : TxMeta
seen_tx = record {
  keys = "payer" ∷ "base" ∷ "ata" ∷ [];
  pre_tokens = record { account_index = 2; mint = "usdc"; amount = some 10 } ∷ [];
  post_tokens = record { account_index = 2; mint = "usdc"; amount = some 15 } ∷ [];
  pre_balances = 100 ∷ 20 ∷ 1 ∷ [];
  post_balances = 90 ∷ 27 ∷ 1 ∷ [];
}

abbrev newest : String
newest = "tx9"

abbrev infos : List SignatureInfo
infos =
    record { signature = "tx9"; slot = 9; failed_on_chain = false }
    ∷ record { signature = "tx8"; slot = 8; failed_on_chain = true }
    ∷ []

abbrev pub rpc : Rpc
rpc = record {
  is_key = λ s. true;
  signatures_since = λ a since. ok infos;
  get_transaction = λ sig. ok (some seen_tx);
}

abbrev first : DetectedDeposit
first = record { signature = "tx9"; asset = usdc; raw_amount = 5 }

abbrev both : List DetectedDeposit
both = first ∷ record { signature = "tx9"; asset = sol; raw_amount = 7 } ∷ []

scan_deposits-once_example :
    (xs : List SignatureInfo) × (ys : List SignatureInfo) × (rpc.signatures_since "base" "tx1"
      ≡ ok xs)
    × (rpc.signatures_since "ata" "tx1" ≡ ok ys)
    × AllListed xs ys both
    × OnceEach both
    × ((newest ≡ "tx1") ⊎ ((listed newest xs || listed newest ys) ≡ true))
unfolding scan_deposits gather gather_one deposits_of deposits_in_tx index_of token_amount_at
scan_deposits-once_example = scan_deposits-once rpc "usdc" "base" "ata" "tx1" "tx9" both refl

-- Their rows have one signature, so that only the first is credited.
second_dropped :
    (ingest_all chain cfg 4 both world).1.deposits
    ≡ (ingest_all chain cfg 4 (first ∷ []) world).1.deposits
unfolding ingest_deposit call insert_deposit_if_new credit_deposit resolve_credit_amount
    adjust_ledger mark_deposit_credited micro_usdc_to_reais mul_div_round wrap64 adjust_balance
    adjust_tx add64 write_balance ingest_all
second_dropped = refl

-- The context is done after the third poll, which finds the transaction confirmed.
abbrev polls : ℕ → Poll
polls i = if i == 2 then settled else unknown

confirm_signature-returns_example :
    (r : Confirmation) × (confirm_signature polls (λ i. i == 2) 9 0 ≡ some r)
    × Verdict polls (λ i. i == 2) 0 2 r
confirm_signature-returns_example =
    confirm_signature-returns polls (λ i. i == 2) 2 9 0 refl (ground arith)

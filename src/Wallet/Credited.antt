-- ===== src/Wallet/Credited.antt =====
-- wallet-backend as a whole: what its deposits bring into the ledger of bet-backend.
use tchebets_open.Prelude.{
  ℕ, pos, ◌-ℤ◌, ◌+◌, ◌≤◌, ◌≡◌, ◌∙◌, refl, String, ◌⊎◌, inl, inr, false, List, [], ◌∷◌, arith, ℤ,
  Option-cases, Bool-cases, str_eq, ltb, ◌&&◌,
}
use tchebets_open.Int64.{int64_limit, to_column}
use tchebets_open.Bet.Statements.{is_some}
use tchebets_open.Bet.Wealth.{wealth}
use tchebets_open.Wallet.Models.{Deposit, DetectedDeposit, World, Chain, Config}
use tchebets_open.Wallet.Effects.{W}
use tchebets_open.Wallet.Store.{
  find_address, by_account, deposit_asset, has_deposit, update_deposit, insert_deposit_if_new,
  set_deposit_status, mark_deposit_credited, credited_as, get_address_by_account,
  set_withdrawal_status, set_withdrawal_sent, insert_withdrawal, claim_faucet, release_faucet,
  next_derivation_index, insert_address, get_scan_cursor, set_scan_cursor,
}
use tchebets_open.Wallet.Service.{adjust_ledger, transfer_usdc, ingest_deposit, request_withdrawal}
use tchebets_open.Wallet.Poller.{list_addresses}
use tchebets_open.Wallet.Keeps.{Keeps}
use tchebets_open.Wallet.Deposits.{has_deposit-update}
use tchebets_open.Wallet.Ingests.{ingest-Keeps}
use tchebets_open.Wallet.Quiet.{Quiet}
use tchebets_open.Wallet.Spends.{Keeps-Ends}
use tchebets_open.Wallet.Worth.{worth, Slack, Slack-Quiet}
use tchebets_open.Wallet.Minted.{ingest-Ends}
use tchebets_open.Wallet.Debited.{request_by, request-Slack}
use tchebets_open.Wallet.History.{Event, run}
use tchebets_open.Wallet.Steady.{AllDebits, Steady, run-Steady}

-- No two rows have one signature.
abbrev pub SignaturesUnique : List Deposit → Type 0
SignaturesUnique [] = Unit
SignaturesUnique (d ∷ ds) = (has_deposit d.signature ds ≡ false) × SignaturesUnique ds

update-SignaturesUnique :
    (q : String) (f : Deposit → Deposit) (ds : List Deposit)
    → ((d : Deposit) → (f d).signature ≡ d.signature)
    → SignaturesUnique ds
    → SignaturesUnique (update_deposit q f ds)
update-SignaturesUnique q f [] same u = tt
update-SignaturesUnique q f (d ∷ ds) same (new, u) =
    let rest = update-SignaturesUnique q f ds same u in
    let own : has_deposit d.signature (update_deposit q f ds) ≡ false =
      has_deposit-update d.signature q f ds same ∙ new in
    let changed : has_deposit (f d).signature (update_deposit q f ds) ≡ false = rw (same d) own in
    elim (Bool-cases (str_eq d.signature q)) [
      | inl here ↦ rw here (changed, rest)
      | inr there ↦ rw there (own, rest)
    ]

abbrev Unique : World → Type 0
Unique w = SignaturesUnique w.deposits

same-Unique :
    {A : Type 0} (m : W A) → ((w : World) → (m w).1.deposits ≡ w.deposits) → Keeps Unique m
same-Unique m same = record { at = λ w h. rw (same w) h }

marked-Unique : (q : String) (m r : ℤ) → Keeps Unique (mark_deposit_credited q m r)
unfolding mark_deposit_credited
marked-Unique q m r = elim (Option-cases (to_column m)) [
  | inl e ↦ same-Unique _ λ w. ground arith
  | inr (x, e) ↦ elim (Option-cases (to_column r)) [
    | inl f ↦ same-Unique _ λ w. ground arith
    | inr (y, f) ↦ record {
      at = λ w h.
          let same : (mark_deposit_credited q m r w).1.deposits
              ≡ update_deposit q (credited_as x y) w.deposits =
            ground (arith, e, f) in
          rw same (update-SignaturesUnique q (credited_as x y) w.deposits (λ d. refl) h);
    }
  ]
]

module _ (chain : Chain) (cfg : Config) where
  Unique-Quiet : Quiet chain cfg Unique
  unfolding set_deposit_status get_address_by_account set_withdrawal_status set_withdrawal_sent
      insert_withdrawal claim_faucet release_faucet transfer_usdc next_derivation_index
      insert_address get_scan_cursor set_scan_cursor
  Unique-Quiet = record {
    blind = λ w l h. h;
    status = λ q t. record {
      at = λ w h. update-SignaturesUnique q (λ d. record d { status = t }) w.deposits (λ d. refl) h;
    };
    marked = marked-Unique;
    address = λ id. same-Unique _ λ w. ground arith;
    withdrawal = λ id t. same-Unique _ λ w. refl;
    sent = λ id s. same-Unique _ λ w. refl;
    requested = λ id v. same-Unique _ λ w. ground arith;
    claim = λ id. same-Unique _ λ w. ground arith;
    release = λ id. same-Unique _ λ w. refl;
    transfer = λ to n. same-Unique _ λ w. refl;
    index = same-Unique _ λ w. refl;
    provision = λ a. same-Unique _ λ w. ground arith;
    cursor = λ a. same-Unique _ λ w. refl;
    advance = λ a s. same-Unique _ λ w. refl;
  }

  adjust-Unique : (id : ℕ) (z : ℤ) → Keeps Unique (adjust_ledger id z)
  unfolding adjust_ledger
  adjust-Unique id z = same-Unique _ λ w. refl

  insert-rows :
      (d : Deposit) (w : World)
      → ((insert_deposit_if_new d w).1.deposits ≡ w.deposits)
        ⊎ ((has_deposit d.signature w.deposits ≡ false)
            × ((insert_deposit_if_new d w).1.deposits ≡ d ∷ w.deposits))
  unfolding insert_deposit_if_new
  insert-rows d w = elim (Bool-cases (has_deposit d.signature w.deposits)) [
    | inl old ↦ inl (ground (arith, old))
    | inr new ↦ elim (Bool-cases (is_some (find_address (by_account d.account_id) w.addresses))) [
      | inr unknown ↦ inl (ground (arith, new, unknown))
      | inl known ↦
          elim (Bool-cases
            (deposit_asset d.asset && ltb 0 d.raw_amount && ltb d.raw_amount int64_limit)) [
              | inl good ↦ inr (new, ground (arith, new, known, good))
              | inr bad ↦ inl (ground (arith, bad))
            ]
    ]
  ]

  insert-Unique : (d : Deposit) → Keeps Unique (insert_deposit_if_new d)
  insert-Unique d = record {
    at = λ w h. elim (insert-rows d w) [
      | inl same ↦ rw same h
      | inr (new, added) ↦ rw added (new, h)
    ];
  }

  ingest-Unique : (id : ℕ) (d : DetectedDeposit) → Keeps Unique (ingest_deposit chain cfg id d)
  ingest-Unique = ingest-Keeps chain cfg Unique-Quiet adjust-Unique insert-Unique

  request-Unique :
      (wid id : ℕ) (dest : String) (n : ℕ)
      → Keeps Unique (request_withdrawal chain cfg wid id dest (pos n))
  request-Unique wid id dest n =
      request_by chain cfg Unique-Quiet Unique-Quiet (λ w h. h) id n
        (Keeps-Ends (adjust-Unique id (pos n)))
        (λ w h. let kept = (adjust-Unique id (pos 0 -ℤ pos n)).at w h in (kept, λ b e. kept)) wid
        dest

module _ (chain : Chain) (cfg : Config) (usdc_mint : String) where
  list-Slack : (k c : ℕ) → Keeps (Slack chain cfg k c) list_addresses
  unfolding list_addresses
  list-Slack k c = record { at = λ w h. h }

  Slack-Steady : (k c : ℕ) → Steady chain cfg usdc_mint (Slack chain cfg k c)
  Slack-Steady k c = record {
    quiet = Slack-Quiet chain cfg k c;
    list = list-Slack k c;
    ingest = λ id d. record { at = (ingest-Ends chain cfg c k id d).at };
    request = λ wid id dest n small. request-Slack chain cfg k c id n small wid dest;
  }

  Unique-Steady : Steady chain cfg usdc_mint Unique
  unfolding list_addresses
  Unique-Steady = record {
    quiet = Unique-Quiet chain cfg;
    list = same-Unique _ λ w. refl;
    ingest = ingest-Unique chain cfg;
    request = λ wid id dest n small. request-Unique chain cfg wid id dest n;
  }

  -- From deposits with one signature each, over any requests to wallet-backend and passes of its poller,
  -- whatever the chain reports and whatever calls are lost, where the amounts of withdrawals are
  -- `int64`s not below 0: the signatures stay unique, and the money of the ledger grows by no more
  -- than the new rows of deposits are worth.
  pub run_credits :
      (es : List Event) (w : World)
      → AllDebits es
      → SignaturesUnique w.deposits
      → let w' : World = run chain cfg usdc_mint es w in
        SignaturesUnique w'.deposits
        × (wealth w'.ledger + worth chain cfg w.deposits
            ≤ wealth w.ledger + worth chain cfg w'.deposits)
  run_credits es w d u = (
    run-Steady chain cfg usdc_mint Unique-Steady es w d u,
    run-Steady chain cfg usdc_mint (Slack-Steady (worth chain cfg w.deposits) (wealth w.ledger)) es
        w d (omega arith),
  )

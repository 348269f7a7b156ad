-- ===== src/Wallet/Worth.antt =====
-- What deposits are worth in the unit of the ledger, and how much wallet-backend may still credit.
use tchebets_open.Prelude.{
  ℕ, ◌+◌, ◌≤◌, ◌<◌, ◌≡◌, refl, ap, String, inl, inr, List, [], ◌∷◌, arith, ℤ, pos, pos_part,
  neg_part, Option-cases,
}
use tchebets_open.Int64.{int64_limit, wrap64, to_column}
use tchebets_open.Bet.Wealth.{wealth}
use tchebets_open.Bet.Adjusts.{adjust_bounded}
use tchebets_open.Wallet.Models.{
  Asset, sol, usdc, usdt, Deposit, DepositStatus, World, WalletAddress, Chain, Config, Withdrawal,
  WithdrawalStatus, deposit_failed,
}
use tchebets_open.Wallet.Convert.{micro_usdc_to_reais}
use tchebets_open.Wallet.Store.{
  update_deposit, set_deposit_status, mark_deposit_failed, mark_deposit_credited, credited_as,
  get_address_by_account, set_withdrawal_status, set_withdrawal_sent, insert_withdrawal,
  claim_faucet, release_faucet, insert_address, next_derivation_index, get_scan_cursor,
  set_scan_cursor,
}
use tchebets_open.Wallet.Service.{adjust_ledger, transfer_usdc}
use tchebets_open.Wallet.Keeps.{Keeps, Blind}
use tchebets_open.Wallet.Quiet.{Quiet}
use tchebets_open.Wallet.Spends.{Ends}

module _ (chain : Chain) (cfg : Config) where
  -- The micro-USDC of a deposit: a swap returns what it yields.
  abbrev pub micro_in : Asset → ℕ → ℕ
  micro_in sol n = chain.swap_out n
  micro_in usdc n = n
  micro_in usdt n = 0

  unfoldable pub worth_of : Asset → ℕ → ℕ
  worth_of a n = pos_part (micro_usdc_to_reais (wrap64 (pos (micro_in a n))) cfg.rate_micros)

  -- The sum over the rows.
  unfoldable pub worth : List Deposit → ℕ
  worth [] = 0
  worth (d ∷ ds) = worth_of d.asset d.raw_amount + worth ds

  worth-update :
      (s : String) (f : Deposit → Deposit) (ds : List Deposit)
      → ((d : Deposit) → (f d).asset ≡ d.asset)
      → ((d : Deposit) → (f d).raw_amount ≡ d.raw_amount)
      → worth (update_deposit s f ds) ≡ worth ds
  unfolding worth
  worth-update s f [] a r = refl
  worth-update s f (d ∷ ds) a r = ground (arith, a d, r d, worth-update s f ds a r)

  -- The money of the ledger, with `k` more, is covered by `c` and the deposits.
  abbrev pub Slack : (k c : ℕ) → World → Type 0
  Slack k c w = wealth w.ledger + k ≤ c + worth w.deposits

  module _ (k c : ℕ) where
    pub Slack-blind : Blind (Slack k c)
    Slack-blind w l h = h

    Slack-set_status : (q : String) (t : DepositStatus) → Keeps (Slack k c) (set_deposit_status q t)
    unfolding set_deposit_status
    Slack-set_status q t = record {
      at = λ w h.
          omega (
            arith,
            worth-update q (λ d. record d { status = t }) w.deposits (λ d. refl) (λ d. refl),
          );
    }

    Slack-mark_failed : (q : String) → Keeps (Slack k c) (mark_deposit_failed q)
    unfolding mark_deposit_failed
    Slack-mark_failed q = Slack-set_status q deposit_failed

    Slack-mark_credited : (q : String) (m r : ℤ) → Keeps (Slack k c) (mark_deposit_credited q m r)
    unfolding mark_deposit_credited
    Slack-mark_credited q m r = elim (Option-cases (to_column m)) [
      | inl e ↦ record { at = λ w h. ground arith }
      | inr (x, e) ↦ elim (Option-cases (to_column r)) [
        | inl f ↦ record { at = λ w h. ground arith }
        | inr (y, f) ↦ record {
          at = λ w h.
              ground (arith, worth-update q (credited_as x y) w.deposits (λ d. refl) (λ d. refl));
        }
      ]
    ]

    Slack-get_address : (id : ℕ) → Keeps (Slack k c) (get_address_by_account id)
    unfolding get_address_by_account
    Slack-get_address id = record { at = λ w h. ground arith }

    Slack-withdrawal_status :
        (id : ℕ) (t : WithdrawalStatus) → Keeps (Slack k c) (set_withdrawal_status id t)
    unfolding set_withdrawal_status
    Slack-withdrawal_status id t = record { at = λ w h. h }

    Slack-withdrawal_sent : (id : ℕ) (s : String) → Keeps (Slack k c) (set_withdrawal_sent id s)
    unfolding set_withdrawal_sent
    Slack-withdrawal_sent id s = record { at = λ w h. h }

    Slack-insert_withdrawal : (id : ℕ) (v : Withdrawal) → Keeps (Slack k c) (insert_withdrawal id v)
    unfolding insert_withdrawal
    Slack-insert_withdrawal id v = record { at = λ w h. ground arith }

    Slack-claim : (id : ℕ) → Keeps (Slack k c) (claim_faucet id)
    unfolding claim_faucet
    Slack-claim id = record { at = λ w h. ground arith }

    Slack-release : (id : ℕ) → Keeps (Slack k c) (release_faucet id)
    unfolding release_faucet
    Slack-release id = record { at = λ w h. h }

    Slack-transfer : (to : String) (n : ℕ) → Keeps (Slack k c) (transfer_usdc chain cfg to n)
    unfolding transfer_usdc
    Slack-transfer to n = record { at = λ w h. h }

    Slack-next_index : Keeps (Slack k c) next_derivation_index
    unfolding next_derivation_index
    Slack-next_index = record { at = λ w h. h }

    Slack-get_cursor : (a : String) → Keeps (Slack k c) (get_scan_cursor a)
    unfolding get_scan_cursor
    Slack-get_cursor a = record { at = λ w h. h }

    Slack-set_cursor : (a s : String) → Keeps (Slack k c) (set_scan_cursor a s)
    unfolding set_scan_cursor
    Slack-set_cursor a s = record { at = λ w h. h }

    Slack-insert_address : (a : WalletAddress) → Keeps (Slack k c) (insert_address a)
    unfolding insert_address
    Slack-insert_address a = record { at = λ w h. ground arith }

    pub Slack-Quiet : Quiet chain cfg (Slack k c)
    Slack-Quiet = record {
      blind = Slack-blind;
      status = Slack-set_status;
      marked = Slack-mark_credited;
      address = Slack-get_address;
      withdrawal = Slack-withdrawal_status;
      sent = Slack-withdrawal_sent;
      requested = Slack-insert_withdrawal;
      claim = Slack-claim;
      release = Slack-release;
      transfer = Slack-transfer;
      index = Slack-next_index;
      provision = Slack-insert_address;
      cursor = Slack-get_cursor;
      advance = Slack-set_cursor;
    }

  pub Slack-less : (j k c : ℕ) → k ≤ j → (w : World) → Slack j c w → Slack k c w
  Slack-less j k c l w h = omega arith

  -- An adjustment by an `int64` takes what it adds from the slack, and adds to it what it takes.
  pub Slack-adjust :
      (j k c id : ℕ) (z : ℤ)
      → neg_part z ≤ int64_limit
      → pos_part z < int64_limit
      → k + pos_part z ≤ j
      → Ends (Slack j c) (Slack k c) (adjust_ledger id z)
  unfolding adjust_ledger
  Slack-adjust j k c id z n p l = record {
    at = λ w h. elim (adjust_bounded id z w.ledger n p) [
      | inl (e, r, same) ↦ omega (arith, ap wealth same)
      | inr (b, r, more) ↦ omega arith
    ];
  }

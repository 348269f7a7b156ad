-- ===== src/Wallet/Withdrawals.antt =====
-- wallet-backend/service/service.go: what a withdrawal debits, sends and refunds.
use tchebets_open.Prelude.{
  ℕ, String, ◌≡◌, refl, ◌⊎◌, inl, inr, Bool, true, false, not, [], ◌∷◌, Result, ok, err, arith, ℤ,
  pos, pos_part, ltb_ℤ, ◌-ℤ◌, none, lookup, ◌≤◌, ◌<◌,
}
use tchebets_open.Bet.Market.{adjust_balance}
use tchebets_open.Wallet.Models.{
  fine, dropped, World, Withdrawal, WalletError, unavailable, amount_below_min, amount_above_max,
  manual_review, Chain, Config,
}
use tchebets_open.Wallet.Convert.{reais_to_micro_usdc}
use tchebets_open.Wallet.Effects.{W, ◌>>=◌, ◌>>◌, attempt, guard, call}
use tchebets_open.Bet.Statements.{is_some}
use tchebets_open.Wallet.Store.{
  find_address, by_account, insert_withdrawal, set_withdrawal_status, set_withdrawal_sent,
}
use tchebets_open.Wallet.Service.{
  adjust_ledger, ensure_usdc_ata, transfer_usdc, confirm_tx, refund, fail_and_refund,
  settle_withdrawal, request_withdrawal, withdrawal_row, recorded_or_refund,
}
use tchebets_open.Wallet.Leads.{Accepted, Sent}
use tchebets_open.Wallet.Sending.{SentOnce, one_more, debited, debit-outcome}

module _ (chain : Chain) (cfg : Config) where
  -- Where the confirmation of the transfer is lost and every other call is answered, the service
  -- reports the loss after it sent the transfer and gave the amount back to the account.
  pub settle_unconfirmed :
      (wid id : ℕ) (dest : String) (amount : ℤ) (micro : ℕ) (w : World)
      → w.answers ≡ fine ∷ fine ∷ fine ∷ fine ∷ dropped ∷ []
      → let (r, w') = settle_withdrawal chain cfg wid id dest amount micro w in
        (r ≡ err unavailable)
        × ((w'.ledger ≡ (adjust_balance id amount w.ledger).1)
            × (w'.transfers
                ≡ record { to_ata = chain.ata_of dest; micro_usdc = micro } ∷ w.transfers))
  unfolding settle_withdrawal fail_and_refund refund call set_withdrawal_status set_withdrawal_sent
      ensure_usdc_ata transfer_usdc confirm_tx adjust_ledger
  settle_unconfirmed wid id dest amount micro w h = (ground arith, (ground arith, ground arith))

  -- With every call answered, a settled withdrawal sends the amount once and is confirmed, and no
  -- balance changes.
  settle_answered :
      (wid id : ℕ) (dest : String) (amount : ℤ) (micro : ℕ) (w : World)
      → w.answers ≡ []
      → let (r, w') = settle_withdrawal chain cfg wid id dest amount micro w in
        (r ≡ ok tt)
        × ((w'.ledger ≡ w.ledger)
            × (w'.transfers
                ≡ record { to_ata = chain.ata_of dest; micro_usdc = micro } ∷ w.transfers))
  unfolding settle_withdrawal call set_withdrawal_status set_withdrawal_sent ensure_usdc_ata
      transfer_usdc confirm_tx
  settle_answered wid id dest amount micro w h = (ground arith, (ground arith, ground arith))

  -- Under any answers of the calls, a withdrawal sends at most one transfer, of its amount to its
  -- destination; a good result means it was sent; and it is sent only if the ledger took the debit.
  pub withdraw_once :
      (wid id : ℕ) (dest : String) (amount : ℤ) (w : World)
      → let (r, w') = request_withdrawal chain cfg wid id dest amount w in
        let micro : ℕ = pos_part (reais_to_micro_usdc amount cfg.rate_micros) in
        SentOnce chain cfg dest micro w.transfers r w'
        × (Sent w.transfers w' ⊎ Accepted id (pos 0 -ℤ amount) w)
  unfolding request_withdrawal
  withdraw_once wid id dest amount w =
      limited (not (ltb_ℤ exact (pos cfg.limit_min))) (not (ltb_ℤ (pos cfg.limit_max) exact))
    where
      exact : ℤ
      exact = reais_to_micro_usdc amount cfg.rate_micros

      once : Result WalletError (Unit {0}) → World → Type 0
      once r w' =
          SentOnce chain cfg dest (pos_part exact) w.transfers r w'
          × (Sent w.transfers w' ⊎ Accepted id (pos 0 -ℤ amount) w)

      row : Withdrawal
      row = withdrawal_row chain cfg id dest amount exact

      rest : W (Unit {0})
      rest = attempt (call (insert_withdrawal wid row)) >>= λ r.
          recorded_or_refund chain cfg id amount r
          >> (guard (not (ltb_ℤ (pos cfg.manual_review_over) exact)) manual_review
              >> settle_withdrawal chain cfg wid id dest amount (pos_part exact))

      debit : W ℤ
      debit = call (adjust_ledger id (pos 0 -ℤ amount))

      Outcome : Result WalletError ℤ → World → Type 0
      Outcome r v =
          Sent w.transfers v
          × (((b : ℤ) × ((r ≡ ok b) × ((adjust_balance id (pos 0 -ℤ amount) w.ledger).0 ≡ ok b)))
              ⊎ ((e : WalletError) × (r ≡ err e)))

      by_outcome :
          (r : Result WalletError ℤ) (v : World)
          → Outcome r v
          → let (r', w') = ◌>>=◌ (λ _. (r, v)) (λ _. rest) w in once r' w'
      by_outcome (ok b) v (h, inl (c, (same, taken))) = (
        (debited chain cfg dest (pos_part exact) w.transfers wid id amount row
              (not (ltb_ℤ (pos cfg.manual_review_over) exact))).at
            v h,
        inr (c, taken),
      )
      by_outcome (ok b) v (h, inr (e, x)) = ground arith
      by_outcome (err e) v (h, more) = (inl h, inl h)

      paid : let (r, w') = (debit >>= λ _. rest) w in once r w'
      paid =
          let (r, v) = debit w in
          by_outcome r v
            (debit-outcome chain cfg dest (pos_part exact) w.transfers id (pos 0 -ℤ amount) w refl)

      limited :
          (low high : Bool)
          → let (r, w') =
              (guard low amount_below_min >> (guard high amount_above_max >> (debit >>= λ _. rest)))
                w in
            once r w'
      limited false high = (inl refl, inl refl)
      limited true false = (inl refl, inl refl)
      limited true true = paid

  -- With every call answered, a withdrawal within the limits that needs no review, under a fresh id,
  -- of a known account whose debit the ledger takes, succeeds: the balances are those after the
  -- debit, and one transfer of the amount is sent.
  pub withdraw_answered :
      (wid id : ℕ) (dest : String) (reais : ℕ) (b : ℤ) (micro : ℕ) (w : World)
      → w.answers ≡ []
      → reais_to_micro_usdc (pos reais) cfg.rate_micros ≡ pos micro
      → 0 < micro
      → cfg.limit_min ≤ micro
      → micro ≤ cfg.limit_max
      → micro ≤ cfg.manual_review_over
      → lookup wid w.withdrawals ≡ none
      → is_some (find_address (by_account id) w.addresses) ≡ true
      → (adjust_balance id (pos 0 -ℤ (pos reais)) w.ledger).0 ≡ ok b
      → let (r, w') = request_withdrawal chain cfg wid id dest (pos reais) w in
        (r ≡ ok tt)
        × ((w'.ledger ≡ (adjust_balance id (pos 0 -ℤ (pos reais)) w.ledger).1)
            × (w'.transfers ≡ one_more chain cfg dest micro w.transfers))
  unfolding request_withdrawal call adjust_ledger insert_withdrawal
  withdraw_answered wid id dest reais b micro w quiet priced p low high small fresh known taken =
      let amount : ℤ = pos reais in
      let w₁ : World = (call (adjust_ledger id (pos 0 -ℤ amount)) w).1 in
      let row : Withdrawal = withdrawal_row chain cfg id dest amount (pos micro) in
      let w₂ : World = (call (insert_withdrawal wid row) w₁).1 in
      let (done, (kept, sent)) = settle_answered wid id dest amount micro w₂ (ground arith) in
      (ground arith, (ground arith, ground arith))

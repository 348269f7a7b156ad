-- ===== src/Wallet/Sending.antt =====
-- wallet-backend/service/service.go: how often a withdrawal sends its transfer.
use tchebets_open.Prelude.{
  ℕ, String, ◌≡◌, refl, ◌⊎◌, inl, inr, Bool, true, false, List, ◌∷◌, Result, ok, err, arith, ℤ,
}
use tchebets_open.Bet.Market.{adjust_balance}
use tchebets_open.Wallet.Models.{
  fine, dropped, unanswered, WithdrawalStatus, confirmed, failed, signing, World, Withdrawal,
  Transfer, WalletError, unavailable, manual_review, Chain, Config,
}
use tchebets_open.Wallet.Effects.{
  W, ◌>>=◌, ◌>>◌, attempt, guard, call, answered, next_answer, later_answers,
}
use tchebets_open.Wallet.Store.{insert_withdrawal, set_withdrawal_status, set_withdrawal_sent}
use tchebets_open.Wallet.Service.{
  adjust_ledger, ledger_refusal, ensure_usdc_ata, transfer_usdc, confirm_tx, refund,
  fail_and_refund, confirm_or_refund, sent_or_refund, send_or_refund, settle_withdrawal,
  recorded_or_refund,
}
use tchebets_open.Wallet.Deposits.{Answer-cases}
use tchebets_open.Wallet.Keeps.{Keeps, Keeps-pure, Keeps-call}
use tchebets_open.Wallet.Leads.{Result-cases, Leads, Leads-bind, Leads-attempt, Sent, Sent-blind}

module _ (chain : Chain) (cfg : Config) where
  abbrev pub one_more : String → ℕ → List Transfer → List Transfer
  one_more dest micro l = record { to_ata = chain.ata_of dest; micro_usdc = micro } ∷ l

  -- The transfers are `l`, or one more; and one more if the result is good.
  abbrev pub SentOnce :
      {A : Type 0} → String → ℕ → List Transfer → Result WalletError A → World → Type 0
  SentOnce dest micro l (ok a) w = Sent (one_more dest micro l) w
  SentOnce dest micro l (err e) w = Sent l w ⊎ Sent (one_more dest micro l) w

  Sent-status :
      (l : List Transfer) (wid : ℕ) (t : WithdrawalStatus)
      → Keeps (Sent l) (call (set_withdrawal_status wid t))
  unfolding set_withdrawal_status
  Sent-status l wid t =
      Keeps-call (set_withdrawal_status wid t) (Sent-blind l) (record { at = λ w h. h })

  Sent-adjust : (l : List Transfer) (id : ℕ) (z : ℤ) → Keeps (Sent l) (call (adjust_ledger id z))
  unfolding adjust_ledger
  Sent-adjust l id z = Keeps-call (adjust_ledger id z) (Sent-blind l) (record { at = λ w h. h })

  Sent-fail_and_refund :
      (l : List Transfer) (wid id : ℕ) (amount : ℤ) (e : WalletError)
      → Keeps (Sent l) (fail_and_refund chain cfg wid id amount e)
  unfolding fail_and_refund refund
  Sent-fail_and_refund l wid id amount e = record {
    at = λ w h.
        (Sent-adjust l id amount).at (call (set_withdrawal_status wid failed) w).1
          ((Sent-status l wid failed).at w h);
  }

  module _ (dest : String) (micro : ℕ) (l : List Transfer) where
    after_sending :
        {A : Type 0} (m : W A)
        → Keeps (Sent (one_more dest micro l)) m
        → Leads (Sent (one_more dest micro l)) (SentOnce dest micro l) m
    after_sending {A = A} m k = record { at = λ w h. let (r, w') = m w in weaken r w' (k.at w h) }
      where
        weaken :
            (r : Result WalletError A) (w' : World)
            → Sent (one_more dest micro l) w'
            → SentOnce dest micro l r w'
        weaken (ok a) w' h = h
        weaken (err e) w' h = inr h

    failing :
        (wid id : ℕ) (amount : ℤ) (e : WalletError)
        → Leads
            (SentOnce {A = Unit {0}} dest micro l (err e))
            (SentOnce dest micro l)
            (fail_and_refund chain cfg wid id amount e)
    unfolding fail_and_refund refund
    failing wid id amount e = record {
      at = λ w h. elim h [
        | inl a ↦ inl ((Sent-fail_and_refund l wid id amount e).at w a)
        | inr b ↦ inr ((Sent-fail_and_refund (one_more dest micro l) wid id amount e).at w b)
      ];
    }

    confirm_or_refund-once :
        (wid id : ℕ) (amount : ℤ) (r : Result WalletError (Unit {0}))
        → Leads
            (Sent (one_more dest micro l))
            (SentOnce dest micro l)
            (confirm_or_refund chain cfg wid id amount r)
    confirm_or_refund-once wid id amount (err e) = record {
      at = λ w h. (failing wid id amount e).at w (inr h);
    }
    confirm_or_refund-once wid id amount (ok a) =
        after_sending (call (set_withdrawal_status wid confirmed))
          (Sent-status (one_more dest micro l) wid confirmed)

    sent_or_refund-once :
        (wid id : ℕ) (amount : ℤ) (r : Result WalletError String)
        → Leads
            (SentOnce dest micro l r)
            (SentOnce dest micro l)
            (sent_or_refund chain cfg wid id amount r)
    unfolding set_withdrawal_sent confirm_tx
    sent_or_refund-once wid id amount (err e) = record {
      at = λ w h. (failing wid id amount e).at w h;
    }
    sent_or_refund-once wid id amount (ok sig) =
        Leads-bind (call (set_withdrawal_sent wid sig))
          (λ _. attempt (call (confirm_tx chain cfg)) >>= confirm_or_refund chain cfg wid id amount)
          (after_sending (call (set_withdrawal_sent wid sig)) (
            Keeps-call (set_withdrawal_sent wid sig) (Sent-blind (one_more dest micro l))
              (record { at = λ w h. h })))
          (λ _.
            Leads-bind {Q = λ _. Sent (one_more dest micro l)} (attempt confirming)
              (confirm_or_refund chain cfg wid id amount)
              (record {
                at = λ w h.
                    (Keeps-call (confirm_tx chain cfg) (Sent-blind (one_more dest micro l))
                        (record { at = λ w h. h })).at
                      w h;
              })
              (confirm_or_refund-once wid id amount) (λ e w h. inr h))
          (λ e w h. h)
      where
        confirming : W (Unit {0})
        confirming = call (confirm_tx chain cfg)

    abbrev Prepared : Result WalletError String → World → Type 0
    Prepared (ok ata) w = (ata ≡ chain.ata_of dest) × Sent l w
    Prepared (err e) w = Sent l w

    preparing : Leads (Sent l) (Prepared) (call (ensure_usdc_ata chain cfg dest))
    unfolding call ensure_usdc_ata
    preparing = record {
      at = λ w h.
          elim (next_answer w.answers)
            as (λ a.
              let (r, w') =
                answered a (ensure_usdc_ata chain cfg dest)
                  (record w { answers = later_answers w.answers }) in
              Prepared r w') [ fine ↦ (refl, h) | dropped ↦ h | unanswered ↦ h ];
    }

    sending :
        (ata : String)
        → Leads
            (Prepared (ok ata))
            (SentOnce dest micro l)
            (call (transfer_usdc chain cfg ata micro))
    unfolding call transfer_usdc
    sending ata = record {
      at = λ w (e, h).
          elim (next_answer w.answers)
            as (λ a.
              let (r, w') =
                answered a (transfer_usdc chain cfg ata micro)
                  (record w { answers = later_answers w.answers }) in
              SentOnce dest micro l r w') [
                | fine ↦ rw e (rw h refl)
                | dropped ↦ inl h
                | unanswered ↦ inr (rw e (rw h refl))
              ];
    }

    send_or_refund-once :
        (wid id : ℕ) (amount : ℤ) (r : Result WalletError String)
        → Leads
            (Prepared r)
            (SentOnce dest micro l)
            (send_or_refund chain cfg wid id amount micro r)
    send_or_refund-once wid id amount (err e) = record {
      at = λ w h. (failing wid id amount e).at w (inl h);
    }
    send_or_refund-once wid id amount (ok ata) =
        Leads-attempt (call (transfer_usdc chain cfg ata micro))
          (sent_or_refund chain cfg wid id amount) (sending ata) (sent_or_refund-once wid id amount)

    settle_withdrawal-once :
        (wid id : ℕ) (amount : ℤ)
        → Leads
            (Sent l)
            (SentOnce dest micro l)
            (settle_withdrawal chain cfg wid id dest amount micro)
    unfolding settle_withdrawal
    settle_withdrawal-once wid id amount = record {
      at = λ w h.
          settling.at (call (set_withdrawal_status wid signing) w).1
            ((Sent-status l wid signing).at w h);
    }
      where
        settling : Leads (Sent l) (SentOnce dest micro l) (
            attempt (call (ensure_usdc_ata chain cfg dest))
            >>= send_or_refund chain cfg wid id amount micro)
        settling =
            Leads-attempt (call (ensure_usdc_ata chain cfg dest))
              (send_or_refund chain cfg wid id amount micro) preparing
              (send_or_refund-once wid id amount)

    pub debit-outcome :
        (id : ℕ) (z : ℤ) (w : World)
        → Sent l w
        → let (r, w') = call (adjust_ledger id z) w in
          Sent l w'
          × (((b : ℤ) × ((r ≡ ok b) × ((adjust_balance id z w.ledger).0 ≡ ok b)))
              ⊎ ((e : WalletError) × (r ≡ err e)))
    unfolding call adjust_ledger
    debit-outcome id z w h = elim (Answer-cases (next_answer w.answers)) [
      | inl a ↦ elim (Result-cases (adjust_balance id z w.ledger).0) [
        | inl (b, e) ↦ (ground arith, inl (b, (ground arith, ground arith)))
        | inr (e, x) ↦ (ground arith, inr (ledger_refusal e, ground arith))
      ]
      | inr (inl a) ↦ (ground arith, inr (unavailable, ground arith))
      | inr (inr a) ↦ (ground arith, inr (unavailable, ground arith))
    ]

    Sent-insert : (wid : ℕ) (v : Withdrawal) → Keeps (Sent l) (call (insert_withdrawal wid v))
    unfolding insert_withdrawal
    Sent-insert wid v =
        Keeps-call (insert_withdrawal wid v) (Sent-blind l) (record { at = λ w h. ground arith })

    Sent-recorded :
        (id : ℕ) (amount : ℤ) (r : Result WalletError (Unit {0}))
        → Keeps (Sent l) (recorded_or_refund chain cfg id amount r)
    unfolding refund
    Sent-recorded id amount (ok _) = Keeps-pure tt
    Sent-recorded id amount (err e) = record { at = λ w h. (Sent-adjust l id amount).at w h }

    before_sending : {m : W (Unit {0})} → Keeps (Sent l) m → Leads (Sent l) (λ r. Sent l) m
    before_sending k = record { at = λ w h. k.at w h }

    guarded :
        (b : Bool) (e : WalletError) (m : W (Unit {0}))
        → Leads (Sent l) (SentOnce dest micro l) m
        → Leads (Sent l) (SentOnce dest micro l) (guard b e >> m)
    guarded true e m k = record { at = λ w h. k.at w h }
    guarded false e m k = record { at = λ w h. inl h }

    -- What follows an accepted debit.
    pub debited :
        (wid id : ℕ) (amount : ℤ) (v : Withdrawal) (review : Bool)
        → Leads (Sent l) (SentOnce dest micro l) (
            attempt (call (insert_withdrawal wid v)) >>= λ r.
            recorded_or_refund chain cfg id amount r
            >> (guard review manual_review >> settle_withdrawal chain cfg wid id dest amount micro))
    debited wid id amount v review =
        Leads-attempt {Q = λ _. Sent l} (call (insert_withdrawal wid v))
          (λ r. recorded_or_refund chain cfg id amount r >> last)
          (record { at = λ w h. (Sent-insert wid v).at w h })
          (λ r.
            Leads-bind {Q = λ _. Sent l} (recorded_or_refund chain cfg id amount r) (λ _. last)
              (before_sending (Sent-recorded id amount r))
              (λ _.
                guarded review manual_review (settle_withdrawal chain cfg wid id dest amount micro)
                  (settle_withdrawal-once wid id amount))
              (λ e w h. inl h))
      where
        last : W (Unit {0})
        last = guard review manual_review >> settle_withdrawal chain cfg wid id dest amount micro

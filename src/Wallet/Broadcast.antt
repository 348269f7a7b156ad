-- ===== src/Wallet/Broadcast.antt =====
-- wallet-backend/chain: what the client and the swap have the cluster take.
use tchebets_open.Prelude.{
  ℕ, zero, suc, String, ◌≡◌, refl, ◌⊎◌, inl, inr, Bool, true, false, some, ◌∷◌, Result, ok, err,
  arith, Option-cases, Bool-cases,
}
use tchebets_open.Wallet.Confirm.{
  Poll, unknown, on_chain_error, processed, settled, Confirmation, confirm_turn, confirm_signature,
  sign_send_confirm,
}
use tchebets_open.Wallet.Solana.{
  ChainError, Instruction, transfer_checked, swap_transaction, SendAnswer, taken, taken_unanswered,
  refused, Cluster, Log, usdc_decimals, chain_result, sent_answer, logged, confirm, submit,
  transfer_tokens,
}
use tchebets_open.Wallet.Jupiter.{Quote, Jupiter, quote, build_swap_tx}

turn-settled : (p : Poll) (done : Bool) → confirm_turn p done ≡ some (ok tt) → p ≡ settled
unfolding confirm_turn
turn-settled settled done e = refl
turn-settled on_chain_error done e = absurd (ground (arith, e))
turn-settled unknown true e = absurd (ground (arith, e))
turn-settled unknown false e = absurd (ground (arith, e))
turn-settled processed true e = absurd (ground (arith, e))
turn-settled processed false e = absurd (ground (arith, e))

wait-settled :
    (poll : ℕ → Poll) (done : ℕ → Bool) (fuel i : ℕ)
    → confirm_signature poll done fuel i ≡ some (ok tt)
    → (k : ℕ) × (poll k ≡ settled)
unfolding confirm_signature
wait-settled poll done zero i e = absurd (ground (arith, e))
wait-settled poll done (suc fuel) i e = elim (Option-cases (confirm_turn (poll i) (done i))) [
  | inl more ↦ wait-settled poll done fuel (suc i) (ground (arith, e, more))
  | inr (r, turn) ↦ (i, turn-settled (poll i) (done i) (ground (arith, e, turn)))
]

module _ (c : Cluster) where
  -- A poll found the transaction of the signature settled.
  abbrev pub Settled : String → Type 0
  Settled sig = (k : ℕ) × (c.poll sig k ≡ settled)

  -- A good result: the cluster took the instruction, and it settled. A bad one: it took that or nothing.
  abbrev pub Sends : {E A : Type 0} → (A → String) → Instruction → Log → Result E A → Log → Type 0
  Sends sig_of ix log (ok a) log' = (log' ≡ ix ∷ log) × Settled (sig_of a)
  Sends sig_of ix log (err e) log' = (log' ≡ log) ⊎ (log' ≡ ix ∷ log)

  confirm-Settled : (sig : String) → confirm c sig ≡ ok tt → Settled sig
  unfolding confirm
  confirm-Settled sig e = elim (Option-cases (confirm_signature (c.poll sig) c.done c.polls zero)) [
    | inl out ↦ absurd (ground (arith, e, out))
    | inr (r, got) ↦ wait-settled (c.poll sig) c.done c.polls zero (ground (arith, e, got))
  ]

  confirmed-Sends :
      (ix : Instruction) (log : Log) (sig : String) (r : Confirmation)
      → (r ≡ ok tt → Settled sig)
      → Sends (λ _. sig) ix log r (ix ∷ log)
  confirmed-Sends ix log sig (ok _) h = (refl, h refl)
  confirmed-Sends ix log sig (err e) h = inr refl

  sent-Sends :
      (ix : Instruction) (log : Log) (a : SendAnswer)
      → let (sig, r) = sign_send_confirm (ok tt) (sent_answer a) (confirm c) in
        Sends (λ _. sig) ix log r (logged a ix log)
  unfolding sign_send_confirm
  sent-Sends ix log (taken sig) = confirmed-Sends ix log sig (confirm c sig) (confirm-Settled sig)
  sent-Sends ix log taken_unanswered = inr refl
  sent-Sends ix log refused = inl refl

  submit-Sends :
      (ix : Instruction) (log : Log)
      → let ((sig, r), log') = submit c ix log in Sends (λ _. sig) ix log r log'
  unfolding submit sign_send_confirm
  submit-Sends ix log = elim (Bool-cases (c.builds ix)) [
    | inl built ↦ rw built (sent-Sends ix log (c.send ix))
    | inr bad ↦ rw bad (inl refl)
  ]

  result-Sends :
      {A : Type 0} (sig_of : A → String) (a : A) (ix : Instruction) (log log' : Log)
      (r : Confirmation)
      → Sends (λ _. sig_of a) ix log r log'
      → Sends sig_of ix log (chain_result a r) log'
  result-Sends sig_of a ix log log' (ok _) h = h
  result-Sends sig_of a ix log log' (err e) h = h

  -- `TransferUSDC` from an owner whose token account is known has the cluster take nothing but that
  -- transfer, at most once, whatever the RPC answers; without an error it took it, and it settled.
  pub transfer_tokens-Sends :
      (owner dest_ata source : String) (amount : ℕ) (log : Log)
      → c.find_ata owner c.usdc_mint ≡ some source
      → let (r, log') = transfer_tokens c owner dest_ata amount log in
        Sends
          (λ sig. sig)
          (transfer_checked amount usdc_decimals source c.usdc_mint dest_ata owner)
          log
          r
          log'
  unfolding transfer_tokens
  transfer_tokens-Sends owner dest_ata source amount log known =
      let ix = transfer_checked amount usdc_decimals source c.usdc_mint dest_ata owner in
      rw known (elim (Bool-cases (c.is_key dest_ata)) [
        | inl key ↦ rw key (result-Sends (λ sig. sig) _ ix log _ _ (submit-Sends ix log))
        | inr bad ↦ rw bad (inl refl)
      ])

  module _ (j : Jupiter) (user : String) (log : Log) where
    -- A good result: the least output is that of the quote, the cluster took the transaction that Jupiter
    -- built from that quote, and it settled. A bad one: it took one transaction of a swap or nothing.
    abbrev pub Swaps : (lamports slippage_bps : ℕ) → Result ChainError (ℕ × String) → Log → Type 0
    Swaps lamports bps (ok (out, sig)) log' =
        (q : Quote) × (tx : String) × (quote c j lamports bps ≡ ok q)
        × (c.parse_uint q.other_amount_threshold ≡ some out)
        × (build_swap_tx c j q.body user ≡ ok tx)
        × (log' ≡ swap_transaction user tx ∷ log)
        × Settled sig
    Swaps lamports bps (err e) log' =
        (log' ≡ log) ⊎ ((tx : String) × (log' ≡ swap_transaction user tx ∷ log))

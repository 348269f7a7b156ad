-- ===== src/Wallet/Minted.antt =====
-- No operation of wallet-backend credits more than the deposits that it records.
use tchebets_open.Prelude.{
  ℕ, ◌+◌, ◌≤◌, ◌<◌, ◌≡◌, refl, ap, inl, inr, Bool, true, false, Result, ok, err, arith, ℤ, pos,
  negsuc, pos_part, neg_part, if◌then◌else◌,
}
use tchebets_open.Int64.{int64_limit, wrap64}
use tchebets_open.Wallet.Models.{
  Asset, sol, usdc, usdt, World, WalletError, DetectedDeposit, Chain, Config, swapping,
}
use tchebets_open.Wallet.Convert.{micro_usdc_to_reais, mul_div_round}
use tchebets_open.Wallet.Effects.{W, pure, ◌>>=◌, attempt, call, next_answer}
use tchebets_open.Wallet.Store.{
  insert_deposit_if_new, mark_deposit_credited, set_deposit_status, get_address_by_account,
}
use tchebets_open.Wallet.Service.{
  adjust_ledger, resolve_credit_amount, or_mark_failed, credit_deposit, ingest_deposit,
  detected_row,
}
use tchebets_open.Wallet.Deposits.{Answer-cases}
use tchebets_open.Wallet.Quiet.{resolve-Quiet, mark_failed-Quiet}
use tchebets_open.Wallet.Spends.{Ends, move-Ends}
use tchebets_open.Wallet.Worth.{worth_of, worth, Slack, Slack-Quiet, Slack-less, Slack-adjust}

pub wrap64-neg_bound : (z : ℤ) → neg_part (wrap64 z) ≤ int64_limit
unfolding wrap64
wrap64-neg_bound (pos n) = ground arith
wrap64-neg_bound (negsuc n) = ground arith

pub wrap64-pos_bound : (z : ℤ) → pos_part (wrap64 z) < int64_limit
unfolding wrap64
wrap64-pos_bound (pos n) = ground arith
wrap64-pos_bound (negsuc n) = ground arith

-- What `m` returns, if it returns.
record Returns {A : Type 0} (P : A → Type 0) (m : W A) : Type 0 where
  at : (w : World) (a : A) → (m w).0 ≡ ok a → P a

Returns-bind :
    {A B : Type 0} {P : B → Type 0} (m : W A) (f : A → W B)
    → ((a : A) → Returns P (f a))
    → Returns P (m >>= f)
Returns-bind {A = A} {B = B} {P = P} m f k = record {
  at = λ w b. let (r, w') = m w in bound r w' b;
}
  where
    bound :
        (r : Result WalletError A) (w' : World) (b : B) → (◌>>=◌ (λ v. (r, v)) f w').0 ≡ ok b → P b
    bound (ok a) w' b e = (k a).at w' b e
    bound (err x) w' b e = absurd (ground (arith, e))

swap-Returns :
    (out : ℕ) → Returns (λ m. m ≡ wrap64 (pos out)) (call (pure out) >>= λ x. pure (wrap64 (pos x)))
unfolding call
swap-Returns out = record {
  at = λ w m e. elim (Answer-cases (next_answer w.answers)) [
    | inl a ↦ ground (arith, e)
    | inr (inl a) ↦ absurd (ground (arith, e))
    | inr (inr a) ↦ absurd (ground (arith, e))
  ];
}

module _ (chain : Chain) (cfg : Config) where
  abbrev credited_reais : ℤ → ℤ
  credited_reais micro = micro_usdc_to_reais micro cfg.rate_micros

  reais-neg_bound : (m : ℤ) → neg_part (credited_reais m) ≤ int64_limit
  unfolding micro_usdc_to_reais mul_div_round
  reais-neg_bound m = wrap64-neg_bound _

  reais-pos_bound : (m : ℤ) → pos_part (credited_reais m) < int64_limit
  unfolding micro_usdc_to_reais mul_div_round
  reais-pos_bound m = wrap64-pos_bound _

  -- The amount that a deposit is credited with is what it is worth.
  Priced : ℕ → Result WalletError ℤ → Type 0
  Priced v r = (m : ℤ) → r ≡ ok m → pos_part (credited_reais m) ≡ v

  swapped :
      (id : ℕ) (d : DetectedDeposit)
      → Returns
          (λ m. m ≡ wrap64 (pos (chain.swap_out d.raw_amount)))
          (resolve_credit_amount chain cfg id d sol)
  unfolding resolve_credit_amount
  swapped id d = Returns-bind (call (set_deposit_status d.signature swapping)) _ λ _.
      Returns-bind (call (get_address_by_account id)) _
        λ _. swap-Returns (chain.swap_out d.raw_amount)

  resolve-Priced :
      (id : ℕ) (d : DetectedDeposit) (a : Asset) (w : World)
      → Priced (worth_of chain cfg a d.raw_amount) (resolve_credit_amount chain cfg id d a w).0
  unfolding Priced resolve_credit_amount worth_of
  resolve-Priced id d usdc w m e = ground (arith, e)
  resolve-Priced id d usdt w m e = absurd (ground (arith, e))
  resolve-Priced id d sol w m e = ap (λ x. pos_part (credited_reais x)) ((swapped id d).at w m e)

  module _ (c k : ℕ) where
    credited_from :
        (id : ℕ) (d : DetectedDeposit) (v : ℕ) (r : Result WalletError ℤ) (w : World)
        → Priced v r
        → Slack chain cfg (k + v) c w
        → Slack chain cfg k c
            ((or_mark_failed chain cfg d.signature r >>= λ m.
                attempt (call (adjust_ledger id (credited_reais m))) >>= λ x.
                or_mark_failed chain cfg d.signature x >>= λ _.
                call (mark_deposit_credited d.signature m (credited_reais m)))
              w).1
    unfolding Priced
    credited_from id d v (err e) w p h =
        (mark_failed-Quiet chain cfg (Slack-Quiet chain cfg k c) d.signature).at w
          (Slack-less chain cfg (k + v) k c (omega arith) w h)
    credited_from id d v (ok m) w p h =
        (move-Ends chain cfg (Slack-Quiet chain cfg (k + v) c) (Slack-Quiet chain cfg k c)
            (Slack-less chain cfg (k + v) k c (omega arith)) id (credited_reais m)
            (Slack-adjust chain cfg (k + v) k c id (credited_reais m) (reais-neg_bound m)
              (reais-pos_bound m) (omega (arith, p m refl)))
            d.signature m).at
          w h

    credit-Ends :
        (id : ℕ) (d : DetectedDeposit)
        → Ends
            (Slack chain cfg (k + worth_of chain cfg d.asset d.raw_amount) c)
            (Slack chain cfg k c)
            (credit_deposit chain cfg id d)
    unfolding credit_deposit
    credit-Ends id d = record {
      at = λ w h.
          credited_from id d _ (resolve_credit_amount chain cfg id d d.asset w).0 _
            (resolve-Priced id d d.asset w)
            ((resolve-Quiet chain cfg (Slack-Quiet chain cfg _ c) id d d.asset).at w h);
    }

    -- The new row covers its credit.
    insert-covers :
        (id : ℕ) (d : DetectedDeposit) (w : World)
        → Slack chain cfg k c w
        → let (r, w') = insert_deposit_if_new (detected_row chain cfg id d) w in
          Slack chain cfg k c w'
          × (r ≡ ok true → Slack chain cfg (k + worth_of chain cfg d.asset d.raw_amount) c w')
    unfolding insert_deposit_if_new worth
    insert-covers id d w h = (ground (arith, h), λ e. ground (arith, h, e))

    call_insert-covers :
        (id : ℕ) (d : DetectedDeposit) (w : World)
        → Slack chain cfg k c w
        → let (r, w') = call (insert_deposit_if_new (detected_row chain cfg id d)) w in
          Slack chain cfg k c w'
          × (r ≡ ok true → Slack chain cfg (k + worth_of chain cfg d.asset d.raw_amount) c w')
    unfolding call
    call_insert-covers id d w h = elim (Answer-cases (next_answer w.answers)) [
      | inl a ↦ rw a (insert-covers id d _ h)
      | inr (inl a) ↦ rw a (h, λ e. absurd (ground (arith, e)))
      | inr (inr a) ↦ rw a ((insert-covers id d _ h).0, λ e. absurd (ground (arith, e)))
    ]

    ingested :
        (id : ℕ) (d : DetectedDeposit) (r : Result WalletError Bool) (w : World)
        → Slack chain cfg k c w
        → (r ≡ ok true → Slack chain cfg (k + worth_of chain cfg d.asset d.raw_amount) c w)
        → Slack chain cfg k c
            (◌>>=◌
              (λ v. (r, v))
              (λ new. if new then credit_deposit chain cfg id d else pure tt)
              w).1
    ingested id d (ok true) w h new = (credit-Ends id d).at w (new refl)
    ingested id d (ok false) w h new = h
    ingested id d (err e) w h new = h

    pub ingest-Ends :
        (id : ℕ) (d : DetectedDeposit)
        → Ends (Slack chain cfg k c) (Slack chain cfg k c) (ingest_deposit chain cfg id d)
    unfolding ingest_deposit
    ingest-Ends id d = record {
      at = λ w h. let (kept, new) = call_insert-covers id d w h in ingested id d _ _ kept new;
    }

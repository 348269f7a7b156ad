-- ===== src/Wallet/Deposits.antt =====
-- A deposit moves the ledger at most once.
use text.Mathlib.TextPositions.{eq_refl}
use tchebets_open.Prelude.{
  ℕ, String, ◌≡◌, refl, ◌∙◌, ◌⊎◌, inl, inr, Bool, true, false, List, [], ◌∷◌, Result, ok, err,
  arith, ℤ, Bool-cases, Option-cases, ltb, ◌&&◌,
}
use tchebets_open.Int64.{int64_limit, to_column}
use tchebets_open.Bet.Statements.{is_some}
use tchebets_open.Wallet.Models.{
  Answer, fine, dropped, unanswered, DepositStatus, Deposit, DetectedDeposit, World, WalletError,
  constraint, unavailable, Chain, Config,
}
use tchebets_open.Wallet.Effects.{call, next_answer, later_answers}
use tchebets_open.Wallet.Store.{
  find_address, by_account, deposit_asset, has_deposit, update_deposit, insert_deposit_if_new,
  set_deposit_status, credited_as, mark_deposit_credited, get_address_by_account,
  set_withdrawal_status, set_withdrawal_sent, insert_withdrawal, claim_faucet, release_faucet,
  next_derivation_index, insert_address, get_scan_cursor, set_scan_cursor,
}
use tchebets_open.Wallet.Service.{
  transfer_usdc, adjust_ledger, credit_deposit, ingest_deposit, ingest_all, detected_row,
}
use tchebets_open.Wallet.Quiet.{Quiet}
use tchebets_open.Wallet.Ingests.{credit-Keeps, ingest_all-Keeps}
use tchebets_open.Wallet.Keeps.{Keeps, Blind}

-- The signature has a row.
abbrev pub Seen : String → World → Type 0
Seen s w = has_deposit s w.deposits ≡ true

Seen-blind : (s : String) → Blind (Seen s)
Seen-blind s w l h = h

pub has_deposit-update :
    (s q : String) (f : Deposit → Deposit) (ds : List Deposit)
    → ((d : Deposit) → (f d).signature ≡ d.signature)
    → has_deposit s (update_deposit q f ds) ≡ has_deposit s ds
has_deposit-update s q f [] h = refl
has_deposit-update s q f (d ∷ ds) h = ground (arith, h d, has_deposit-update s q f ds h)

module _ (s : String) where
  Seen-set_status : (q : String) (t : DepositStatus) → Keeps (Seen s) (set_deposit_status q t)
  unfolding set_deposit_status
  Seen-set_status q t = record {
    at = λ w h. has_deposit-update s q (λ d. record d { status = t }) w.deposits (λ d. refl) ∙ h;
  }

  Seen-mark_credited : (q : String) (m r : ℤ) → Keeps (Seen s) (mark_deposit_credited q m r)
  unfolding mark_deposit_credited
  Seen-mark_credited q m r = elim (Option-cases (to_column m)) [
    | inl e ↦ record { at = λ w h. ground arith }
    | inr (x, e) ↦ elim (Option-cases (to_column r)) [
      | inl f ↦ record { at = λ w h. ground arith }
      | inr (y, f) ↦ record {
        at = λ w h. ground (arith, has_deposit-update s q (credited_as x y) w.deposits (λ d. refl));
      }
    ]
  ]

  Seen-get_address : (id : ℕ) → Keeps (Seen s) (get_address_by_account id)
  unfolding get_address_by_account
  Seen-get_address id = record { at = λ w h. ground arith }

  Seen-adjust : (id : ℕ) (z : ℤ) → Keeps (Seen s) (adjust_ledger id z)
  unfolding adjust_ledger
  Seen-adjust id z = record { at = λ w h. h }

  Seen-insert : (d : Deposit) → Keeps (Seen s) (insert_deposit_if_new d)
  unfolding insert_deposit_if_new
  Seen-insert d = record { at = λ w h. ground arith }

module _ (chain : Chain) (cfg : Config) (s : String) where
  Seen-Quiet : Quiet chain cfg (Seen s)
  unfolding set_withdrawal_status set_withdrawal_sent insert_withdrawal claim_faucet release_faucet
      transfer_usdc next_derivation_index insert_address get_scan_cursor set_scan_cursor
  Seen-Quiet = record {
    blind = Seen-blind s;
    status = Seen-set_status s;
    marked = Seen-mark_credited s;
    address = Seen-get_address s;
    withdrawal = λ id t. record { at = λ w h. h };
    sent = λ id sig. record { at = λ w h. h };
    requested = λ id v. record { at = λ w h. ground arith };
    claim = λ id. record { at = λ w h. ground arith };
    release = λ id. record { at = λ w h. h };
    transfer = λ to n. record { at = λ w h. h };
    index = record { at = λ w h. h };
    provision = λ a. record { at = λ w h. ground arith };
    cursor = λ a. record { at = λ w h. h };
    advance = λ a sig. record { at = λ w h. h };
  }

  Seen-credit : (id : ℕ) (d : DetectedDeposit) → Keeps (Seen s) (credit_deposit chain cfg id d)
  Seen-credit = credit-Keeps chain cfg Seen-Quiet (Seen-adjust s) (Seen-insert s)

  Seen-ingest_all :
      (id : ℕ) (ds : List DetectedDeposit) → Keeps (Seen s) (ingest_all chain cfg id ds)
  Seen-ingest_all = ingest_all-Keeps chain cfg Seen-Quiet (Seen-adjust s) (Seen-insert s)

pub Answer-cases : (a : Answer) → (a ≡ fine) ⊎ ((a ≡ dropped) ⊎ (a ≡ unanswered))
Answer-cases fine = inl refl
Answer-cases dropped = inr (inl refl)
Answer-cases unanswered = inr (inr refl)

-- The balances, the transfers, the deposits are the same.
abbrev pub Untouched : World → World → Type 0
Untouched w w' = (w'.ledger ≡ w.ledger) × (w'.transfers ≡ w.transfers) × (w'.deposits ≡ w.deposits)

module _ (chain : Chain) (cfg : Config) where
  -- A deposit whose signature has a row changes no balance, no deposit and no transfer, whatever
  -- happens to the calls.
  pub ingest_known :
      (id : ℕ) (d : DetectedDeposit) (w : World)
      → Seen d.signature w
      → Untouched w (ingest_deposit chain cfg id d w).1
  unfolding ingest_deposit insert_deposit_if_new call
  ingest_known id d w h = elim (Answer-cases (next_answer w.answers)) [
    | inl e ↦ ground arith
    | inr (inl e) ↦ ground arith
    | inr (inr e) ↦ ground arith
  ]

  insert-outcome :
      (id : ℕ) (d : DetectedDeposit) (w : World)
      → let (r, w') = call (insert_deposit_if_new (detected_row chain cfg id d)) w in
        ((r ≡ ok true) × Seen d.signature w')
        ⊎ (((r ≡ ok false) × (w'.ledger ≡ w.ledger))
            ⊎ ((e : WalletError) × ((r ≡ err e) × (w'.ledger ≡ w.ledger))))
  unfolding insert_deposit_if_new call
  insert-outcome id d w =
      let v : World = record w { answers = later_answers w.answers } in
      let row : Deposit = detected_row chain cfg id d in
      let lost : Result WalletError Bool × World = (err unavailable, v) in
      elim (Answer-cases (next_answer w.answers)) [
        | inl e ↦
            elim (Bool-cases
              (deposit_asset d.asset && ltb 0 d.raw_amount && ltb d.raw_amount int64_limit)) [
                | inr bad ↦ inr (inr (constraint, (ground arith, ground arith)))
                | inl good ↦ elim (Bool-cases (has_deposit d.signature w.deposits)) [
                  | inl old ↦ inr (inl (ground arith, ground arith))
                  | inr new ↦
                      elim (Bool-cases (is_some (find_address (by_account id) w.addresses))) [
                        | inl known ↦
                            let own = eq_refl d.signature in inl (ground arith, ground arith)
                        | inr unknown ↦ inr (inr (constraint, (ground arith, ground arith)))
                      ]
                ]
              ]
        | inr (inl e) ↦ inr (inr (unavailable, (ground arith, ground arith)))
        | inr (inr e) ↦ inr (inr (unavailable, (ground arith, ground arith)))
      ]

  -- A first ingest either leaves the balances alone or leaves a row with its signature.
  ingest-Seen :
      (id : ℕ) (d : DetectedDeposit) (w : World)
      → let w' = (ingest_deposit chain cfg id d w).1 in (w'.ledger ≡ w.ledger) ⊎ Seen d.signature w'
  unfolding ingest_deposit
  ingest-Seen id d w =
      let w₁ : World = (call (insert_deposit_if_new (detected_row chain cfg id d)) w).1 in
      elim (insert-outcome id d w) [
        | inl (e, h) ↦ let kept = (Seen-credit chain cfg d.signature id d).at w₁ h in ground arith
        | inr (inl (e, h)) ↦ ground arith
        | inr (inr (x, (e, h))) ↦ ground arith
      ]

  -- If the first `IngestDeposit` of a signature changed a balance, then, after any further pass over
  -- deposits, another `IngestDeposit` of that signature, for any account, changes no balance, no
  -- deposit and no transfer; whatever happens to the calls.
  pub ingest_once :
      (id id' id₂ : ℕ) (d d₂ : DetectedDeposit) (later : List DetectedDeposit) (w : World)
      → d₂.signature ≡ d.signature
      → let w₁ : World = (ingest_deposit chain cfg id d w).1 in
        let w₂ : World = (ingest_all chain cfg id' later w₁).1 in
        (w₁.ledger ≡ w.ledger) ⊎ Untouched w₂ (ingest_deposit chain cfg id₂ d₂ w₂).1
  ingest_once id id' id₂ d d₂ later w same =
      let w₁ : World = (ingest_deposit chain cfg id d w).1 in
      let w₂ : World = (ingest_all chain cfg id' later w₁).1 in
      elim (ingest-Seen id d w) [
        | inl h ↦ inl h
        | inr h ↦
            let seen = (Seen-ingest_all chain cfg d.signature id' later).at w₁ h in
            inr (ingest_known id₂ d₂ w₂ (rw same seen))
      ]

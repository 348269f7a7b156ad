-- ===== src/Wallet/Ingests.antt =====
-- wallet-backend/service/service.go: what IngestDeposit keeps, if its statements and its movement of a
-- balance keep it.
use tchebets_open.Prelude.{ℕ, List, [], ◌∷◌, Bool, true, false, ℤ, if◌then◌else◌}
use tchebets_open.Wallet.Models.{World, Deposit, DetectedDeposit, Chain, Config}
use tchebets_open.Wallet.Convert.{micro_usdc_to_reais}
use tchebets_open.Wallet.Effects.{pure}
use tchebets_open.Wallet.Store.{insert_deposit_if_new}
use tchebets_open.Wallet.Service.{
  adjust_ledger, credit_deposit, ingest_deposit, ingest_all, detected_row,
}
use tchebets_open.Wallet.Keeps.{Keeps, Keeps-pure, Keeps-bind, Keeps-attempt}
use tchebets_open.Wallet.Quiet.{Quiet, called, resolve-Quiet, or_mark_failed-Quiet}

module _ (chain : Chain) (cfg : Config) {P : World → Type 0} (q : Quiet chain cfg P)
    (adjust : (id : ℕ) (z : ℤ) → Keeps P (adjust_ledger id z))
    (insert : (d : Deposit) → Keeps P (insert_deposit_if_new d)) where
  pub credit-Keeps : (id : ℕ) (d : DetectedDeposit) → Keeps P (credit_deposit chain cfg id d)
  unfolding credit_deposit
  credit-Keeps id d =
      Keeps-bind _ _ (Keeps-attempt _ (resolve-Quiet chain cfg q id d d.asset)) λ priced.
        Keeps-bind _ _ (or_mark_failed-Quiet chain cfg q d.signature priced) λ micro.
          Keeps-bind _ _ (Keeps-attempt _ (called chain cfg q (adjust id (credit micro)))) λ moved.
            Keeps-bind _ _ (or_mark_failed-Quiet chain cfg q d.signature moved)
              λ _. called chain cfg q (q.marked d.signature micro (credit micro))
    where
      credit : ℤ → ℤ
      credit micro = micro_usdc_to_reais micro cfg.rate_micros

  credit_if-Keeps :
      (id : ℕ) (d : DetectedDeposit) (new : Bool)
      → Keeps P (if new then credit_deposit chain cfg id d else pure tt)
  credit_if-Keeps id d true = credit-Keeps id d
  credit_if-Keeps id d false = Keeps-pure tt

  pub ingest-Keeps : (id : ℕ) (d : DetectedDeposit) → Keeps P (ingest_deposit chain cfg id d)
  unfolding ingest_deposit
  ingest-Keeps id d =
      Keeps-bind _ _ (called chain cfg q (insert (detected_row chain cfg id d)))
        (credit_if-Keeps id d)

  pub ingest_all-Keeps : (id : ℕ) (ds : List DetectedDeposit) → Keeps P (ingest_all chain cfg id ds)
  unfolding ingest_all
  ingest_all-Keeps id [] = Keeps-pure tt
  ingest_all-Keeps id (d ∷ ds) = Keeps-bind _ _ (ingest-Keeps id d) λ _. ingest_all-Keeps id ds

-- ===== src/Prelude/Results.antt =====
-- A value or an error: the pair `(T, error)` that the Go functions return.
pub data Result {ℓ κ} (E : Type ℓ) (A : Type κ) : Type (ℓ ⊔ κ) where
  ok : A → Result E A
  err : E → Result E A

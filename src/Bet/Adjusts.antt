-- ===== src/Bet/Adjusts.antt =====
-- bet-backend/service/market_service.go: AdjustBalance on any tables, also where the sum wraps around.
use tchebets_open.Prelude.{
  ℕ, ◌+◌, ◌≤◌, ◌<◌, ◌≡◌, ◌⊎◌, inl, inr, some, ok, err, Option-cases, arith, ℤ, pos, negsuc,
  pos_part, neg_part, lookup, ltb_ℤ, Bool-cases,
}
use tchebets_open.Int64.{int64_limit, add64, to_column}
use tchebets_open.Bet.Models.{Db}
use tchebets_open.Bet.Errors.{BetError, user_not_found, insufficient_balance, db_error}
use tchebets_open.Bet.Market.{adjust_balance}
use tchebets_open.Bet.Wealth.{wealth}
use tchebets_open.Bet.Ledger.{held-with_balance}

-- Wrapping around only lowers a sum that is not below 0.
add64-column-le :
    (b : ℕ) (delta : ℤ) (v : ℕ)
    → neg_part delta ≤ int64_limit
    → pos_part delta < int64_limit
    → to_column (add64 (pos b) delta) ≡ some v
    → v + neg_part delta ≤ b + pos_part delta
unfolding add64
add64-column-le b (pos d) v n p e = ground arith
add64-column-le b (negsuc d) v n p e = ground arith

-- An adjustment by an `int64` writes nothing, or adds no more money than it says.
pub adjust_bounded :
    (id : ℕ) (delta : ℤ) (db : Db)
    → neg_part delta ≤ int64_limit
    → pos_part delta < int64_limit
    → let (r, db') = adjust_balance id delta db in
      ((e : BetError) × (r ≡ err e) × (db' ≡ db))
      ⊎ ((b : ℤ) × (r ≡ ok b) × (wealth db' + neg_part delta ≤ wealth db + pos_part delta))
unfolding adjust_balance wealth
adjust_bounded id delta db n p = elim (Option-cases (lookup id db.users)) [
  | inl q ↦ inl (user_not_found, ground arith, ground arith)
  | inr (u, q) ↦ elim (Bool-cases (ltb_ℤ (add64 (pos u.balance) delta) (pos 0))) [
    | inl low ↦ inl (insufficient_balance, ground arith, ground arith)
    | inr high ↦ elim (Option-cases (to_column (add64 (pos u.balance) delta))) [
      | inl over ↦ inl (db_error, ground arith, ground arith)
      | inr (v, fits) ↦ inr (
        add64 (pos u.balance) delta,
        ground arith,
        ground (arith, held-with_balance id v u db q, add64-column-le u.balance delta v n p fits),
      )
    ]
  ]
]

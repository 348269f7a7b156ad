-- ===== src/Bet/Closing.antt =====
-- `LockMarket`, `RefundMarketInternal` and `ResolveMarket` change balances, cancel the listings of
-- the market, and change its row, whatever the arithmetic yields.
use tchebets_open.Prelude.{
  ℕ, String, ◌≡◌, true, some, List, [], ◌∷◌, ok, inl, inr, ℤ, pos, arith, Option-cases, Bool-cases,
  lookup, modify, ltb_ℤ, ◌-ℤ◌,
}
use tchebets_open.Int64.{add64, sub64}
use tchebets_open.Bet.Models.{Market, Db, house_user_id, status_resolved}
use tchebets_open.Bet.Statements.{add_balance, cancel_listings}
use tchebets_open.Bet.Market.{
  refund_bets, pay_winners, payout, commission, credit_house, settle, set_resolved, winning_bets,
  resolve_tx, scan_pools,
}
use tchebets_open.Bet.Create.{debit_house}
use tchebets_open.Bet.Credits.{
  OnlyBalances, OnlyBalances-refl, OnlyBalances-trans, add_balance-OnlyBalances,
}
use tchebets_open.Bet.Inversion.{Tx-cases, Run-cases}
use tchebets_open.Bet.Refund.{delisted}

pub refund_bets-Only :
    (ws : List (ℕ × ℕ)) (db db' : Db) → refund_bets ws db ≡ ok (tt, db') → OnlyBalances db db'
unfolding refund_bets
refund_bets-Only [] db db' e = let same : db' ≡ db = ground arith in rw same (OnlyBalances-refl db)
refund_bets-Only ((u, s) ∷ ws) db db' e = elim (Tx-cases (add_balance u (pos s) db)) [
  | inr (x, q) ↦ absurd (ground arith)
  | inl (mid, q) ↦
      OnlyBalances-trans (add_balance-OnlyBalances u (pos s) db mid q)
        (refund_bets-Only ws mid db' (ground arith))
]

pay_winners-Only :
    (d v acc r : ℤ) (ws : List (ℕ × ℕ)) (db db' : Db)
    → pay_winners d v ws acc db ≡ ok (r, db')
    → OnlyBalances db db'
unfolding pay_winners
pay_winners-Only d v acc r [] db db' e =
    let same : db' ≡ db = ground arith in rw same (OnlyBalances-refl db)
pay_winners-Only d v acc r ((u, s) ∷ ws) db db' e =
    elim (Tx-cases (add_balance u (payout d v s) db)) [
      | inr (x, q) ↦ absurd (ground arith)
      | inl (mid, q) ↦
          OnlyBalances-trans (add_balance-OnlyBalances u (payout d v s) db mid q)
            (pay_winners-Only d v (add64 acc (payout d v s)) r ws mid db' (ground arith))
    ]

credit_house-Only : (g : ℤ) (db db' : Db) → credit_house g db ≡ ok (tt, db') → OnlyBalances db db'
unfolding credit_house
credit_house-Only g db db' e = elim (Bool-cases (ltb_ℤ (pos 0) g)) [
  | inl p ↦ add_balance-OnlyBalances house_user_id g db db' (ground arith)
  | inr p ↦ let same : db' ≡ db = ground arith in rw same (OnlyBalances-refl db)
]

pub debit_house-Only : (r : ℤ) (db db' : Db) → debit_house r db ≡ ok (tt, db') → OnlyBalances db db'
unfolding debit_house
debit_house-Only r db db' e = elim (Bool-cases (ltb_ℤ (pos 0) r)) [
  | inr p ↦ let same : db' ≡ db = ground arith in rw same (OnlyBalances-refl db)
  | inl p ↦ elim (Option-cases (lookup house_user_id db.users)) [
    | inl q ↦ absurd (ground arith)
    | inr (u, q) ↦ add_balance-OnlyBalances house_user_id (pos 0 -ℤ r) db db' (ground arith)
  ]
]

abbrev pub resolved_as : String → Market → Market
resolved_as win k = record k { status = status_resolved; winning_outcome = some win }

settle-Only :
    (m : ℕ) (win : String) (t v : ℤ) (db db' : Db)
    → settle m win t v db ≡ ok (tt, db')
    → (mid : Db) × OnlyBalances db mid
      × (db' ≡ record mid { markets = modify m (resolved_as win) mid.markets })
unfolding settle set_resolved
settle-Only m win t v db db' e =
    let d = sub64 t (commission t) in
    elim (Run-cases (pay_winners d v (winning_bets m win db.bets) (pos 0) db)) [
      | inr (x, q) ↦ absurd (ground arith)
      | inl (paid, mid, q) ↦
          elim (Tx-cases (credit_house (add64 (commission t) (sub64 d paid)) mid)) [
            | inr (x, r) ↦ absurd (ground arith)
            | inl (last, r) ↦ (
              last,
              OnlyBalances-trans
                  (pay_winners-Only d v (pos 0) paid (winning_bets m win db.bets) db mid q)
                  (credit_house-Only (add64 (commission t) (sub64 d paid)) mid last r),
              ground arith,
            )
          ]
    ]

-- A settlement that stands, over the balances `mid`.
pub resolve_tx-Only :
    (now m : ℕ) (win : String) (db db' : Db)
    → resolve_tx now m win db ≡ ok (true, db')
    → (mid : Db) × OnlyBalances (delisted now m db) mid
      × (db' ≡ record mid { markets = modify m (resolved_as win) mid.markets })
unfolding resolve_tx cancel_listings
resolve_tx-Only now m win db db' e =
    let acc = scan_pools m win db.pools (pos 0, pos 0) in
    elim (Tx-cases (settle m win acc.0 acc.1 (delisted now m db))) [
      | inr (x, q) ↦ absurd (ground arith)
      | inl (last, q) ↦
          let same : db' ≡ last = ground arith in
          rw same (settle-Only m win acc.0 acc.1 (delisted now m db) last q)
    ]

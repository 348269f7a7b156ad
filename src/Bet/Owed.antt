-- ===== src/Bet/Owed.antt =====
-- What the payments of bet-backend come to for each user.
use tchebets_open.Prelude.{
  ℕ, ◌+◌, ◌≡◌, true, List, [], ◌∷◌, ok, inl, inr, arith, ◌==◌, if◌then◌else◌, pos, Table, lookup,
  lookup-modify, Bool-cases, ltb, ℤ, ◌*◌, ◌/◌, ◌<◌,
}
use tchebets_open.Int64.{int64_limit, add64}
use tchebets_open.Bet.Models.{User, Db, house_user_id}
use tchebets_open.Bet.Statements.{add_balance}
use tchebets_open.Bet.Market.{refund_bets, pay_winners, credit_house}
use tchebets_open.Bet.Credits.{known, add_balance-cases, add_balance-OnlyBalances}
use tchebets_open.Bet.Inversion.{Tx-cases}
use tchebets_open.Bet.Payout.{PayeesKnown, PayeesKnown-keep, payout-pos, stakes}
use tchebets_open.Bet.Ledger.{balance_of}

-- The balance of a user, 0 if unknown.
abbrev pub balance_in : ℕ → Table User → ℕ
balance_in j users = balance_of (lookup j users)

pub add_balance-balance_in :
    (id n j : ℕ) (db db' : Db)
    → known id db ≡ true
    → add_balance id (pos n) db ≡ ok (tt, db')
    → balance_in j db'.users ≡ balance_in j db.users + (if j == id then n else 0)
add_balance-balance_in id n j db db' k e = elim (add_balance-cases id (pos n) db db' e) [
  | inl (unknown, same) ↦ cc
  | inr (u, v, a, b, same) ↦
      rw same (ground (arith, lookup-modify id j (λ (w : User). record w { balance = v }) db.users))
]

-- What the payments of a list come to for a user.
abbrev pub owed : ℕ → List (ℕ × ℕ) → ℕ
owed j [] = 0
owed j ((u, s) ∷ ws) = (if j == u then s else 0) + owed j ws

pub refund_bets-balance_in :
    (j : ℕ) (ws : List (ℕ × ℕ)) (db db' : Db)
    → PayeesKnown db.users ws
    → refund_bets ws db ≡ ok (tt, db')
    → balance_in j db'.users ≡ balance_in j db.users + owed j ws
unfolding refund_bets
refund_bets-balance_in j [] db db' k e = ground arith
refund_bets-balance_in j ((u, s) ∷ ws) db db' k e = elim (Tx-cases (add_balance u (pos s) db)) [
  | inr (x, q) ↦ absurd (ground arith)
  | inl (mid, q) ↦
      let only = add_balance-OnlyBalances u (pos s) db mid q in
      let rest =
        refund_bets-balance_in j ws mid db' (PayeesKnown-keep ws only k.1) (ground arith) in
      omega (arith, add_balance-balance_in u s j db mid k.0 q, rest)
]

-- What the rounded shares of a list come to for a user.
abbrev pub winnings : (j d v : ℕ) → List (ℕ × ℕ) → ℕ
winnings j d v [] = 0
winnings j d v ((u, s) ∷ ws) = (if j == u then s * d / v else 0) + winnings j d v ws

pub pay_winners-balance_in :
    (j d v : ℕ) (ws : List (ℕ × ℕ)) (acc : ℤ) (paid : ℤ) (db db' : Db)
    → PayeesKnown db.users ws
    → stakes ws * d < int64_limit
    → pay_winners (pos d) (pos v) ws acc db ≡ ok (paid, db')
    → balance_in j db'.users ≡ balance_in j db.users + winnings j d v ws
unfolding pay_winners
pay_winners-balance_in j d v [] acc paid db db' k h e = ground arith
pay_winners-balance_in j d v ((u, s) ∷ ws) acc paid db db' k h e =
    let exact = payout-pos d v s (omega arith) in
    elim (Tx-cases (add_balance u (pos (s * d / v)) db)) [
      | inr (x, q) ↦ absurd (ground (arith, exact))
      | inl (mid, q) ↦
          let only = add_balance-OnlyBalances u (pos (s * d / v)) db mid q in
          let rest =
            pay_winners-balance_in j d v ws (add64 acc (pos (s * d / v))) paid mid db'
              (PayeesKnown-keep ws only k.1) (omega arith) (ground (arith, exact)) in
          omega (arith, add_balance-balance_in u (s * d / v) j db mid k.0 q, rest)
    ]

pub credit_house-balance_in :
    (j n : ℕ) (db db' : Db)
    → known house_user_id db ≡ true
    → credit_house (pos n) db ≡ ok (tt, db')
    → balance_in j db'.users ≡ balance_in j db.users + (if j == house_user_id then n else 0)
unfolding credit_house
credit_house-balance_in j n db db' k e = elim (Bool-cases (ltb 0 n)) [
  | inl q ↦ add_balance-balance_in house_user_id n j db db' k (ground arith)
  | inr q ↦ ground arith
]

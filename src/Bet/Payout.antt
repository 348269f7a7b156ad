-- ===== src/Bet/Payout.antt =====
-- The arithmetic of a settlement: the loops of `ResolveMarket` and `RefundMarketInternal` over the
-- bets, as sums of plain numbers where nothing overflows.
use tchebets_open.Prelude.{
  ℕ, ◌+◌, ◌*◌, ◌/◌, ◌≤◌, ◌<◌, ◌≡◌, true, List, [], ◌∷◌, ok, inl, inr, arith, ℤ, pos, length, Table,
  lookup, ap, ◌∙◌,
}
use tchebets_open.Int64.{int64_limit, add64-pos, mul64-pos, div64-pos}
use tchebets_open.Bet.Models.{User, Db}
use tchebets_open.Bet.Statements.{add_balance, is_some}
use tchebets_open.Bet.Market.{refund_bets, payout, pay_winners, commission}
use tchebets_open.Bet.Wealth.{held}
use tchebets_open.Bet.Inversion.{Tx-cases}
use tchebets_open.Bet.Credits.{
  OnlyBalances, OnlyBalances-refl, OnlyBalances-trans, add_balance-OnlyBalances, held-credit,
}

abbrev pub stakes : List (ℕ × ℕ) → ℕ
stakes [] = 0
stakes ((u, s) ∷ ws) = s + stakes ws

-- The sum of the floors that the winners are paid.
abbrev pub payouts : ℕ → ℕ → List (ℕ × ℕ) → ℕ
payouts d v [] = 0
payouts d v ((u, s) ∷ ws) = s * d / v + payouts d v ws

abbrev pub PayeesKnown : Table User → List (ℕ × ℕ) → Type 0
PayeesKnown users [] = Unit
PayeesKnown users ((u, s) ∷ ws) = (is_some (lookup u users) ≡ true) × PayeesKnown users ws

pub PayeesKnown-keep :
    (ws : List (ℕ × ℕ)) {db db' : Db}
    → OnlyBalances db db'
    → PayeesKnown db.users ws
    → PayeesKnown db'.users ws
PayeesKnown-keep [] only k = tt
PayeesKnown-keep ((u, s) ∷ ws) only k = (only.users u ∙ k.0, PayeesKnown-keep ws only k.1)

-- Refunds add the stakes to the balances.
pub refund_bets-held :
    (ws : List (ℕ × ℕ)) (db db' : Db)
    → PayeesKnown db.users ws
    → refund_bets ws db ≡ ok (tt, db')
    → (held db'.users ≡ held db.users + stakes ws) × OnlyBalances db db'
unfolding refund_bets
refund_bets-held [] db db' k e =
    let same : db' ≡ db = ground arith in rw same (omega arith, OnlyBalances-refl db)
refund_bets-held ((u, s) ∷ ws) db db' k e = elim (Tx-cases (add_balance u (pos s) db)) [
  | inr (x, q) ↦ absurd (ground arith)
  | inl (mid, q) ↦
      let only = add_balance-OnlyBalances u (pos s) db mid q in
      let (sum, rest) = refund_bets-held ws mid db' (PayeesKnown-keep ws only k.1) (ground arith) in
      (omega (arith, held-credit u s db mid k.0 q, sum), OnlyBalances-trans only rest)
]

pub payout-pos : (d v s : ℕ) → s * d < int64_limit → payout (pos d) (pos v) s ≡ pos (s * d / v)
unfolding payout
payout-pos d v s h = rw (mul64-pos s d h) (div64-pos (s * d) v h)

-- The loop over winning bets of known users, where the products and the sum are `int64`s, returns
-- the sum of the rounded shares, adds it to the balances, and changes nothing but balances.
pub pay_winners-held :
    (d v : ℕ) (ws : List (ℕ × ℕ)) (acc : ℕ) (paid : ℤ) (db db' : Db)
    → PayeesKnown db.users ws
    → stakes ws * d < int64_limit
    → acc + payouts d v ws < int64_limit
    → pay_winners (pos d) (pos v) ws (pos acc) db ≡ ok (paid, db')
    → (paid ≡ pos (acc + payouts d v ws))
      × (held db'.users ≡ held db.users + payouts d v ws)
      × OnlyBalances db db'
unfolding pay_winners
pay_winners-held d v [] acc paid db db' k h r e =
    let same : db' ≡ db = ground arith in
    (ground arith, rw same (omega arith), rw same (OnlyBalances-refl db))
pay_winners-held d v ((u, s) ∷ ws) acc paid db db' k h r e =
    let exact = payout-pos d v s (omega arith) in
    let next = add64-pos acc (s * d / v) (omega arith) in
    elim (Tx-cases (add_balance u (pos (s * d / v)) db)) [
      | inr (x, q) ↦ absurd (ground (arith, exact))
      | inl (mid, q) ↦
          let only = add_balance-OnlyBalances u (pos (s * d / v)) db mid q in
          let (count, sum, rest) =
            pay_winners-held d v ws (acc + s * d / v) paid mid db' (PayeesKnown-keep ws only k.1)
              (omega arith) (omega arith) (ground (arith, exact, next)) in
          (
            rw count (ground arith),
            omega (arith, held-credit u (s * d / v) db mid k.0 q, sum),
            OnlyBalances-trans only rest,
          )
    ]

-- All floors together stay within the share that they divide, and miss less than a unit each.
payouts-mul-le : (d v : ℕ) (ws : List (ℕ × ℕ)) → payouts d v ws * v ≤ stakes ws * d
payouts-mul-le d v [] = omega arith
payouts-mul-le d v ((u, s) ∷ ws) = omega (arith, payouts-mul-le d v ws)

payouts-mul-ge :
    (d v : ℕ) (ws : List (ℕ × ℕ)) → 0 < v → stakes ws * d ≤ payouts d v ws * v + length ws * v
payouts-mul-ge d v [] h = omega arith
payouts-mul-ge d v ((u, s) ∷ ws) h = omega (arith, payouts-mul-ge d v ws h)

mul-le_cancel : (a b v : ℕ) → 0 < v → a * v ≤ b * v → a ≤ b
mul-le_cancel a b v p h = grind arith

-- The winners together are paid no more than the share, and less than one unit a bet is left.
pub payouts_bounds :
    (d v : ℕ) (ws : List (ℕ × ℕ))
    → 0 < v
    → stakes ws ≡ v
    → (payouts d v ws ≤ d) × (d ≤ payouts d v ws + length ws)
payouts_bounds d v ws p e = (
  mul-le_cancel (payouts d v ws) d v p
      (omega (arith, payouts-mul-le d v ws, ap (λ (t : ℕ). t * d) e)),
  mul-le_cancel d (payouts d v ws + length ws) v p
      (omega (arith, payouts-mul-ge d v ws p, ap (λ (t : ℕ). t * d) e)),
)

pub commission-pos : (t : ℕ) → t * 3 < int64_limit → commission (pos t) ≡ pos (t * 3 / 100)
unfolding commission
commission-pos t h = rw (mul64-pos t 3 h) (div64-pos (t * 3) 100 h)

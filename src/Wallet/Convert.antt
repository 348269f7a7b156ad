-- ===== src/Wallet/Convert.antt =====
-- The conversions of wallet-backend/service/service.go between whole reais and micro-USDC. A product
-- is a `big.Int`; the result goes back into an `int64`.
use tchebets_open.Prelude.{ℕ, ◌+◌, ◌*◌, ◌/◌, ◌≤◌, ◌<◌, ◌≡◌, refl, arith, ℤ, pos, negsuc, ◌*ℤ◌, ◌+ℤ◌}
use tchebets_open.Int64.{int64_limit, wrap64, wrap64-pos}

-- `Div` of `big.Int` is Euclidean: it rounds down for a divisor above 0.
abbrev pub div_floor : ℤ → ℕ → ℤ
div_floor (pos n) d = pos (n / d)
div_floor (negsuc n) d = negsuc (n / d)

-- `mulDivRound` for a divisor above 0; it panics for 0, which the configuration excludes.
unfoldable pub mul_div_round : ℤ → ℤ → ℕ → ℤ
mul_div_round a b d = wrap64 (div_floor (a *ℤ b +ℤ pos (d / 2)) d)

abbrev pub micro_square : ℕ
micro_square = 1000000000000

unfoldable pub micro_usdc_to_reais : ℤ → ℕ → ℤ
micro_usdc_to_reais micro rate = mul_div_round micro (pos rate) micro_square

unfoldable pub reais_to_micro_usdc : ℤ → ℕ → ℤ
reais_to_micro_usdc reais rate = mul_div_round reais (pos micro_square) rate

-- Rounding to the nearest, as a plain number.
abbrev pub round_div : ℕ → ℕ → ℕ
round_div n d = (n + d / 2) / d

pub mul_div_round-pos :
    (a b d : ℕ)
    → round_div (a * b) d < int64_limit
    → mul_div_round (pos a) (pos b) d ≡ pos (round_div (a * b) d)
unfolding mul_div_round
mul_div_round-pos a b d h = let exact = wrap64-pos (round_div (a * b) d) h in ground (arith, exact)

-- The nearest multiple, for a divisor below the unit: the rounding errors cancel.
round_trip :
    (r rate m : ℕ)
    → 0 < rate
    → rate < micro_square
    → m ≡ round_div (r * micro_square) rate
    → round_div (m * rate) micro_square ≡ r
round_trip r rate m p h e =
    let n : ℕ = r * micro_square + rate / 2 in
    let low : m * rate ≤ n = rw e (omega arith) in
    let high : n < m * rate + rate = rw e (omega arith) in omega arith

-- A whole number of reais survives the way to micro-USDC and back, at a rate above 0 and below one
-- million reais a dollar, if the amounts are `int64`s.
pub reais_round_trip :
    (r rate : ℕ)
    → 0 < rate
    → rate < micro_square
    → r < int64_limit
    → round_div (r * micro_square) rate < int64_limit
    → micro_usdc_to_reais (reais_to_micro_usdc (pos r) rate) rate ≡ pos r
unfolding micro_usdc_to_reais reais_to_micro_usdc
reais_round_trip r rate p h fits small =
    let m : ℕ = round_div (r * micro_square) rate in
    let back = round_trip r rate m p h refl in
    rw (mul_div_round-pos r micro_square rate small)
      (rw (mul_div_round-pos m rate micro_square (rw back fits)) (rw back refl))

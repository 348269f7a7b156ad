-- ===== src/Int64.antt =====
-- The `int64` arithmetic of Go, which wraps around, and the range of a `BIGINT` column that has a
-- check `>= 0` (bet-backend/db/db.go).
use tchebets_open.Prelude.{
  ℕ, suc, ◌+◌, ◌-◌, ◌*◌, ◌/◌, ◌%◌, ◌^◌, ◌<◌, ◌≡◌, refl, Option, none, some, arith, ltb,
  if◌then◌else◌, ℤ, pos, negsuc, ◌+ℤ◌, ◌-ℤ◌, ◌*ℤ◌, ◌quot◌,
}

abbrev pub int64_limit : ℕ
int64_limit = 2 ^ 63

-- The bit pattern of an integer, and the `int64` of a bit pattern.
to_bits : ℤ → ℕ
to_bits (pos n) = n % 2 ^ 64
to_bits (negsuc n) = 2 ^ 64 - 1 - n % 2 ^ 64

of_bits : ℕ → ℤ
of_bits u = if ltb u int64_limit then pos u else negsuc (2 ^ 64 - 1 - u)

unfoldable pub wrap64 : ℤ → ℤ
unfolding to_bits of_bits
wrap64 z = of_bits (to_bits z)

unfoldable pub add64 : ℤ → ℤ → ℤ
unfolding wrap64
add64 a b = wrap64 (a +ℤ b)

unfoldable pub sub64 : ℤ → ℤ → ℤ
unfolding wrap64
sub64 a b = wrap64 (a -ℤ b)

unfoldable pub mul64 : ℤ → ℤ → ℤ
unfolding wrap64
mul64 a b = wrap64 (a *ℤ b)

-- The quotient leaves the range only for the least integer divided by -1.
unfoldable pub div64 : ℤ → ℤ → ℤ
unfolding wrap64
div64 a b = wrap64 (a quot b)

-- What a `BIGINT CHECK (… >= 0)` column accepts.
abbrev pub to_column : ℤ → Option ℕ
to_column (pos n) = if ltb n int64_limit then some n else none
to_column (negsuc n) = none

pub wrap64-pos : (n : ℕ) → n < int64_limit → wrap64 (pos n) ≡ pos n
unfolding wrap64
wrap64-pos n h = ground arith

pub add64-pos : (a b : ℕ) → a + b < int64_limit → add64 (pos a) (pos b) ≡ pos (a + b)
unfolding add64
add64-pos a b h = ground arith

pub sub64-pos : (a b : ℕ) → b < suc a → a < int64_limit → sub64 (pos a) (pos b) ≡ pos (a - b)
unfolding sub64
sub64-pos a b h k = ground arith

pub mul64-pos : (a b : ℕ) → a * b < int64_limit → mul64 (pos a) (pos b) ≡ pos (a * b)
unfolding mul64
mul64-pos a b h = ground arith

pub div64-pos : (a b : ℕ) → a < int64_limit → div64 (pos a) (pos b) ≡ pos (a / b)
unfolding div64
div64-pos a b h = ground arith

-- 2^62 * 2 wraps to the least `int64`.
mul64_wraps : mul64 (pos (2 ^ 62)) (pos 2) ≡ negsuc (2 ^ 63 - 1)
unfolding mul64
mul64_wraps = refl

pub to_column-some : (z : ℤ) (v : ℕ) → to_column z ≡ some v → (z ≡ pos v) × (v < int64_limit)
to_column-some (pos n) v e = (ground arith, ground arith)
to_column-some (negsuc n) v e = absurd (ground arith)

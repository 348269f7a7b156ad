-- ===== src/General/Percent.antt =====
-- The percentages of a card of general-backend/handlers/viewbuild.go, over what GetMarketDetails of
-- bet-backend answers.
use native.Mathlib.Nat.{div-le_of_le-mul, div-mul-le_self, lt-div-mul-add}
use tchebets_open.Prelude.{
  ℕ, suc, ◌+◌, ◌-◌, ◌*◌, ◌/◌, ◌≤◌, ◌<◌, String, ◌≡◌, refl, ap, ◌⊎◌, inl, inr, none, some, List, [],
  ◌∷◌, ok, arith, str_eq, ◌==◌, ℤ, pos, ltb_ℤ, lookup, Bool-cases, Option-cases, if◌then◌else◌,
  eq_iff,
}
use tchebets_open.Int64.{int64_limit, add64, add64-pos, mul64-pos, div64-pos, sub64-pos}
use tchebets_open.Bet.Models.{Pool, Db}
use tchebets_open.Bet.Statements.{lookup_pool}
use tchebets_open.Bet.Wealth.{pools_in, stake_in, stake_on}
use tchebets_open.Bet.Tables.{Keyed, stake_on-le-stake_in}
use tchebets_open.Bet.Valid.{IsValid}
use tchebets_open.Bet.Details.{
  MarketDetails, set_key, get_key, init_pools, collect_pools, get_market_details,
}
use tchebets_open.General.Views.{pct, key_or_zero, build_market_card}

get_key-set_key :
    (o k : String) (v : ℤ) (kvs : List (String × ℤ))
    → get_key o (set_key k v kvs) ≡ (if str_eq k o then some v else get_key o kvs)
get_key-set_key o k v [] = refl
get_key-set_key o k v ((j, w) ∷ kvs) =
    ground (arith, get_key-set_key o k v kvs, eq_iff j k, eq_iff j o, eq_iff k o)

-- The pools of the outcomes start at 0.
init_pools-zero :
    (o : String) (os : List String) (acc : List (String × ℤ))
    → key_or_zero (get_key o acc) ≡ pos 0
    → key_or_zero (get_key o (init_pools os acc)) ≡ pos 0
unfolding init_pools
init_pools-zero o [] acc h = h
init_pools-zero o (p ∷ os) acc h =
    init_pools-zero o os (set_key p (pos 0) acc) (ground (arith, get_key-set_key o p (pos 0) acc))

-- The loop finds the one pool of an outcome.
collect_pools-value :
    (m : ℕ) (o : String) (ps : List Pool) (kvs : List (String × ℤ)) (t : ℤ)
    → Keyed ps
    → key_or_zero (get_key o (collect_pools m ps (kvs, t)).0)
      ≡ elim (lookup_pool m o ps) [ none ↦ key_or_zero (get_key o kvs) | some n ↦ pos n ]
unfolding collect_pools
collect_pools-value m o [] kvs t k = refl
collect_pools-value m o (p ∷ ps) kvs t k = elim (Bool-cases (m == p.market_id)) [
  | inr e ↦ ground (arith, e, collect_pools-value m o ps kvs t k.1)
  | inl e ↦
      let later =
        collect_pools-value m o ps (set_key p.outcome (pos p.total) kvs) (add64 t (pos p.total))
          k.1 in
      let written = get_key-set_key o p.outcome (pos p.total) kvs in
      elim (Bool-cases (str_eq p.outcome o)) [
        | inr q ↦ ground (arith, e, q, later, written)
        | inl q ↦
            let only : lookup_pool m o ps ≡ none = ground (arith, e, q, k.0, eq_iff p.outcome o) in
            ground (arith, e, q, later, written, only)
      ]
]

-- It adds up the pools of the market, where their sum is an int64.
collect_pools-total :
    (m : ℕ) (ps : List Pool) (kvs : List (String × ℤ)) (t : ℕ)
    → t + pools_in m ps < int64_limit
    → (collect_pools m ps (kvs, pos t)).1 ≡ pos (t + pools_in m ps)
unfolding collect_pools pools_in
collect_pools-total m [] kvs t h = ground arith
collect_pools-total m (p ∷ ps) kvs t h = elim (Bool-cases (m == p.market_id)) [
  | inr e ↦ ground (arith, e, collect_pools-total m ps kvs t)
  | inl e ↦ ground (
    arith,
    e,
    add64-pos t p.total,
    collect_pools-total m ps (set_key p.outcome (pos p.total) kvs) (t + p.total),
  )
]

-- `k` is the percentage that `n` is of `t`, rounded down, and 0 of nothing.
abbrev pub PercentOf : ℕ → ℕ → ℕ → Type 0
PercentOf k n t = ((t ≡ 0) × (k ≡ 0)) ⊎ ((k * t ≤ n * 100) × (n * 100 < suc k * t))

pct-PercentOf :
    (n t : ℕ)
    → n ≤ t
    → t * 100 < int64_limit
    → (k : ℕ) × (k ≤ 100) × (pct (pos n) (pos t) ≡ some (pos k)) × PercentOf k n t
unfolding pct
pct-PercentOf n t h l = elim (Bool-cases (ltb_ℤ (pos 0) (pos t))) [
  | inr e ↦ (0, omega arith, ground (arith, e), inl (ground arith, refl))
  | inl e ↦
      let positive : 0 < t = ground arith in
      let exact = div64-pos (n * 100) t (omega (arith, h, l)) in
      let times = mul64-pos n 100 (omega (arith, h, l)) in
      (
        n * 100 / t,
        div-le_of_le-mul t (omega (arith, h)),
        ground (arith, e, times, exact),
        inr (div-mul-le_self (n * 100) t, omega (arith, lt-div-mul-add {a = n * 100} positive)),
      )
]

-- On valid tables, with a hundred times the pools of the market below 2^63, the first percentage of a
-- card is the part of the market's stakes that is on SIM, rounded down, or 0 if there are none, and
-- the second is what is left of 100; no division by zero panics.
pub market_card-percent :
    {F : Type 0} (zero_odds : F) (ratio : ℤ → ℤ → F) (id : ℕ) (db : Db) (d : MarketDetails F)
    → IsValid db
    → get_market_details zero_odds ratio id db ≡ ok d
    → pools_in id db.pools * 100 < int64_limit
    → (k : ℕ) × (k ≤ 100)
      × PercentOf k (stake_on id "SIM" db.bets) (stake_in id db.bets)
      × ((build_market_card d).sim_pct ≡ some (pos k))
      × ((build_market_card d).nao_pct ≡ some (pos (100 - k)))
unfolding get_market_details build_market_card
market_card-percent zero_odds ratio id db d v e l = elim (Option-cases (lookup id db.markets)) [
  | inl h ↦ absurd (ground (arith, h, e))
  | inr (m, h) ↦
      let start = init_pools m.outcomes [] in
      let n = stake_on id "SIM" db.bets in
      let t = stake_in id db.bets in
      let staked = v.balanced.market_staked id in
      let on = v.balanced.pool_staked id "SIM" in
      let total : (collect_pools id db.pools (start, pos 0)).1 ≡ pos t =
        ground (arith, collect_pools-total id db.pools start 0 (omega (arith, l)), staked) in
      let zero = init_pools-zero "SIM" m.outcomes [] refl in
      let value : key_or_zero (get_key "SIM" (collect_pools id db.pools (start, pos 0)).0) ≡ pos n =
        ground
          (arith, collect_pools-value id "SIM" db.pools start (pos 0) v.balanced.keyed, zero, on) in
      let (k, high, percent, part) =
        pct-PercentOf n t (stake_on-le-stake_in id "SIM" db.bets) (rw staked at l) in
      let pools : d.pools ≡ (collect_pools id db.pools (start, pos 0)).0 = ground (arith, h, e) in
      let sum : d.total_pool ≡ (collect_pools id db.pools (start, pos 0)).1 =
        ground (arith, h, e) in
      let shown : pct (key_or_zero (get_key "SIM" d.pools)) d.total_pool ≡ some (pos k) =
        rw (pools, sum, total, value) percent in
      (
        k,
        high,
        part,
        shown,
        rw shown
            (ap (λ (x : ℤ). some x) (sub64-pos 100 k (omega (arith, high)) (ground (arith, high)))),
      )
]

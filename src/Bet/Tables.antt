-- ===== src/Bet/Tables.antt =====
-- The queries of a settlement against the measures of Bet/Wealth.antt.
use tchebets_open.Prelude.{
  ℕ, ◌+◌, ◌≤◌, ◌<◌, String, ◌≡◌, refl, true, ◌&&◌, Option, none, some, List, [], ◌∷◌, ◌++◌, arith,
  ◌==◌, str_eq, if◌then◌else◌, ℤ, pos, Table, lookup, modify, add_row, eq_iff,
}
use tchebets_open.Int64.{int64_limit, add64-pos}
use tchebets_open.Bet.Models.{User, Market, Pool, Bet}
use tchebets_open.Bet.Statements.{is_some, is_pool, lookup_pool, set_pool}
use tchebets_open.Bet.Market.{market_bets, winning_bets, scan_pools}
use tchebets_open.Bet.Wealth.{stake_in, stake_on, pools_in}
use tchebets_open.Bet.Payout.{stakes, PayeesKnown}

-- The stakes that the two queries return.
pub stakes-market_bets : (m : ℕ) (bets : Table Bet) → stakes (market_bets m bets) ≡ stake_in m bets
unfolding stake_in
stakes-market_bets m [] = refl
stakes-market_bets m ((i, b) ∷ bets) = ground (arith, stakes-market_bets m bets)

pub stakes-winning_bets :
    (m : ℕ) (o : String) (bets : Table Bet) → stakes (winning_bets m o bets) ≡ stake_on m o bets
unfolding stake_on
stakes-winning_bets m o [] = refl
stakes-winning_bets m o ((i, b) ∷ bets) = ground (arith, stakes-winning_bets m o bets)

pub stake_on-le-stake_in :
    (m : ℕ) (o : String) (bets : Table Bet) → stake_on m o bets ≤ stake_in m bets
unfolding stake_on stake_in
stake_on-le-stake_in m o [] = omega arith
stake_on-le-stake_in m o ((i, b) ∷ bets) = ground (arith, stake_on-le-stake_in m o bets)

-- The user and the market of a bet are known: its foreign keys.
abbrev pub BetsKnown : Table User → Table Market → Table Bet → Type 0
BetsKnown users markets [] = Unit
BetsKnown users markets ((i, b) ∷ bets) =
    (is_some (lookup b.user_id users) ≡ true)
    × (is_some (lookup b.market_id markets) ≡ true)
    × BetsKnown users markets bets

-- The foreign keys survive where the users and the markets that were known stay so.
pub BetsKnown-keep :
    (users users' : Table User) (markets markets' : Table Market) (bets : Table Bet)
    → ((j : ℕ) → is_some (lookup j users) ≡ true → is_some (lookup j users') ≡ true)
    → ((j : ℕ) → is_some (lookup j markets) ≡ true → is_some (lookup j markets') ≡ true)
    → BetsKnown users markets bets
    → BetsKnown users' markets' bets
BetsKnown-keep users users' markets markets' [] hu hm k = tt
BetsKnown-keep users users' markets markets' ((i, b) ∷ bets) hu hm k = (
  hu b.user_id k.0,
  hm b.market_id k.1,
  BetsKnown-keep users users' markets markets' bets hu hm k.2,
)

pub BetsKnown-add_row :
    (users : Table User) (markets : Table Market) (i : ℕ) (b : Bet) (bets : Table Bet)
    → is_some (lookup b.user_id users) ≡ true
    → is_some (lookup b.market_id markets) ≡ true
    → BetsKnown users markets bets
    → BetsKnown users markets (add_row i b bets)
BetsKnown-add_row users markets i b [] hu hm k = (hu, hm, tt)
BetsKnown-add_row users markets i b ((j, c) ∷ bets) hu hm k =
    (k.0, k.1, BetsKnown-add_row users markets i b bets hu hm k.2)

pub BetsKnown-set_owner :
    (users : Table User) (markets : Table Market) (i u : ℕ) (bets : Table Bet)
    → is_some (lookup u users) ≡ true
    → BetsKnown users markets bets
    → BetsKnown users markets (modify i (λ b. record b { user_id = u }) bets)
BetsKnown-set_owner users markets i u [] h k = tt
BetsKnown-set_owner users markets i u ((j, b) ∷ bets) h k =
    ground (arith, BetsKnown-set_owner users markets i u bets h k.2)

pub PayeesKnown-market_bets :
    (m : ℕ) (users : Table User) (markets : Table Market) (bets : Table Bet)
    → BetsKnown users markets bets
    → PayeesKnown users (market_bets m bets)
PayeesKnown-market_bets m users markets [] k = tt
PayeesKnown-market_bets m users markets ((i, b) ∷ bets) k =
    ground (arith, PayeesKnown-market_bets m users markets bets k.2)

pub PayeesKnown-winning_bets :
    (m : ℕ) (o : String) (users : Table User) (markets : Table Market) (bets : Table Bet)
    → BetsKnown users markets bets
    → PayeesKnown users (winning_bets m o bets)
PayeesKnown-winning_bets m o users markets [] k = tt
PayeesKnown-winning_bets m o users markets ((i, b) ∷ bets) k =
    ground (arith, PayeesKnown-winning_bets m o users markets bets k.2)

-- The primary key of the pools.
abbrev pub Keyed : List Pool → Type 0
Keyed [] = Unit
Keyed (p ∷ ps) = (lookup_pool p.market_id p.outcome ps ≡ none) × Keyed ps

abbrev pub or_zero : Option ℕ → ℕ
or_zero none = 0
or_zero (some n) = n

abbrev pub pos_or : ℤ → Option ℕ → ℤ
pos_or v none = v
pos_or v (some t) = pos t

-- The loop over pools with unique keys finds their total, where it is an `int64`, and the pool of
-- the winner, if there is one.
pub scan_pools-pos :
    (m : ℕ) (win : String) (ps : List Pool) (t : ℕ) (v : ℤ)
    → Keyed ps
    → t + pools_in m ps < int64_limit
    → scan_pools m win ps (pos t, v) ≡ (pos (t + pools_in m ps), pos_or v (lookup_pool m win ps))
unfolding scan_pools pools_in
scan_pools-pos m win [] t v k h = ground arith
scan_pools-pos m win (p ∷ ps) t v k h = ground (
  arith,
  add64-pos t p.total,
  eq_iff p.outcome win,
  k.0,
  scan_pools-pos m win ps (t + p.total) (pos p.total) k.1,
  scan_pools-pos m win ps (t + p.total) v k.1,
  scan_pools-pos m win ps t v k.1,
)

-- The pools after a write to one of them.
pub lookup-set_pool :
    (m n : ℕ) (o q : String) (t : ℕ) (ps : List Pool)
    → lookup_pool n q (set_pool m o t ps) ≡ (
        if (n == m) && str_eq o q && is_some (lookup_pool m o ps)
        then some t
        else lookup_pool n q ps)
lookup-set_pool m n o q t [] = ground arith
lookup-set_pool m n o q t (p ∷ ps) =
    ground (arith, lookup-set_pool m n o q t ps, eq_iff p.outcome o, eq_iff p.outcome q, eq_iff o q)

pub pools_in-set_pool :
    (m n : ℕ) (o : String) (t v : ℕ) (ps : List Pool)
    → lookup_pool m o ps ≡ some v
    → pools_in n (set_pool m o t ps) + (if n == m then v else 0)
      ≡ pools_in n ps + (if n == m then t else 0)
unfolding pools_in
pools_in-set_pool m n o t v [] e = ground arith
pools_in-set_pool m n o t v (p ∷ ps) e = ground (arith, pools_in-set_pool m n o t v ps)

pub Keyed-set_pool :
    (m : ℕ) (o : String) (t : ℕ) (ps : List Pool) → Keyed ps → Keyed (set_pool m o t ps)
Keyed-set_pool m o t [] k = tt
Keyed-set_pool m o t (p ∷ ps) k = ground (
  arith,
  Keyed-set_pool m o t ps k.1,
  lookup-set_pool m p.market_id o p.outcome t ps,
  eq_iff p.outcome o,
  eq_iff o p.outcome,
  k.0,
)

-- The pools after a new one.
pub lookup-add_pool :
    (n : ℕ) (q : String) (p : Pool) (ps : List Pool)
    → lookup_pool p.market_id p.outcome ps ≡ none
    → lookup_pool n q (ps ++ p ∷ []) ≡ (if is_pool n q p then some p.total else lookup_pool n q ps)
lookup-add_pool n q p [] e = refl
lookup-add_pool n q p (r ∷ ps) e = ground (
  arith,
  lookup-add_pool n q p ps,
  eq_iff p.outcome q,
  eq_iff r.outcome q,
  eq_iff r.outcome p.outcome,
)

pub pools_in-add_pool :
    (n : ℕ) (p : Pool) (ps : List Pool)
    → pools_in n (ps ++ p ∷ []) ≡ pools_in n ps + (if n == p.market_id then p.total else 0)
unfolding pools_in
pools_in-add_pool n p [] = omega arith
pools_in-add_pool n p (r ∷ ps) = omega (arith, pools_in-add_pool n p ps)

pub Keyed-add_pool :
    (p : Pool) (ps : List Pool)
    → lookup_pool p.market_id p.outcome ps ≡ none
    → Keyed ps
    → Keyed (ps ++ p ∷ [])
Keyed-add_pool p [] e k = (refl, tt)
Keyed-add_pool p (r ∷ ps) e k = ground (
  arith,
  Keyed-add_pool p ps,
  lookup-add_pool r.market_id r.outcome p ps,
  eq_iff p.outcome r.outcome,
  eq_iff r.outcome p.outcome,
  k.0,
  k.1,
)

-- ===== src/Bet/Credits.antt =====
-- What the writes to the balances do to the sum of them.
use tchebets_open.Prelude.{
  ℕ, ◌+◌, ◌≡◌, refl, Bool, true, false, some, ok, arith, ◌⊎◌, inl, inr, Option-cases, ℤ, pos, ◌+ℤ◌,
  ◌-ℤ◌, Table, lookup, modify, lookup-modify, total-modify,
}
use tchebets_open.Int64.{to_column}
use tchebets_open.Bet.Models.{User, Db}
use tchebets_open.Bet.Statements.{add_balance, is_some}
use tchebets_open.Bet.Wealth.{held}

abbrev pub known : ℕ → Db → Bool
known id db = is_some (lookup id db.users)

-- `db'` differs from `db` in balances only, and the same users are known.
pub record OnlyBalances (db db' : Db) : Type 0 where
  pub markets : db'.markets ≡ db.markets
  pub pools : db'.pools ≡ db.pools
  pub bets : db'.bets ≡ db.bets
  pub listings : db'.listings ≡ db.listings
  pub users : (j : ℕ) → known j db' ≡ known j db

pub OnlyBalances-refl : (db : Db) → OnlyBalances db db
OnlyBalances-refl db = record {
  markets = refl;
  pools = refl;
  bets = refl;
  listings = refl;
  users = λ j. refl;
}

pub OnlyBalances-trans : {a b c : Db} → OnlyBalances a b → OnlyBalances b c → OnlyBalances a c
OnlyBalances-trans h k = record {
  markets = cc (h.markets, k.markets);
  pools = cc (h.pools, k.pools);
  bets = cc (h.bets, k.bets);
  listings = cc (h.listings, k.listings);
  users = λ j. cc (h.users j, k.users j);
}

set_balance-known :
    (id v j : ℕ) (users : Table User)
    → is_some (lookup j (modify id (λ w. record w { balance = v }) users))
      ≡ is_some (lookup j users)
set_balance-known id v j users =
    ground (arith, lookup-modify id j (λ (w : User). record w { balance = v }) users)

abbrev pub set_balance : ℕ → ℕ → Db → Db
set_balance id v db = record db { users = modify id (λ w. record w { balance = v }) db.users }

set_balance-OnlyBalances : (id v : ℕ) (db : Db) → OnlyBalances db (set_balance id v db)
set_balance-OnlyBalances id v db = record {
  markets = refl;
  pools = refl;
  bets = refl;
  listings = refl;
  users = λ j. set_balance-known id v j db.users;
}

-- A write that succeeds met no row, or put the sum into the column of one.
pub add_balance-cases :
    (id : ℕ) (d : ℤ) (db db' : Db)
    → add_balance id d db ≡ ok (tt, db')
    → ((known id db ≡ false) × (db' ≡ db))
      ⊎ ((u : User) × (v : ℕ) × (lookup id db.users ≡ some u)
          × (to_column (pos u.balance +ℤ d) ≡ some v)
          × (db' ≡ set_balance id v db))
unfolding add_balance
add_balance-cases id d db db' e = elim (Option-cases (lookup id db.users)) [
  | inl a ↦ inl (ground arith)
  | inr (u, a) ↦ elim (Option-cases (to_column (pos u.balance +ℤ d))) [
    | inl b ↦ absurd (ground arith)
    | inr (v, b) ↦ inr (u, v, a, b, ground arith)
  ]
]

pub add_balance-OnlyBalances :
    (id : ℕ) (d : ℤ) (db db' : Db) → add_balance id d db ≡ ok (tt, db') → OnlyBalances db db'
add_balance-OnlyBalances id d db db' e = elim (add_balance-cases id d db db' e) [
  | inl (_, same) ↦ rw same (OnlyBalances-refl db)
  | inr (u, v, _, _, same) ↦ rw same (set_balance-OnlyBalances id v db)
]

held-set_balance :
    (id v : ℕ) (u : User) (db : Db)
    → lookup id db.users ≡ some u
    → held (set_balance id v db).users + u.balance ≡ held db.users + v
unfolding held
held-set_balance id v u db e =
    total-modify (λ (w : User). w.balance) id (λ w. record w { balance = v }) u db.users e

-- A credit of a known user adds to the sum of the balances.
pub held-credit :
    (id n : ℕ) (db db' : Db)
    → known id db ≡ true
    → add_balance id (pos n) db ≡ ok (tt, db')
    → held db'.users ≡ held db.users + n
held-credit id n db db' k e = elim (add_balance-cases id (pos n) db db' e) [
  | inl (unknown, same) ↦ cc
  | inr (u, v, a, b, same) ↦ rw same (ground (arith, held-set_balance id v u db a))
]

-- A debit takes off the sum.
pub held-debit :
    (id n : ℕ) (db db' : Db)
    → known id db ≡ true
    → add_balance id (pos 0 -ℤ pos n) db ≡ ok (tt, db')
    → held db'.users + n ≡ held db.users
held-debit id n db db' k e = elim (add_balance-cases id (pos 0 -ℤ pos n) db db' e) [
  | inl (unknown, same) ↦ cc
  | inr (u, v, a, b, same) ↦ rw same (ground (arith, held-set_balance id v u db a))
]

pub known_of_lookup :
    (id : ℕ) (u : User) (db : Db) → lookup id db.users ≡ some u → known id db ≡ true
known_of_lookup id u db e = rw e

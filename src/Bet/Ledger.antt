-- ===== src/Bet/Ledger.antt =====
-- `AdjustBalance` and `SyncUser`: money that enters or leaves from outside.
use tchebets_open.Prelude.{
  ℕ, suc, ◌+◌, ◌-◌, ◌<◌, ◌≤◌, ◌≡◌, ◌∙◌, ◌⊎◌, Bool-cases, ltb, ltb_ℤ, ◌+ℤ◌, Result, lookup-le-total,
  refl, true, Option, none, some, ok, err, inl, inr, Option-cases, arith, ℤ, pos, negsuc, pos_part,
  neg_part, lookup, modify, add_row, lookup-modify, lookup-add_row, total-modify, total-add_row,
}
use tchebets_open.Int64.{int64_limit, add64, to_column}
use tchebets_open.Bet.Models.{User, Db}
use tchebets_open.Bet.Errors.{BetError, insufficient_balance}
use tchebets_open.Bet.Market.{adjust_balance}
use tchebets_open.Bet.Create.{upsert_user, sync_user}
use tchebets_open.Bet.Wealth.{wealth, held}
use tchebets_open.Bet.Valid.{IsValid}
use tchebets_open.Bet.Keeps.{Kept-IsValid}

abbrev pub with_balance : ℕ → ℕ → Db → Db
with_balance id v db = record db { users = modify id (λ w. record w { balance = v }) db.users }

pub held-with_balance :
    (id v : ℕ) (u : User) (db : Db)
    → lookup id db.users ≡ some u
    → held (with_balance id v db).users + u.balance ≡ held db.users + v
unfolding held
held-with_balance id v u db e =
    total-modify (λ (w : User). w.balance) id (λ w. record w { balance = v }) u db.users e

with_balance-IsValid : (id v : ℕ) (db : Db) → IsValid db → IsValid (with_balance id v db)
with_balance-IsValid id v db h =
    Kept-IsValid db (with_balance id v db)
      (record {
        users = λ j k.
            ground (arith, lookup-modify id j (λ (w : User). record w { balance = v }) db.users);
        markets = λ j k. k;
        outcomes = λ j k l. (k, l, refl);
      })
      refl refl h

balance-bound :
    (id : ℕ) (u : User) (db : Db)
    → lookup id db.users ≡ some u
    → held db.users < int64_limit
    → u.balance < int64_limit
unfolding held
balance-bound id u db q h = omega (arith, lookup-le-total (λ (w : User). w.balance) id u db.users q)

held-new_user :
    (now id v : ℕ) (db : Db)
    → held (add_row id (record { balance = v; created_at = now }) db.users) ≡ held db.users + v
unfolding held
held-new_user now id v db =
    total-add_row (λ (w : User). w.balance) id (record { balance = v; created_at = now }) db.users

-- What `AdjustBalance` answers, by the exact sum of the balance and the delta.
abbrev pub adjusted : ℕ → Option ℕ → Db → Result BetError ℤ × Db
adjusted id none db = (err insufficient_balance, db)
adjusted id (some v) db = (ok (pos v), with_balance id v db)

add64-column :
    (b : ℕ) (delta : ℤ)
    → b < int64_limit
    → neg_part delta ≤ int64_limit
    → pos_part delta < int64_limit
    → (to_column (pos b +ℤ delta) ≡ none) × (ltb_ℤ (add64 (pos b) delta) (pos 0) ≡ true)
      ⊎ (add64 (pos b) delta ≡ pos b +ℤ delta)
        × ((v : ℕ) × (pos b +ℤ delta ≡ pos v) × (v < int64_limit))
unfolding add64
add64-column b (pos d) h n p = elim (Bool-cases (ltb (b + d) int64_limit)) [
  | inl q ↦ inr (ground arith, (b + d, ground arith, ground arith))
  | inr q ↦ inl (ground arith, ground arith)
]
add64-column b (negsuc d) h n p = elim (Bool-cases (ltb d b)) [
  | inl q ↦ inr (ground arith, (b - suc d, ground arith, ground arith))
  | inr q ↦ inl (ground arith, ground arith)
]

-- On a known user whose balance is an `int64`, `AdjustBalance` writes and returns the sum of the
-- balance and the delta if that lies between 0 and the largest `int64`. Any other sum, also one that
-- wraps around, is refused as an insufficient balance, and nothing is written.
pub adjust_exact :
    (id : ℕ) (delta : ℤ) (u : User) (db : Db)
    → lookup id db.users ≡ some u
    → u.balance < int64_limit
    → neg_part delta ≤ int64_limit
    → pos_part delta < int64_limit
    → adjust_balance id delta db ≡ adjusted id (to_column (pos u.balance +ℤ delta)) db
unfolding adjust_balance
adjust_exact id delta u db q h n p = elim (add64-column u.balance delta h n p) [
  | inl (a, b) ↦ ground (arith, a, b)
  | inr (a, (v, b, c)) ↦
      let sum : add64 (pos u.balance) delta ≡ pos v = a ∙ b in ground (arith, sum, b)
]

-- An adjustment that succeeds moves exactly its delta, an `int64`, into the money that the tables
-- hold, if that was an `int64`.
pub adjust_moves :
    (id : ℕ) (delta new : ℤ) (db db' : Db)
    → wealth db < int64_limit
    → neg_part delta ≤ int64_limit
    → pos_part delta < int64_limit
    → adjust_balance id delta db ≡ (ok new, db')
    → wealth db' + neg_part delta ≡ wealth db + pos_part delta
unfolding wealth
adjust_moves id delta new db db' h n p e = elim (Option-cases (lookup id db.users)) [
  | inl q ↦ absurd (unfold adjust_balance in ground arith)
  | inr (u, q) ↦
      let exact = adjust_exact id delta u db q (balance-bound id u db q (omega arith)) n p in
      elim (Option-cases (to_column (pos u.balance +ℤ delta))) [
        | inl r ↦ absurd (ground (arith, exact))
        | inr (v, r) ↦
            let same : db' ≡ with_balance id v db = ground (arith, exact) in
            rw same (ground (arith, held-with_balance id v u db q))
      ]
]

pub adjust-IsValid :
    (id : ℕ) (delta new : ℤ) (db db' : Db)
    → IsValid db
    → adjust_balance id delta db ≡ (ok new, db')
    → IsValid db'
unfolding adjust_balance
adjust-IsValid id delta new db db' h e = elim (Option-cases (lookup id db.users)) [
  | inl q ↦ absurd (ground arith)
  | inr (u, q) ↦ elim (Option-cases (to_column (add64 (pos u.balance) delta))) [
    | inl r ↦ absurd (ground arith)
    | inr (v, r) ↦
        let same : db' ≡ with_balance id v db = ground arith in
        rw same (with_balance-IsValid id v db h)
  ]
]

abbrev pub balance_of : Option User → ℕ
balance_of none = 0
balance_of (some u) = u.balance

-- `SyncUser` with a balance in range replaces what the user had, or nothing, by that balance.
pub sync_moves :
    (now id v : ℕ) (db : Db)
    → v < int64_limit
    → wealth (sync_user now id (pos v) db).1 + balance_of (lookup id db.users) ≡ wealth db + v
unfolding sync_user wealth
sync_moves now id v db h = elim (Option-cases (lookup id db.users)) [
  | inl q ↦ ground (arith, held-new_user now id v db, q)
  | inr (u, q) ↦ ground (arith, held-with_balance id v u db q, q)
]

new_user-IsValid :
    (now id v : ℕ) (db : Db)
    → lookup id db.users ≡ none
    → IsValid db
    → IsValid (record db { users = add_row id (record { balance = v; created_at = now }) db.users })
new_user-IsValid now id v db q h =
    let row : User = record { balance = v; created_at = now } in
    Kept-IsValid db (record db { users = add_row id row db.users })
      (record {
        users = λ j k. ground (arith, lookup-add_row id j row db.users q);
        markets = λ j k. k;
        outcomes = λ j k l. (k, l, refl);
      })
      refl refl h

pub upsert-IsValid : (now id v : ℕ) (db : Db) → IsValid db → IsValid (upsert_user now id v db)
upsert-IsValid now id v db h = elim (Option-cases (lookup id db.users)) [
  | inl q ↦
      let same : upsert_user now id v db
          ≡ record db { users = add_row id (record { balance = v; created_at = now }) db.users } =
        ground arith in
      rw same (new_user-IsValid now id v db q h)
  | inr (u, q) ↦
      let same : upsert_user now id v db ≡ with_balance id v db = ground arith in
      rw same (with_balance-IsValid id v db h)
]

pub sync-IsValid :
    (now id : ℕ) (balance : ℤ) (db : Db) → IsValid db → IsValid (sync_user now id balance db).1
unfolding sync_user
sync-IsValid now id balance db h = elim (Option-cases (to_column balance)) [
  | inl q ↦ let same : (sync_user now id balance db).1 ≡ db = ground arith in rw same h
  | inr (v, q) ↦
      let same : (sync_user now id balance db).1 ≡ upsert_user now id v db = ground arith in
      rw same (upsert-IsValid now id v db h)
]

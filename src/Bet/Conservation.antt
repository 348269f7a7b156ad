-- ===== src/Bet/Conservation.antt =====
-- No sequence of requests makes or loses money, or breaks the tables.
use tchebets_open.Prelude.{
  ℕ, ◌+◌, ◌*◌, ◌<◌, ◌≤◌, String, ◌≡◌, refl, none, some, List, [], ◌∷◌, Result, ok, err, ◌⊎◌, inl,
  inr, Option-cases, Bool-cases, arith, ℤ, pos_part, neg_part, Table, lookup, length,
}
use tchebets_open.Int64.{int64_limit, to_column, to_column-some}
use tchebets_open.Bet.Models.{BetListing, Db}
use tchebets_open.Bet.Errors.{BetError}
use tchebets_open.Bet.Market.{
  place_bet_tx, place_bet, lock_market, refund_market_internal, cancel_market, resolve_market,
  resolve_tx, adjust_balance, lock_tx, refund_tx, adjust_tx,
}
use tchebets_open.Bet.Create.{create_tx, create_market, sync_user}
use tchebets_open.Bet.Listing.{
  list_tx, list_bet_for_sale, cancel_listing, buy_listed_bet, invalidate_stale_listing,
  set_cancelled,
}
use tchebets_open.Bet.Wealth.{wealth, pools_in}
use tchebets_open.Bet.Inversion.{in_tx-err, Run-cases}
use tchebets_open.Bet.Valid.{IsValid}
use tchebets_open.Bet.Place.{place_bet_conserves}
use tchebets_open.Bet.PlaceValid.{place_bet-IsValid}
use tchebets_open.Bet.Refund.{refund_conserves}
use tchebets_open.Bet.Resolve.{resolve_conserves}
use tchebets_open.Bet.Lifecycle.{lock_conserves, lock-IsValid, refund-IsValid, resolve-IsValid}
use tchebets_open.Bet.CreateValid.{create-Created}
use tchebets_open.Bet.CreateLaws.{create_conserves, create-IsValid}
use tchebets_open.Bet.Ledger.{adjust_moves, adjust-IsValid, sync_moves, sync-IsValid, balance_of}
use tchebets_open.Bet.Sale.{list-Listed, buy_conserves, buy-IsValid}
use tchebets_open.Bet.Keeps.{Kept-IsValid}
use tchebets_open.Bet.History.{
  Request, create, place, lock, resolve, cancel, adjust, sync, list_bet, unlist, buy, step, run,
  accepted, inflow, outflow, Fits, AllFit, total_inflow, total_outflow,
}

abbrev Answer : Type 0 → Type 0
Answer A = Result BetError A × Db

Answer-cases :
    {A : Type 0} (p : Answer A)
    → ((a : A) × (db : Db) × (p ≡ (ok a, db))) ⊎ ((x : BetError) × (db : Db) × (p ≡ (err x, db)))
Answer-cases (ok a, db) = inl (a, db, refl)
Answer-cases (err x, db) = inr (x, db, refl)

-- The money and the validity after a request that neither brings nor takes money.
abbrev Same : Db → Db → Type 0
Same db db' = (wealth db' ≡ wealth db) × IsValid db'

keep :
    {A : Type 0} (p : Answer A) (db : Db)
    → IsValid db
    → ((a : A) (db' : Db) → p ≡ (ok a, db') → Same db db')
    → ((x : BetError) (db' : Db) → p ≡ (err x, db') → db' ≡ db)
    → Same db p.1
keep p db v good bad = elim (Answer-cases p) [
  | inl (a, db', e) ↦ rw e (good a db' e)
  | inr (x, db', e) ↦ rw e (rw (bad x db' e) (refl, v))
]

keep_place :
    (now b u m : ℕ) (o : String) (stake : ℤ) (db : Db)
    → IsValid db
    → Same db (place_bet b now u m o stake db).1
keep_place now b u m o stake db v =
    keep (place_bet b now u m o stake db) db v
      (λ a db' e. (
        place_bet_conserves b now u m o stake a db db' e,
        place_bet-IsValid b now u m o stake a db db' v e,
      ))
      (λ x db' e. unfold place_bet in in_tx-err (place_bet_tx b now u m o stake) db db' x e)

keep_lock : (now m : ℕ) (db : Db) → IsValid db → Same db (lock_market now m db).1
keep_lock now m db v =
    keep (lock_market now m db) db v
      (λ a db' e. (lock_conserves now m db db' e, lock-IsValid now m db db' v e))
      (λ x db' e. unfold lock_market in in_tx-err (lock_tx now m) db db' x e)

refund_err :
    (now m : ℕ) (x : BetError) (db db' : Db)
    → refund_market_internal now m db ≡ (err x, db')
    → db' ≡ db
unfolding refund_market_internal
refund_err now m x db db' e = in_tx-err (refund_tx now m) db db' x e

keep_cancel : (now m : ℕ) (db : Db) → IsValid db → Same db (cancel_market now m db).1
unfolding cancel_market
keep_cancel now m db v =
    keep (refund_market_internal now m db) db v
      (λ a db' e. (refund_conserves now m db db' v.balanced e, refund-IsValid now m db db' v e))
      (λ x db' e. refund_err now m x db db' e)

resolve_err :
    (now m : ℕ) (win : String) (db : Db) (x : BetError) (db' : Db)
    → resolve_market now m win db ≡ (err x, db')
    → db' ≡ db
unfolding resolve_market
resolve_err now m win db x db' e = elim (Run-cases (resolve_tx now m win db)) [
  | inr (y, q) ↦ ground arith
  | inl (found, mid, q) ↦ elim (Bool-cases found) [
    | inl w ↦ absurd (ground arith)
    | inr w ↦ refund_err now m x db db' (ground arith)
  ]
]

keep_resolve :
    (now m : ℕ) (win : String) (db : Db)
    → IsValid db
    → pools_in m db.pools * pools_in m db.pools < int64_limit
    → Same db (resolve_market now m win db).1
keep_resolve now m win db v small =
    keep (resolve_market now m win db) db v
      (λ a db' e.
        (resolve_conserves now m win db db' v small e, resolve-IsValid now m win db db' v small e))
      (resolve_err now m win db)

keep_create :
    (now m : ℕ) (ids : ℕ → ℕ) (q : String) (os : List String) (seed : ℤ) (db : Db)
    → IsValid db
    → pos_part seed * length os < int64_limit
    → Same db (create_market m ids now q os seed db).1
keep_create now m ids q os seed db v small =
    keep (create_market m ids now q os seed db) db v
      (λ k db' e.
        let (n, mid, same, c) = create-Created m ids now q os seed k db db' e in
        let e' = rw same at e in
        let small' : n * length os < int64_limit = ground (arith, small, same) in
        (
          create_conserves m ids now q os n k db db' v small' e',
          create-IsValid m ids now q os n k db db' v small' e',
        ))
      (λ x db' e. unfold create_market in in_tx-err (create_tx m ids now q os seed) db db' x e)

-- The requests on listings leave the other tables alone, or change a bet's owner by a sale.
record OnlyListings (db db' : Db) : Type 0 where
  listings : Table BetListing
  result : db' ≡ record db { listings = listings }

OnlyListings-Same : (db db' : Db) → IsValid db → OnlyListings db db' → Same db db'
unfolding wealth
OnlyListings-Same db db' v o = rw o.result (
  refl,
  Kept-IsValid db (record db { listings = o.listings })
      (record { users = λ j h. h; markets = λ j h. h; outcomes = λ j k l. (k, l, refl) }) refl refl
      v,
)

keep_list :
    (l now b s : ℕ) (price : ℤ) (db : Db)
    → IsValid db
    → Same db (list_bet_for_sale l now b s price db).1
keep_list l now b s price db v =
    keep (list_bet_for_sale l now b s price db) db v
      (λ d db' e.
        let (n, _, r) = list-Listed l now b s price d db db' e in
        OnlyListings-Same db db' v (record { listings = _; result = r.offered.result }))
      (λ x db' e. unfold list_bet_for_sale in in_tx-err (list_tx l now b s price) db db' x e)

unlist-OnlyListings : (now l s : ℕ) (db : Db) → OnlyListings db (cancel_listing now l s db).1
unfolding cancel_listing set_cancelled
unlist-OnlyListings now l s db = record {
  listings = (cancel_listing now l s db).1.listings;
  result = ground arith;
}

buy_err :
    (now l b : ℕ) (db : Db) (x : BetError) (db' : Db)
    → buy_listed_bet now l b db ≡ (err x, db')
    → OnlyListings db db'
unfolding buy_listed_bet invalidate_stale_listing set_cancelled
buy_err now l b db x db' e = record { listings = db'.listings; result = ground arith }

keep_buy : (now l b : ℕ) (db : Db) → IsValid db → Same db (buy_listed_bet now l b db).1
keep_buy now l b db v = elim (Answer-cases (buy_listed_bet now l b db)) [
  | inl (d, db', e) ↦ rw e (buy_conserves now l b d db db' e, buy-IsValid now l b d db db' v e)
  | inr (x, db', e) ↦ rw e (OnlyListings-Same db db' v (buy_err now l b db x db' e))
]

adjust_conserves :
    (u : ℕ) (delta : ℤ) (db : Db)
    → IsValid db
    → (wealth db < int64_limit) × (neg_part delta ≤ int64_limit) × (pos_part delta < int64_limit)
    → IsValid (adjust_balance u delta db).1
      × (wealth (adjust_balance u delta db).1
            + accepted (adjust_balance u delta db).0 (neg_part delta)
          ≡ wealth db + accepted (adjust_balance u delta db).0 (pos_part delta))
adjust_conserves u delta db v (h, n, p) = elim (Answer-cases (adjust_balance u delta db)) [
  | inl (new, db', e) ↦
      rw e (adjust-IsValid u delta new db db' v e, adjust_moves u delta new db db' h n p e)
  | inr (x, db', e) ↦
      let same : db' ≡ db = unfold adjust_balance in in_tx-err (adjust_tx u delta) db db' x e in
      rw e (rw same (v, refl))
]

sync_conserves :
    (now u : ℕ) (balance : ℤ) (db : Db)
    → IsValid db
    → IsValid (sync_user now u balance db).1
      × (wealth (sync_user now u balance db).1
            + elim (to_column balance) [ none ↦ 0 | some v ↦ balance_of (lookup u db.users) ]
          ≡ wealth db + elim (to_column balance) [ none ↦ 0 | some v ↦ v ])
sync_conserves now u balance db v = (
  sync-IsValid now u balance db v,
  elim (Option-cases (to_column balance)) [
    | inl q ↦
        let same : (sync_user now u balance db).1 ≡ db = unfold sync_user in ground arith in
        ground (arith, same, q)
    | inr (b, q) ↦
        let (exact, fits) = to_column-some balance b q in
        ground (arith, sync_moves now u b db fits, exact, q)
  ],
)

-- A request keeps the tables valid, and the money in balances and open stakes changes by what it
-- brings in and takes out, where the `int64` arithmetic on it is exact.
pub step_conserves :
    (now : ℕ) (r : Request) (db : Db)
    → IsValid db
    → Fits r db
    → IsValid (step now r db)
      × (wealth (step now r db) + outflow now r db ≡ wealth db + inflow now r db)
unfolding step inflow outflow
step_conserves now (create m ids q os seed) db v f =
    let (same, valid) = keep_create now m ids q os seed db v f in (valid, omega (arith, same))
step_conserves now (place b u m o stake) db v f =
    let (same, valid) = keep_place now b u m o stake db v in (valid, omega (arith, same))
step_conserves now (lock m) db v f =
    let (same, valid) = keep_lock now m db v in (valid, omega (arith, same))
step_conserves now (resolve m win) db v f =
    let (same, valid) = keep_resolve now m win db v f in (valid, omega (arith, same))
step_conserves now (cancel m) db v f =
    let (same, valid) = keep_cancel now m db v in (valid, omega (arith, same))
step_conserves now (adjust u delta) db v f = adjust_conserves u delta db v f
step_conserves now (sync u balance) db v f = sync_conserves now u balance db v
step_conserves now (list_bet l b s price) db v f =
    let (same, valid) = keep_list l now b s price db v in (valid, omega (arith, same))
step_conserves now (unlist l s) db v f =
    let (same, valid) = OnlyListings-Same db _ v (unlist-OnlyListings now l s db) in
    (valid, omega (arith, same))
step_conserves now (buy l b) db v f =
    let (same, valid) = keep_buy now l b db v in (valid, omega (arith, same))

-- From valid tables, over any sequence of requests, accepted or refused: the tables stay valid, and
-- the balances and open stakes at the end are those at first and what AdjustBalance and SyncUser
-- brought in, less what they took out. The bounds, on the tables that each request meets: the seeds of
-- a creation, the seed times the number of outcomes, are below 2^63; the square of the pools of a
-- market that is resolved is below 2^63; and for AdjustBalance the delta is an int64, and all balances
-- and open stakes together are below 2^63.
pub run_conserves :
    (rs : List (ℕ × Request)) (db : Db)
    → IsValid db
    → AllFit rs db
    → IsValid (run rs db)
      × (wealth (run rs db) + total_outflow rs db ≡ wealth db + total_inflow rs db)
unfolding run total_inflow total_outflow
run_conserves [] db v f = (v, refl)
run_conserves ((now, r) ∷ rs) db v f =
    let (valid, one) = step_conserves now r db v f.0 in
    let (last, rest) = run_conserves rs (step now r db) valid f.1 in
    (last, omega (arith, one, rest))

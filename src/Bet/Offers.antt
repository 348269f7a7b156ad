-- ===== src/Bet/Offers.antt =====
-- Whatever requests come, what bet-backend has for sale is a bet of the seller in an open market.
use tchebets_open.Prelude.{
  ℕ, ◌≡◌, refl, some, List, [], ◌∷◌, Result, ok, err, ◌⊎◌, inl, inr, ℤ, pos, ◌-ℤ◌, arith,
  Option-cases, Bool-cases, lookup, modify, if◌then◌else◌, ◌==◌,
}
use tchebets_open.Bet.Models.{Bet, BetListing, Db, cancelled, sold, is_listed, is_open}
use tchebets_open.Bet.Errors.{
  ◌>>=◌, ◌>>◌, BetError, pure, in_tx, guard, db_error, listing_not_found, not_listing_owner,
  listing_not_active,
}
use tchebets_open.Bet.Market.{cancel_market}
use tchebets_open.Bet.Listing.{
  list_bet_for_sale, list_tx, new_listing, cancel_listing, set_cancelled, invalidate_stale_listing,
  select_listing, buy_listed_bet, buy_tx, report_stale,
}
use tchebets_open.Bet.Credits.{add_balance-OnlyBalances}
use tchebets_open.Bet.Inversion.{Run-cases}
use tchebets_open.Bet.Sale.{Bought, buy-Bought, list-Listed}
use tchebets_open.Bet.Backing.{
  AllBacked, Carried, Carried-AllBacked, Carried-refl, Carried-trans, Carried-same,
  Carried-withdrawn, Carried-sold, AllBacked-add_row,
}
use tchebets_open.Bet.History.{
  Request, create, place, lock, resolve, cancel, adjust, sync, list_bet, unlist, buy, step, run,
}
use tchebets_open.Bet.Carries.{
  in_tx-Carried, in_tx-done, place-Carried, create-Carried, lock-Carried, refund-Carried,
  resolve-Carried, adjust-Carried, sync-Carried,
}

abbrev withdrawn : ℕ → BetListing → BetListing
withdrawn now l = record l { status = cancelled; cancelled_at = some now }

unlist-Carried : (now id s : ℕ) (db : Db) → Carried db (cancel_listing now id s db).1
unfolding cancel_listing set_cancelled
unlist-Carried now id s db =
    in_tx-Carried
      (do
        l ← select_listing id listing_not_found
        guard (l.seller_id == s) not_listing_owner
        guard (is_listed l.status) listing_not_active
        set_cancelled now id)
      db
      (λ r db' e.
        let same : db' ≡ record db { listings = modify id (withdrawn now) db.listings } =
          ground arith in
        rw same (Carried-withdrawn id (withdrawn now) db (λ l. refl)))

stale-Carried : (now id : ℕ) (db : Db) → Carried db (invalidate_stale_listing now id db).1
unfolding invalidate_stale_listing set_cancelled
stale-Carried now id db =
    in_tx-Carried
      (do
        l ← select_listing id db_error
        if is_listed l.status then set_cancelled now id else pure tt)
      db
      (λ r db' e.
        let cases : (db' ≡ record db { listings = modify id (withdrawn now) db.listings })
            ⊎ (db' ≡ db) =
          ground arith in
        elim cases [
          | inl same ↦ rw same (Carried-withdrawn id (withdrawn now) db (λ l. refl))
          | inr same ↦ rw same (Carried-refl db)
        ])

abbrev bought_by : (now buyer : ℕ) → BetListing → BetListing
bought_by now buyer k = record k { status = sold; buyer_id = some buyer; sold_at = some now }

sale-Carried :
    (now id buyer : ℕ) (l : BetListing) (db paid credited db' : Db)
    → AllBacked db
    → Bought now id buyer l db paid credited db'
    → Carried db db'
sale-Carried now id buyer l db paid credited db' v b =
    let first = add_balance-OnlyBalances buyer (pos 0 -ℤ pos l.asking_price) db paid b.debit in
    let second = add_balance-OnlyBalances l.seller_id (pos l.asking_price) paid credited b.credit in
    let given : Bet → Bet = λ c. record c { user_id = buyer } in
    let last = record db {
      bets = modify l.bet_id given db.bets;
      listings = modify id (bought_by now buyer) db.listings;
    } in
    Carried-trans
      (Carried-sold id (bought_by now buyer) given l db v (b.is_listing, b.active) (λ k. refl))
      (Carried-same last db' (ground (arith, b.result, first.listings, second.listings))
        (ground (arith, b.result, first.bets, second.bets))
        (ground (arith, b.result, first.markets, second.markets)))

report_stale-tables : (p : Result BetError (Unit {0}) × Db) → (report_stale p).1 ≡ p.1
report_stale-tables (ok _, db) = refl
report_stale-tables (err e, db) = refl

buy-Carried :
    (now id buyer : ℕ) (db : Db) → AllBacked db → Carried db (buy_listed_bet now id buyer db).1
unfolding buy_listed_bet
buy-Carried now id buyer db v = elim (Option-cases (lookup id db.listings)) [
  | inl q ↦ rw (q, buy_listed_bet) (Carried-refl db)
  | inr (l, q) ↦ elim (Option-cases (lookup l.market_id db.markets)) [
    | inl r ↦ rw (q, r, buy_listed_bet) (Carried-refl db)
    | inr (m, r) ↦ elim (Bool-cases (is_open m.status)) [
      | inl o ↦
          rw (q, r, o, buy_listed_bet)
            (in_tx-Carried (buy_tx now id buyer l) db (λ d db' e.
              let (k, paid, credited, b) =
                buy-Bought now id buyer d db db' (rw (q, r, o, e, in_tx, buy_listed_bet) refl) in
              sale-Carried now id buyer k db paid credited db' v b))
      | inr o ↦
          rw (q, r, o, report_stale-tables (invalidate_stale_listing now id db), buy_listed_bet)
            (stale-Carried now id db)
    ]
  ]
]

pub list-AllBacked :
    (id now bet_id seller : ℕ) (price : ℤ) (db : Db)
    → AllBacked db
    → AllBacked (list_bet_for_sale id now bet_id seller price db).1
unfolding list_bet_for_sale
list-AllBacked id now bet_id seller price db v =
    elim (Run-cases (list_tx id now bet_id seller price db)) [
      | inr (x, q) ↦ rw (q, in_tx, list_bet_for_sale) v
      | inl (d, db', q) ↦
          let (n, _, o) =
            list-Listed id now bet_id seller price d db db'
              (in_tx-done (list_tx id now bet_id seller price) db db' d q) in
          let row = new_listing now bet_id o.bet.market_id seller n in
          rw (q, in_tx, list_bet_for_sale, o.offered.result)
            (AllBacked-add_row id row db o.offered.fresh o.offered.only v (record {
              bet = o.bet;
              market = o.market;
              is_bet = o.is_bet;
              owned = o.owned;
              in_market = refl;
              is_market = o.is_market;
              market_open = o.market_open;
              no_house = o.no_house;
            }))
    ]

step-AllBacked : (now : ℕ) (r : Request) (db : Db) → AllBacked db → AllBacked (step now r db)
unfolding step cancel_market
step-AllBacked now (create m ids q os seed) db v =
    Carried-AllBacked db (step now (create m ids q os seed) db)
      (create-Carried m ids now q os seed db) v
step-AllBacked now (place b u m o stake) db v =
    Carried-AllBacked db (step now (place b u m o stake) db) (place-Carried b now u m o stake db) v
step-AllBacked now (lock m) db v =
    Carried-AllBacked db (step now (lock m) db) (lock-Carried now m db) v
step-AllBacked now (resolve m win) db v =
    Carried-AllBacked db (step now (resolve m win) db) (resolve-Carried now m win db) v
step-AllBacked now (cancel m) db v =
    Carried-AllBacked db (step now (cancel m) db) (refund-Carried now m db) v
step-AllBacked now (adjust u delta) db v =
    Carried-AllBacked db (step now (adjust u delta) db) (adjust-Carried u delta db) v
step-AllBacked now (sync u balance) db v =
    Carried-AllBacked db (step now (sync u balance) db) (sync-Carried now u balance db) v
step-AllBacked now (list_bet l b s price) db v = list-AllBacked l now b s price db v
step-AllBacked now (unlist l s) db v =
    Carried-AllBacked db (step now (unlist l s) db) (unlist-Carried now l s db) v
step-AllBacked now (buy l b) db v =
    Carried-AllBacked db (step now (buy l b) db) (buy-Carried now l b db v) v

-- From tables where each listing for sale is of a bet of its seller, not the house, in an open market,
-- and no bet is for sale twice, any sequence of requests, accepted or refused, leads to such tables,
-- whatever the arithmetic yields.
pub run-AllBacked : (rs : List (ℕ × Request)) (db : Db) → AllBacked db → AllBacked (run rs db)
unfolding run
run-AllBacked [] db v = v
run-AllBacked ((now, r) ∷ rs) db v = run-AllBacked rs (step now r db) (step-AllBacked now r db v)

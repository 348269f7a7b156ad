-- ===== src/Bet/Sale.antt =====
-- `BuyListedBet`: what a sale has done.
use tchebets_open.Prelude.{
  ℕ, ◌<◌, ◌≤◌, ◌≡◌, ◌≢◌, refl, ◌∙◌, sym, true, some, ok, inl, inr, Option-cases, Bool-cases, arith,
  ltb, ℤ, pos, negsuc, ap, ◌-ℤ◌, Table, lookup, modify, total-keep,
}
use tchebets_open.Bet.Models.{
  Market, User, Bet, BetListing, BetListingDetails, sold, Db, house_user_id, is_open, is_listed,
}
use tchebets_open.Bet.Statements.{add_balance, insert_listing}
use tchebets_open.Bet.Frames.{Offered, insert_listing-Offered}
use tchebets_open.Bet.Listing.{
  new_listing, list_bet_for_sale, select_buyer, transfer_bet, buy_tx, buy_listed_bet,
}
use tchebets_open.Bet.Wealth.{wealth, at_stake-modify, stake_in, stake_on, stake_if_in, stake_if_on}
use tchebets_open.Bet.Credits.{
  known, OnlyBalances, add_balance-OnlyBalances, held-credit, held-debit, known_of_lookup,
}
use tchebets_open.Bet.Inversion.{Tx-cases, Run-cases}
use tchebets_open.Bet.Tables.{BetsKnown-set_owner}
use tchebets_open.Bet.Valid.{IsValid}
use tchebets_open.Bet.Keeps.{Kept-IsValid, OnlyBalances-Kept}

-- The two readings under locks find both users, whatever their order.
select_buyer-ok :
    (b s : ℕ) (u : User) (db db' : Db)
    → select_buyer b s db ≡ ok (u, db')
    → (lookup b db.users ≡ some u) × (known s db ≡ true) × (db' ≡ db)
unfolding select_buyer
select_buyer-ok b s u db db' e = elim (Option-cases (lookup b db.users)) [
  | inl q ↦ absurd (ground arith)
  | inr (x, q) ↦ elim (Option-cases (lookup s db.users)) [
    | inl r ↦ absurd (ground arith)
    | inr (y, r) ↦ elim (Bool-cases (ltb s b)) [
      | inl o ↦ (ground arith, ground arith, ground arith)
      | inr o ↦ (ground arith, ground arith, ground arith)
    ]
  ]
]

-- An accepted offer: the seller owns the bet, the market is open.
pub record Listed (id now bet_id seller : ℕ) (d : BetListingDetails) (n : ℕ) (db db' : Db)
    : Type 0 where
  pub bet : Bet
  pub market : Market
  pub positive : 0 < n
  pub is_bet : lookup bet_id db.bets ≡ some bet
  pub is_market : lookup bet.market_id db.markets ≡ some market
  pub market_open : is_open market.status ≡ true
  pub owned : bet.user_id ≡ seller
  pub no_house : seller ≢ house_user_id
  pub offered : Offered id (new_listing now bet_id bet.market_id seller n) db db'

-- A successful `ListBetForSale` at a price above 0 was of a bet that the seller, not the house,
-- owns, in an open market; it adds the row of the listing and changes nothing else.
pub list-Listed :
    (id now bet_id seller : ℕ) (price : ℤ) (d : BetListingDetails) (db db' : Db)
    → list_bet_for_sale id now bet_id seller price db ≡ (ok d, db')
    → (n : ℕ) × (price ≡ pos n) × Listed id now bet_id seller d n db db'
unfolding list_bet_for_sale
list-Listed id now bet_id seller (negsuc k) d db db' e = absurd (ground arith)
list-Listed id now bet_id seller (pos n) d db db' e = elim (Option-cases (lookup bet_id db.bets)) [
  | inl q ↦ absurd (ground arith)
  | inr (b, q) ↦ elim (Option-cases (lookup b.market_id db.markets)) [
    | inl r ↦ absurd (ground arith)
    | inr (m, r) ↦
        let row = new_listing now bet_id b.market_id seller n in
        elim (Tx-cases (insert_listing id row db)) [
          | inr (x, s) ↦ absurd (ground arith)
          | inl (last, s) ↦
              let same : db' ≡ last = ground arith in
              (
                n,
                refl,
                record {
                  bet = b;
                  market = m;
                  positive = ground arith;
                  is_bet = q;
                  is_market = r;
                  market_open = ground arith;
                  owned = ground arith;
                  no_house = ground arith;
                  offered =
                      insert_listing-Offered id row db db'
                        (s ∙ ap (λ (t : Db). ok (tt, t)) (sym same));
                },
              )
        ]
  ]
]

-- A sale of the listing `l`, at `id`, to `buyer`: the money and then the bet changed hands.
pub record Bought (now id buyer : ℕ) (l : BetListing) (db paid credited db' : Db) : Type 0 where
  pub market : Market
  pub bet : Bet
  pub user : User
  pub is_listing : lookup id db.listings ≡ some l
  pub is_market : lookup l.market_id db.markets ≡ some market
  pub market_open : is_open market.status ≡ true
  pub active : is_listed l.status ≡ true
  pub other : l.seller_id ≢ buyer
  pub is_bet : lookup l.bet_id db.bets ≡ some bet
  pub owned : bet.user_id ≡ l.seller_id
  pub is_user : lookup buyer db.users ≡ some user
  pub covered : l.asking_price ≤ user.balance
  pub seller_known : known l.seller_id db ≡ true
  pub debit : add_balance buyer (pos 0 -ℤ pos l.asking_price) db ≡ ok (tt, paid)
  pub credit : add_balance l.seller_id (pos l.asking_price) paid ≡ ok (tt, credited)
  pub result : db' ≡ record credited {
    bets = modify l.bet_id (λ b. record b { user_id = buyer }) credited.bets;
    listings =
        modify id
          (λ k. record k { status = sold; buyer_id = some buyer; sold_at = some now })
          credited.listings;
  }

-- A successful `BuyListedBet` was of an active listing of an open market, by a user other than the
-- seller who had the price, and the seller owned the bet. The tables are those after the debit of
-- the buyer and the credit of the seller, with the bet handed over and the listing marked as sold.
pub buy-Bought :
    (now id buyer : ℕ) (d : BetListingDetails) (db db' : Db)
    → buy_listed_bet now id buyer db ≡ (ok d, db')
    → (l : BetListing) × (paid : Db) × (credited : Db) × Bought now id buyer l db paid credited db'
unfolding buy_listed_bet buy_tx transfer_bet
buy-Bought now id buyer d db db' e = elim (Option-cases (lookup id db.listings)) [
  | inl q ↦ absurd (ground arith)
  | inr (l, q) ↦ elim (Option-cases (lookup l.market_id db.markets)) [
    | inl r ↦ absurd (ground arith)
    | inr (m, r) ↦ elim (Option-cases (lookup l.bet_id db.bets)) [
      | inl s ↦ absurd (ground arith)
      | inr (b, s) ↦ elim (Run-cases (select_buyer buyer l.seller_id db)) [
        | inr (x, t) ↦ absurd (ground arith)
        | inl (u, again, t) ↦
            let (is_user, seller, same) = select_buyer-ok buyer l.seller_id u db again t in
            elim (Tx-cases (add_balance buyer (pos 0 -ℤ pos l.asking_price) db)) [
              | inr (x, w) ↦ absurd (ground (arith, same))
              | inl (paid, w) ↦
                  elim (Tx-cases (add_balance l.seller_id (pos l.asking_price) paid)) [
                    | inr (x, z) ↦ absurd (ground (arith, same))
                    | inl (credited, z) ↦ (
                      l,
                      paid,
                      credited,
                      record {
                        market = m;
                        bet = b;
                        user = u;
                        is_listing = q;
                        is_market = r;
                        market_open = ground arith;
                        active = ground arith;
                        other = ground arith;
                        is_bet = s;
                        owned = ground arith;
                        is_user = is_user;
                        covered = ground (arith, same);
                        seller_known = seller;
                        debit = w;
                        credit = z;
                        result = ground (arith, same);
                      },
                    )
                  ]
            ]
      ]
    ]
  ]
]

module _ (now id buyer : ℕ) (l : BetListing) (db paid credited db' : Db) where
  abbrev given : Bet → Bet
  given b = record b { user_id = buyer }

  Bought-paid : Bought now id buyer l db paid credited db' → OnlyBalances db paid
  Bought-paid b = add_balance-OnlyBalances buyer (pos 0 -ℤ pos l.asking_price) db paid b.debit

  Bought-credited : Bought now id buyer l db paid credited db' → OnlyBalances paid credited
  Bought-credited b =
      add_balance-OnlyBalances l.seller_id (pos l.asking_price) paid credited b.credit

  Bought-conserves : Bought now id buyer l db paid credited db' → wealth db' ≡ wealth db
  unfolding wealth
  Bought-conserves b =
      let first = Bought-paid b in
      let second = Bought-credited b in
      ground (
        arith,
        b.result,
        first.markets,
        first.bets,
        second.markets,
        second.bets,
        held-debit buyer l.asking_price db paid (known_of_lookup buyer b.user db b.is_user) b.debit,
        held-credit l.seller_id l.asking_price paid credited
            (first.users l.seller_id ∙ b.seller_known) b.credit,
        at_stake-modify db.markets l.bet_id given db.bets (λ c. refl),
      )

-- A sale is between two users: it moves the price from the buyer to the seller, and the bet stays at
-- stake under its new owner, so the money in balances and stakes stays the same.
pub buy_conserves :
    (now id buyer : ℕ) (d : BetListingDetails) (db db' : Db)
    → buy_listed_bet now id buyer db ≡ (ok d, db')
    → wealth db' ≡ wealth db
buy_conserves now id buyer d db db' e =
    let (l, paid, credited, b) = buy-Bought now id buyer d db db' e in
    Bought-conserves now id buyer l db paid credited db' b

-- A bet that changes hands stays in its market and on its outcome.
set_owner-IsValid :
    (i u : ℕ) (listings : Table BetListing) (db : Db)
    → known u db ≡ true
    → IsValid db
    → IsValid
        (record db { bets = modify i (λ b. record b { user_id = u }) db.bets; listings = listings })
unfolding stake_in stake_on
set_owner-IsValid i u listings db k v =
    let f : Bet → Bet = λ b. record b { user_id = u } in
    record {
      balanced = record {
        bets_known = BetsKnown-set_owner db.users db.markets i u db.bets k v.balanced.bets_known;
        keyed = v.balanced.keyed;
        market_staked = λ m.
            v.balanced.market_staked m ∙ sym (total-keep (stake_if_in m) i f db.bets (λ b. refl));
        pool_staked = λ m o.
            v.balanced.pool_staked m o ∙ sym (total-keep (stake_if_on m o) i f db.bets (λ b. refl));
        house_known = v.balanced.house_known;
      };
      pooled = v.pooled;
    }

-- After a successful `BuyListedBet` on valid tables the tables are valid.
pub buy-IsValid :
    (now id buyer : ℕ) (d : BetListingDetails) (db db' : Db)
    → IsValid db
    → buy_listed_bet now id buyer db ≡ (ok d, db')
    → IsValid db'
buy-IsValid now id buyer d db db' v e =
    let (l, paid, credited, b) = buy-Bought now id buyer d db db' e in
    let first = Bought-paid now id buyer l db paid credited db' b in
    let second = Bought-credited now id buyer l db paid credited db' b in
    let v1 = Kept-IsValid db paid (OnlyBalances-Kept db paid first) first.pools first.bets v in
    let v2 =
      Kept-IsValid paid credited (OnlyBalances-Kept paid credited second) second.pools second.bets
        v1 in
    let sold_listings =
      modify id
        (λ (k : BetListing). record k { status = sold; buyer_id = some buyer; sold_at = some now })
        credited.listings in
    let buyer_known =
      second.users buyer ∙ (first.users buyer ∙ known_of_lookup buyer b.user db b.is_user) in
    rw b.result (set_owner-IsValid l.bet_id buyer sold_listings credited buyer_known v2)

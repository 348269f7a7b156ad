-- ===== src/Bet/Backing.antt =====
-- The listings for sale of bet-backend, and what their rows promise of the other tables.
use tchebets_open.Prelude.{
  ℕ, ◌≡◌, ◌≢◌, refl, true, false, none, some, [], ◌∷◌, ◌⊎◌, inl, inr, ◌==◌, arith, lookup, modify,
  Option-cases, lookup-modify, lookup-modify_all, lookup-add_row, Table, Bool-cases, add_row,
}
use tchebets_open.Bet.Models.{Market, Bet, BetListing, Db, house_user_id, is_open, is_listed}
use tchebets_open.Bet.Statements.{cancel_row, has_listed}
use tchebets_open.Bet.Credits.{OnlyBalances}
use tchebets_open.Bet.Refund.{delisted}

-- The row `l` stands at `i`, and is for sale.
abbrev pub Active : ℕ → BetListing → Db → Type 0
Active i l db = (lookup i db.listings ≡ some l) × (is_listed l.status ≡ true)

-- The bet of a listing is a bet of the seller, not the house, in an open market.
pub record Backed (l : BetListing) (db : Db) : Type 0 where
  pub bet : Bet
  pub market : Market
  pub is_bet : lookup l.bet_id db.bets ≡ some bet
  pub owned : bet.user_id ≡ l.seller_id
  pub in_market : bet.market_id ≡ l.market_id
  pub is_market : lookup l.market_id db.markets ≡ some market
  pub market_open : is_open market.status ≡ true
  pub no_house : l.seller_id ≢ house_user_id

-- Each listing for sale is backed, and no bet is for sale twice.
pub record AllBacked (db : Db) : Type 0 where
  pub backed : (i : ℕ) (l : BetListing) → Active i l db → Backed l db
  pub single :
      (i j : ℕ) (k l : BetListing) → Active i k db → Active j l db → k.bet_id ≡ l.bet_id → i ≡ j

-- What is for sale in `db'` was for sale in `db`, with the same bet and the same market.
pub record Carried (db db' : Db) : Type 0 where
  pub active : (i : ℕ) (l : BetListing) → Active i l db' → Active i l db
  pub bets :
      (i : ℕ) (l : BetListing) (b : Bet)
      → Active i l db'
      → lookup l.bet_id db.bets ≡ some b
      → lookup l.bet_id db'.bets ≡ some b
  pub markets :
      (i : ℕ) (l : BetListing) (m : Market)
      → Active i l db'
      → lookup l.market_id db.markets ≡ some m
      → lookup l.market_id db'.markets ≡ some m

pub Carried-AllBacked : (db db' : Db) → Carried db db' → AllBacked db → AllBacked db'
Carried-AllBacked db db' c v = record {
  backed = λ i l a.
      let b = v.backed i l (c.active i l a) in
      record {
        bet = b.bet;
        market = b.market;
        is_bet = c.bets i l b.bet a b.is_bet;
        owned = b.owned;
        in_market = b.in_market;
        is_market = c.markets i l b.market a b.is_market;
        market_open = b.market_open;
        no_house = b.no_house;
      };
  single = λ i j k l a b same. v.single i j k l (c.active i k a) (c.active j l b) same;
}

pub Carried-refl : (db : Db) → Carried db db
Carried-refl db = record { active = λ i l a. a; bets = λ i l b a e. e; markets = λ i l m a e. e }

pub Carried-trans : {a b c : Db} → Carried a b → Carried b c → Carried a c
Carried-trans h k = record {
  active = λ i l x. h.active i l (k.active i l x);
  bets = λ i l b x e. k.bets i l b x (h.bets i l b (k.active i l x) e);
  markets = λ i l m x e. k.markets i l m x (h.markets i l m (k.active i l x) e);
}

-- A statement that leaves the listings alone, and adds to the bets and the markets at most.
pub Carried-grown :
    (db db' : Db)
    → db'.listings ≡ db.listings
    → ((i : ℕ) (b : Bet) → lookup i db.bets ≡ some b → lookup i db'.bets ≡ some b)
    → ((i : ℕ) (m : Market) → lookup i db.markets ≡ some m → lookup i db'.markets ≡ some m)
    → Carried db db'
Carried-grown db db' same bets markets = record {
  active = λ i l a. (rw same at a.0, a.1);
  bets = λ i l b a e. bets l.bet_id b e;
  markets = λ i l m a e. markets l.market_id m e;
}

pub Carried-same :
    (db db' : Db)
    → db'.listings ≡ db.listings
    → db'.bets ≡ db.bets
    → db'.markets ≡ db.markets
    → Carried db db'
Carried-same db db' listings bets markets =
    Carried-grown db db' listings (λ i b e. rw bets e) (λ i m e. rw markets e)

pub Carried-credited : (db db' : Db) → OnlyBalances db db' → Carried db db'
Carried-credited db db' o = Carried-same db db' o.listings o.bets o.markets

delisted-row :
    (now m i : ℕ) (l : BetListing) (db : Db)
    → Active i l (delisted now m db)
    → Active i l db × ((m == l.market_id) ≡ false)
delisted-row now m i l db a = ground (arith, lookup-modify_all i (cancel_row now m) db.listings)

-- Once its listings are cancelled, a market may change.
pub Carried-closed :
    (now m : ℕ) (f : Market → Market) (db : Db)
    → Carried db (record (delisted now m db) { markets = modify m f db.markets })
Carried-closed now m f db = record {
  active = λ i l a. (delisted-row now m i l db a).0;
  bets = λ i l b a e. e;
  markets = λ i l k a e.
      let other = (delisted-row now m i l db a).1 in
      ground (arith, lookup-modify m l.market_id f db.markets);
}

withdrawn-row :
    (id i : ℕ) (f : BetListing → BetListing) (l : BetListing) (db : Db)
    → ((k : BetListing) → is_listed (f k).status ≡ false)
    → Active i l (record db { listings = modify id f db.listings })
    → Active i l db × ((i == id) ≡ false)
withdrawn-row id i f l db gone a = elim (Option-cases (lookup i db.listings)) [
  | inl q ↦ absurd (ground (arith, lookup-modify id i f db.listings))
  | inr (k, q) ↦ ground (arith, lookup-modify id i f db.listings, gone k)
]

-- A listing that is no longer for sale.
pub Carried-withdrawn :
    (id : ℕ) (f : BetListing → BetListing) (db : Db)
    → ((l : BetListing) → is_listed (f l).status ≡ false)
    → Carried db (record db { listings = modify id f db.listings })
Carried-withdrawn id f db gone = record {
  active = λ i l a. (withdrawn-row id i f l db gone a).0;
  bets = λ i l b a e. e;
  markets = λ i l m a e. e;
}

-- A sale: the bet and the listing change, and no other listing for sale is of that bet.
pub Carried-sold :
    (id : ℕ) (f : BetListing → BetListing) (g : Bet → Bet) (l : BetListing) (db : Db)
    → AllBacked db
    → Active id l db
    → ((k : BetListing) → is_listed (f k).status ≡ false)
    → Carried db
        (record db { bets = modify l.bet_id g db.bets; listings = modify id f db.listings })
Carried-sold id f g l db v sold gone = record {
  active = λ i k a. (withdrawn-row id i f k db gone a).0;
  bets = λ i k b a e.
      let (was, other) = withdrawn-row id i f k db gone a in
      elim (Bool-cases (k.bet_id == l.bet_id)) [
        | inl p ↦ absurd (ground (arith, v.single i id k l was sold (ground arith)))
        | inr p ↦ ground (arith, lookup-modify l.bet_id k.bet_id g db.bets)
      ];
  markets = λ i k m a e. e;
}

has_listed-other :
    (i b : ℕ) (l : BetListing) (ls : Table BetListing)
    → has_listed b ls ≡ false
    → lookup i ls ≡ some l
    → is_listed l.status ≡ true
    → l.bet_id ≢ b
has_listed-other i b l [] free e a same = absurd (ground arith)
has_listed-other i b l ((j, k) ∷ ls) free e a same = elim (Bool-cases (i == j)) [
  | inl p ↦ absurd (ground arith)
  | inr p ↦ has_listed-other i b l ls (ground arith) (ground arith) a same
]

Backed-keep :
    (l : BetListing) (db db' : Db)
    → db'.bets ≡ db.bets
    → db'.markets ≡ db.markets
    → Backed l db
    → Backed l db'
Backed-keep l db db' bets markets b = record {
  bet = b.bet;
  market = b.market;
  is_bet = rw bets b.is_bet;
  owned = b.owned;
  in_market = b.in_market;
  is_market = rw markets b.is_market;
  market_open = b.market_open;
  no_house = b.no_house;
}

module _ (id : ℕ) (l : BetListing) (db : Db) (fresh : lookup id db.listings ≡ none)
    (only : has_listed l.bet_id db.listings ≡ false) where
  abbrev with_listing : Db
  with_listing = record db { listings = add_row id l db.listings }

  with_listing-cases :
      (i : ℕ) (k : BetListing)
      → Active i k with_listing
      → ((i ≡ id) × (k ≡ l)) ⊎ ((k.bet_id ≢ l.bet_id) × Active i k db)
  with_listing-cases i k a =
      let row = lookup-add_row id i l db.listings fresh in
      elim (Bool-cases (i == id)) [
        | inl p ↦ inl (ground arith, ground (arith, row, a.0))
        | inr p ↦
            let old : lookup i db.listings ≡ some k = ground (arith, row, a.0) in
            inr (has_listed-other i l.bet_id k db.listings only old a.1, (old, a.1))
      ]

  -- A new listing that is backed, of a bet that is not for sale.
  pub AllBacked-add_row : AllBacked db → Backed l db → AllBacked with_listing
  AllBacked-add_row v b = record {
    backed = λ i k a. elim (with_listing-cases i k a) [
      | inl (at, same) ↦ rw same (Backed-keep l db with_listing refl refl b)
      | inr (other, old) ↦ Backed-keep k db with_listing refl refl (v.backed i k old)
    ];
    single = λ i j k m x y same. elim (with_listing-cases i k x) [
      | inl (at, new) ↦ elim (with_listing-cases j m y) [
        | inl (at', _) ↦ cc
        | inr (other, _) ↦ absurd (other cc)
      ]
      | inr (other, old) ↦ elim (with_listing-cases j m y) [
        | inl (_, new) ↦ absurd (other cc)
        | inr (_, old') ↦ v.single i j k m old old' same
      ]
    ];
  }

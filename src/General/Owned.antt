-- ===== src/General/Owned.antt =====
-- The lists of a user in bet-backend/service: which rows of the tables they hold, in which order, and
-- what the profile page finds in them.
use mathlib.Core.List.{Perm}
use mathlib.Core.List.Perm
use tchebets_open.Prelude.{
  ℕ, ◌≤◌, ◌≡◌, ◌≢◌, refl, ◌⊎◌, inl, inr, true, Bool, ◌&&◌, Option, none, some, List, [], ◌∷◌, arith,
  ◌==◌, leb, Table, lookup, Option-cases, Bool-cases,
}
use tchebets_open.Bet.Models.{Bet, BetListing, BetListingDetails, Db, is_listed}
use tchebets_open.Bet.Details.{
  insert_down, order_down, bets_where, list_user_bets, insert_by, order_by, listings_where,
  list_active_listings_for_seller,
}
use tchebets_open.General.Picks.{Picks, picks_none, picks_this, picks_other, Has}
use tchebets_open.General.Profile.{listing_by_bet}

-- Newest first.
abbrev NotAfter : ℕ → List (ℕ × Bet) → Type 0
NotAfter n [] = Unit
NotAfter n (x ∷ xs) = ((x.1).created_at ≤ n) × NotAfter n xs

abbrev pub Newest : List (ℕ × Bet) → Type 0
Newest [] = Unit
Newest (x ∷ xs) = NotAfter (x.1).created_at xs × Newest xs

abbrev time_of : ℕ × Bet → ℕ
time_of e = (e.1).created_at

NotAfter-mono : (n k : ℕ) (xs : List (ℕ × Bet)) → n ≤ k → NotAfter n xs → NotAfter k xs
NotAfter-mono n k [] h a = tt
NotAfter-mono n k (x ∷ xs) h a = (omega (arith, h, a.0), NotAfter-mono n k xs h a.1)

NotAfter-insert :
    (n : ℕ) (a : ℕ × Bet) (xs : List (ℕ × Bet))
    → (a.1).created_at ≤ n
    → NotAfter n xs
    → NotAfter n (insert_down time_of a xs)
NotAfter-insert n a [] h k = (h, tt)
NotAfter-insert n a (x ∷ xs) h k = elim (Bool-cases (leb (time_of x) (time_of a))) [
  | inl e ↦ rw e (h, k)
  | inr e ↦ rw e (k.0, NotAfter-insert n a xs h k.1)
]

Newest-insert : (a : ℕ × Bet) (xs : List (ℕ × Bet)) → Newest xs → Newest (insert_down time_of a xs)
Newest-insert a [] k = (tt, tt)
Newest-insert a (x ∷ xs) k = elim (Bool-cases (leb (time_of x) (time_of a))) [
  | inl e ↦
      let le : (x.1).created_at ≤ (a.1).created_at = ground arith in
      rw e ((le, NotAfter-mono (x.1).created_at (a.1).created_at xs le k.0), k)
  | inr e ↦ rw e (NotAfter-insert (x.1).created_at a xs (ground arith) k.0, Newest-insert a xs k.1)
]

insert-Perm : (a : ℕ × Bet) (xs : List (ℕ × Bet)) → Perm (a ∷ xs) (insert_down time_of a xs)
insert-Perm a [] = Perm.refl (a ∷ [])
insert-Perm a (x ∷ xs) = elim (Bool-cases (leb (time_of x) (time_of a))) [
  | inl e ↦ rw e (Perm.refl (a ∷ x ∷ xs))
  | inr e ↦ rw e (Perm.trans (Perm.swap x a xs) (Perm.cons x (insert-Perm a xs)))
]

order-Newest :
    (xs : List (ℕ × Bet)) → Perm xs (order_down time_of xs) × Newest (order_down time_of xs)
order-Newest [] = (Perm.refl [], tt)
order-Newest (x ∷ xs) =
    let (perm, newest) = order-Newest xs in
    (
      Perm.trans (Perm.cons x perm) (insert-Perm x (order_down time_of xs)),
      Newest-insert x (order_down time_of xs) newest,
    )

-- The bet of a row is of the user.
abbrev pub IsOf : ℕ → ℕ × Bet → Type 0
IsOf u e = (e.1).user_id ≡ u

bets-Picks :
    (u : ℕ) (bets : Table Bet) → Picks (IsOf u) bets (bets_where (λ b. u == b.user_id) bets)
bets-Picks u [] = picks_none
bets-Picks u ((i, b) ∷ bs) = elim (Bool-cases (u == b.user_id)) [
  | inl e ↦ rw e (picks_this (ground arith) (bets-Picks u bs))
  | inr e ↦ rw e (picks_other (λ same. absurd (ground arith)) (bets-Picks u bs))
]

-- Exactly the bets of the user, newest first.
abbrev pub UserBets : ℕ → Db → List (ℕ × Bet) → Type 0
UserBets u db bets =
    ((rows : List (ℕ × Bet)) × Picks (IsOf u) db.bets rows × Perm rows bets) × Newest bets

pub list_user_bets-UserBets : (u : ℕ) (db : Db) → UserBets u db (list_user_bets u db)
unfolding list_user_bets
list_user_bets-UserBets u db =
    let rows = bets_where (λ b. u == b.user_id) db.bets in
    let (perm, newest) = order-Newest rows in ((rows, bets-Picks u db.bets, perm), newest)

module _ (P : BetListingDetails → Type 0) where
  abbrev AllOf : List BetListingDetails → Type 0
  AllOf [] = Unit
  AllOf (d ∷ ds) = P d × AllOf ds

  insert-AllOf :
      (key : BetListingDetails → ℕ) (d : BetListingDetails) (ds : List BetListingDetails)
      → P d
      → AllOf ds
      → AllOf (insert_by key d ds)
  insert-AllOf key d [] p a = (p, tt)
  insert-AllOf key d (x ∷ ds) p a = elim (Bool-cases (leb (key d) (key x))) [
    | inl e ↦ rw e (p, a)
    | inr e ↦ rw e (a.0, insert-AllOf key d ds p a.1)
  ]

  order-AllOf :
      (key : BetListingDetails → ℕ) (ds : List BetListingDetails)
      → AllOf ds
      → AllOf (order_by key ds)
  order-AllOf key [] a = tt
  order-AllOf key (d ∷ ds) a = insert-AllOf key d (order_by key ds) a.0 (order-AllOf key ds a.1)

  inserted-AllOf :
      (key : BetListingDetails → ℕ) (d : BetListingDetails) (ds : List BetListingDetails)
      → AllOf (insert_by key d ds)
      → P d × AllOf ds
  inserted-AllOf key d [] a = a
  inserted-AllOf key d (x ∷ ds) a = elim (Bool-cases (leb (key d) (key x))) [
    | inl e ↦ rw e at a
    | inr e ↦
        let (p, rest) : P x × AllOf (insert_by key d ds) = rw e at a in
        let (q, others) = inserted-AllOf key d ds rest in (q, (p, others))
  ]

  ordered-AllOf :
      (key : BetListingDetails → ℕ) (ds : List BetListingDetails)
      → AllOf (order_by key ds)
      → AllOf ds
  ordered-AllOf key [] a = tt
  ordered-AllOf key (d ∷ ds) a =
      let (p, rest) = inserted-AllOf key d (order_by key ds) a in (p, ordered-AllOf key ds rest)

-- The listing `l` at `j` offers the bet `i` of the user, and is for sale.
abbrev pub Offers : ℕ → ℕ → BetListing → Type 0
Offers u i l = (l.seller_id ≡ u) × (is_listed l.status ≡ true) × (l.bet_id ≡ i)

-- No listing of the table does.
abbrev pub NoneOffers : ℕ → ℕ → Table BetListing → Type 0
NoneOffers u i [] = Unit
NoneOffers u i ((j, l) ∷ ls) = (¬ Offers u i l) × NoneOffers u i ls

-- What the page shows of the bet `i`: the id and the price of a listing that offers it, or that there
-- is none, or nothing if `L`.
abbrev pub ShowsOffer : Type 0 → ℕ → Db → ℕ → Option (ℕ × ℕ) → Type 0
ShowsOffer L u db i none = L ⊎ NoneOffers u i db.listings
ShowsOffer L u db i (some (j, price)) =
    (l : BetListing) × Has (j, l) db.listings × Offers u i l × (l.asking_price ≡ price)

abbrev Source : ℕ → Table BetListing → BetListingDetails → Type 0
Source u full d =
    Has (d.id, d.listing) full × ((d.listing).seller_id ≡ u) × (is_listed (d.listing).status ≡ true)

-- The listing of a page is that of the last detail of its bet, if there is one.
listing_by_bet-some :
    (u : ℕ) (full : Table BetListing) (ds : List BetListingDetails) (i j price : ℕ)
    → AllOf (Source u full) ds
    → listing_by_bet ds i ≡ some (j, price)
    → (l : BetListing) × Has (j, l) full × Offers u i l × (l.asking_price ≡ price)
listing_by_bet-some u full [] i j price a e = absurd (ground arith)
listing_by_bet-some u full (d ∷ ds) i j price a e = elim (Option-cases (listing_by_bet ds i)) [
  | inr (x, q) ↦ listing_by_bet-some u full ds i j price a.1 (ground (arith, q, e))
  | inl q ↦ elim (Bool-cases ((d.listing).bet_id == i)) [
    | inr p ↦ absurd (ground (arith, q, p, e))
    | inl p ↦
        let at : d.id ≡ j = ground (arith, q, p, e) in
        let cost : (d.listing).asking_price ≡ price = ground (arith, q, p, e) in
        (d.listing, rw at at a.0.0, (a.0.1, a.0.2, ground arith), cost)
  ]
]

listing_by_bet-none :
    (ds : List BetListingDetails) (i : ℕ)
    → listing_by_bet ds i ≡ none
    → AllOf (λ d. (d.listing).bet_id ≢ i) ds
listing_by_bet-none [] i e = tt
listing_by_bet-none (d ∷ ds) i e = elim (Option-cases (listing_by_bet ds i)) [
  | inr (x, q) ↦ absurd (ground (arith, q, e))
  | inl q ↦ elim (Bool-cases ((d.listing).bet_id == i)) [
    | inl p ↦ absurd (ground (arith, q, p, e))
    | inr p ↦ (λ same. absurd (ground arith), listing_by_bet-none ds i q)
  ]
]

abbrev of_seller : ℕ → BetListing → Bool
of_seller u l = (u == l.seller_id) && is_listed l.status

-- The query finds listings of the seller that are for sale, and all of those whose bet there is.
listings-Source :
    (u : ℕ) (bets : Table Bet) (full ls : Table BetListing)
    → ((e : ℕ × BetListing) → Has e ls → Has e full)
    → AllOf (Source u full) (listings_where (of_seller u) bets ls)
listings-Source u bets full [] there = tt
listings-Source u bets full ((j, l) ∷ ls) there =
    let rest = listings-Source u bets full ls (λ e h. there e (inr h)) in
    elim (Bool-cases (of_seller u l)) [
      | inr e ↦ rw e rest
      | inl e ↦ elim (Option-cases (lookup l.bet_id bets)) [
        | inl q ↦ rw (e, q) rest
        | inr (b, q) ↦ rw (e, q) ((there (j, l) (inl refl), ground arith, ground arith), rest)
      ]
    ]

listings-NoneOffers :
    (u i : ℕ) (b : Bet) (bets : Table Bet) (ls : Table BetListing)
    → lookup i bets ≡ some b
    → AllOf (λ d. (d.listing).bet_id ≢ i) (listings_where (of_seller u) bets ls)
    → NoneOffers u i ls
listings-NoneOffers u i b bets [] k a = tt
listings-NoneOffers u i b bets ((j, l) ∷ ls) k a = elim (Bool-cases (of_seller u l)) [
  | inr e ↦ (
    λ (own, active, same). absurd (ground arith),
    listings-NoneOffers u i b bets ls k (rw e at a),
  )
  | inl e ↦ elim (Option-cases (lookup l.bet_id bets)) [
    | inl q ↦ (
      λ (own, active, same). absurd (ground (arith, q, k, same)),
      listings-NoneOffers u i b bets ls k (rw (e, q) at a),
    )
    | inr (c, q) ↦
        let (other, rest) : (l.bet_id ≢ i)
            × AllOf (λ d. (d.listing).bet_id ≢ i) (listings_where (of_seller u) bets ls) =
          rw (e, q) at a in
        (λ (own, active, same). other same, listings-NoneOffers u i b bets ls k rest)
  ]
]

pub listing_by_bet-ShowsOffer :
    (L : Type 0) (u : ℕ) (db : Db) (i : ℕ) (b : Bet) (o : Option (ℕ × ℕ))
    → lookup i db.bets ≡ some b
    → listing_by_bet (list_active_listings_for_seller u db) i ≡ o
    → ShowsOffer L u db i o
unfolding list_active_listings_for_seller
listing_by_bet-ShowsOffer L u db i b none k e =
    let found = listings_where (of_seller u) db.bets db.listings in
    let time : BetListingDetails → ℕ = λ d. (d.listing).created_at in
    inr (
      listings-NoneOffers u i b db.bets db.listings k (
        ordered-AllOf (λ d. (d.listing).bet_id ≢ i) time found
          (listing_by_bet-none (order_by time found) i e)))
listing_by_bet-ShowsOffer L u db i b (some (j, price)) k e =
    let found = listings_where (of_seller u) db.bets db.listings in
    let time : BetListingDetails → ℕ = λ d. (d.listing).created_at in
    listing_by_bet-some u db.listings (order_by time found) i j price
      (order-AllOf (Source u db.listings) time found
        (listings-Source u db.bets db.listings db.listings (λ x h. h)))
      e

-- The ids of the bets are keys of the table.
abbrev pub AllKnown : Db → List (ℕ × Bet) → Type 0
AllKnown db [] = Unit
AllKnown db (e ∷ es) = ((c : Bet) × (lookup e.0 db.bets ≡ some c)) × AllKnown db es

insert-AllKnown :
    (db : Db) (e : ℕ × Bet) (es : List (ℕ × Bet))
    → (c : Bet) × (lookup e.0 db.bets ≡ some c)
    → AllKnown db es
    → AllKnown db (insert_down time_of e es)
insert-AllKnown db e [] k a = (k, tt)
insert-AllKnown db e (x ∷ es) k a = elim (Bool-cases (leb (time_of x) (time_of e))) [
  | inl h ↦ rw h (k, a)
  | inr h ↦ rw h (a.0, insert-AllKnown db e es k a.1)
]

order-AllKnown :
    (db : Db) (es : List (ℕ × Bet)) → AllKnown db es → AllKnown db (order_down time_of es)
order-AllKnown db [] a = tt
order-AllKnown db (e ∷ es) a =
    insert-AllKnown db e (order_down time_of es) a.0 (order-AllKnown db es a.1)

lookup-deeper :
    (i j : ℕ) (b : Bet) (t : Table Bet)
    → (c : Bet) × (lookup i t ≡ some c)
    → (c : Bet) × (lookup i ((j, b) ∷ t) ≡ some c)
lookup-deeper i j b t (c, e) = elim (Bool-cases (i == j)) [
  | inl h ↦ (b, ground (arith, h))
  | inr h ↦ (c, ground (arith, h, e))
]

bets-AllKnown :
    (u : ℕ) (db : Db) (bets : Table Bet)
    → ((i : ℕ) → (c : Bet) × (lookup i bets ≡ some c) → (c : Bet) × (lookup i db.bets ≡ some c))
    → AllKnown db (bets_where (λ b. u == b.user_id) bets)
bets-AllKnown u db [] there = tt
bets-AllKnown u db ((j, b) ∷ bs) there =
    let rest = bets-AllKnown u db bs (λ i k. there i (lookup-deeper i j b bs k)) in
    elim (Bool-cases (u == b.user_id)) [
      | inl e ↦ rw e (there j (b, ground arith), rest)
      | inr e ↦ rw e rest
    ]

pub list_user_bets-AllKnown : (u : ℕ) (db : Db) → AllKnown db (list_user_bets u db)
unfolding list_user_bets
list_user_bets-AllKnown u db =
    order-AllKnown db (bets_where (λ b. u == b.user_id) db.bets)
      (bets-AllKnown u db db.bets (λ i k. k))

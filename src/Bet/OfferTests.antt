-- ===== src/Bet/OfferTests.antt =====
-- The theorems on the listings for sale, on the tables of Bet/Sample.antt.
use tchebets_open.Prelude.{ℕ, ◌≡◌, refl, some, List, [], ◌∷◌, ok, pos, lookup, arith}
use tchebets_open.Bet.Models.{Bet, User}
use tchebets_open.Bet.Listing.{buy_listed_bet, sold_details}
use tchebets_open.Bet.Backing.{AllBacked}
use tchebets_open.Bet.Offers.{list-AllBacked, run-AllBacked}
use tchebets_open.Bet.Bought.{sold_tables, buy_taken}
use tchebets_open.Bet.History.{Request, create, place, lock, list_bet, unlist, buy, run}
use tchebets_open.Bet.Sample.{empty_db, outcomes, seed_ids, placed_db, listed_db, offer, offered}

empty-AllBacked : AllBacked empty_db
empty-AllBacked = record {
  backed = λ i l a. absurd (ground (arith, a.0));
  single = λ i j k l a b e. absurd (ground (arith, a.0));
}

placed-AllBacked : AllBacked placed_db
placed-AllBacked = record {
  backed = λ i l a. absurd (ground (arith, a.0));
  single = λ i j k l a b e. absurd (ground (arith, a.0));
}

listed-AllBacked : AllBacked listed_db
listed-AllBacked = rw offered at (list-AllBacked 300 3 200 1 (pos 30) placed_db placed-AllBacked)

-- A bet is listed, sold, listed by its new owner, withdrawn and listed again before the lock.
abbrev fair : List (ℕ × Request)
fair =
    (1, create 7 seed_ids "rain?" outcomes (pos 10))
    ∷ (2, place 200 1 7 "yes" (pos 40))
    ∷ (3, list_bet 300 200 1 (pos 30))
    ∷ (4, buy 300 2)
    ∷ (5, list_bet 301 200 2 (pos 35))
    ∷ (6, unlist 301 2)
    ∷ (7, list_bet 302 200 2 (pos 36))
    ∷ (8, lock 7)
    ∷ []

run-AllBacked_example : AllBacked (run fair empty_db)
run-AllBacked_example = run-AllBacked fair empty_db empty-AllBacked

abbrev buyer : User
buyer = record { balance = 50; created_at = 0 }

abbrev seller : User
seller = record { balance = 60; created_at = 0 }

buy_taken_example :
    (b : Bet) × (lookup 200 listed_db.bets ≡ some b)
    × (buy_listed_bet 4 300 2 listed_db
        ≡ (ok (sold_details 4 300 2 offer b), sold_tables 4 300 2 offer buyer seller listed_db))
buy_taken_example =
    buy_taken 4 300 2 offer buyer seller listed_db refl refl (ground arith) (ground arith)
      (ground arith) (ground arith) listed-AllBacked (refl, refl)

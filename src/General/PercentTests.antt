-- ===== src/General/PercentTests.antt =====
-- The percentages of a card on concrete tables.
use tchebets_open.Prelude.{ℕ, ◌≤◌, ◌-◌, ◌≡◌, refl, some, none, [], ◌∷◌, arith, pos}
use tchebets_open.Int64.{add64, mul64}
use tchebets_open.Bet.Models.{Market, Bet, Db, status_open}
use tchebets_open.Bet.Statements.{add_balance, add_pool, insert_market, insert_pool, insert_bet}
use tchebets_open.Bet.Create.{create_market, create_tx, debit_house, seed_outcomes}
use tchebets_open.Bet.Market.{place_bet, place_bet_tx}
use tchebets_open.Bet.Wealth.{pools_in, stake_in, stake_on}
use tchebets_open.Bet.Valid.{IsValid}
use tchebets_open.Bet.CreateLaws.{create-IsValid}
use tchebets_open.Bet.PlaceValid.{place_bet-IsValid}
use tchebets_open.Bet.Details.{
  MarketDetails, get_market_details, init_pools, collect_pools, live_odds_of, odds_of,
}
use tchebets_open.Bet.Sample.{empty_db, empty-IsValid, seed_ids}
use tchebets_open.General.Views.{build_market_card}
use tchebets_open.General.Percent.{PercentOf, market_card-percent}

-- A match with seeds of 10, and 20 more on SIM: 30 of 40.
abbrev match_market : Market
match_market = record {
  question = "Brasil vence?";
  outcomes = "SIM" ∷ "NAO" ∷ [];
  status = status_open;
  seed = 10;
  winning_outcome = none;
  created_at = 1;
}

abbrev match_db : Db
match_db = (create_market 7 seed_ids 1 "Brasil vence?" ("SIM" ∷ "NAO" ∷ []) (pos 10) empty_db).1

abbrev bet_db : Db
bet_db = (place_bet 200 2 1 7 "SIM" (pos 20) match_db).1

match-IsValid : IsValid match_db
unfolding create_market create_tx debit_house seed_outcomes insert_market insert_pool insert_bet
    add_balance mul64
match-IsValid =
    create-IsValid 7 seed_ids 1 "Brasil vence?" ("SIM" ∷ "NAO" ∷ []) 10 match_market empty_db
      match_db empty-IsValid (ground arith) refl

abbrev sim_bet : Bet
sim_bet = record {
  market_id = 7;
  user_id = 1;
  original_user_id = 1;
  outcome = "SIM";
  stake = 20;
  created_at = 2;
}

bet-IsValid : IsValid bet_db
unfolding create_market create_tx debit_house seed_outcomes insert_market insert_pool insert_bet
    add_balance mul64 place_bet place_bet_tx add_pool
bet-IsValid = place_bet-IsValid 200 2 1 7 "SIM" (pos 20) sim_bet match_db bet_db match-IsValid refl

abbrev shown_details : MarketDetails (Unit {0})
shown_details = record {
  id = 7;
  market = match_market;
  pools = ("SIM", pos 30) ∷ ("NAO", pos 10) ∷ [];
  total_pool = pos 40;
  live_odds = ("SIM", tt) ∷ ("NAO", tt) ∷ [];
}

market_card-percent_example :
    (k : ℕ) × (k ≤ 100)
    × PercentOf k 30 40
    × ((build_market_card shown_details).sim_pct ≡ some (pos k))
    × ((build_market_card shown_details).nao_pct ≡ some (pos (100 - k)))
unfolding create_market create_tx debit_house seed_outcomes insert_market insert_pool insert_bet
    add_balance mul64 place_bet place_bet_tx add_pool get_market_details init_pools collect_pools
    live_odds_of odds_of add64 pools_in stake_on stake_in
market_card-percent_example =
    market_card-percent tt (λ a b. tt) 7 bet_db shown_details bet-IsValid refl (ground arith)

-- ===== src/Bet/Settle.antt =====
-- The settlement of `ResolveMarket`: the winners and the house share the pools.
use tchebets_open.Prelude.{
  ℕ, ◌+◌, ◌-◌, ◌*◌, ◌/◌, ◌≤◌, ◌<◌, String, ◌≡◌, refl, true, some, ok, inl, inr, Bool-cases, arith,
  ℤ, pos, modify, ◌∙◌, ltb, ap, ◌==◌, if◌then◌else◌,
}
use tchebets_open.Int64.{int64_limit, sub64, add64, sub64-pos, add64-pos}
use tchebets_open.Bet.Models.{Db, house_user_id, status_resolved}
use tchebets_open.Bet.Errors.{Tx, ◌>>=◌, ◌>>◌, gets}
use tchebets_open.Bet.Statements.{add_balance}
use tchebets_open.Bet.Market.{winning_bets, pay_winners, credit_house, set_resolved, settle}
use tchebets_open.Bet.Wealth.{held, stake_on}
use tchebets_open.Bet.Credits.{
  known, OnlyBalances, OnlyBalances-refl, add_balance-OnlyBalances, held-credit,
}
use tchebets_open.Bet.Inversion.{Run-cases, Tx-cases}
use tchebets_open.Bet.Payout.{stakes, payouts, pay_winners-held, payouts_bounds, commission-pos}
use tchebets_open.Bet.Owed.{balance_in, winnings, pay_winners-balance_in, credit_house-balance_in}
use tchebets_open.Bet.Tables.{BetsKnown, stakes-winning_bets, PayeesKnown-winning_bets}

-- The settlement of a market with winners, as plain numbers.
pub record Paid (m : ℕ) (win : String) (t : ℕ) (db db' : Db) : Type 0 where
  pub sum : held db'.users ≡ held db.users + t
  pub each :
      (j : ℕ)
      → let d : ℕ = t - t * 3 / 100 in
        let v : ℕ = stake_on m win db.bets in
        let ws = winning_bets m win db.bets in
        balance_in j db'.users
        ≡ balance_in j db.users
          + winnings j d v ws
          + (if j == house_user_id then t * 3 / 100 + (d - payouts d v ws) else 0)
  pub bets : db'.bets ≡ db.bets
  pub pools : db'.pools ≡ db.pools
  pub users : (j : ℕ) → known j db' ≡ known j db
  pub markets :
      db'.markets
      ≡ modify m (λ k. record k { status = status_resolved; winning_outcome = some win }) db.markets

credit_house-held :
    (n : ℕ) (db db' : Db)
    → known house_user_id db ≡ true
    → credit_house (pos n) db ≡ ok (tt, db')
    → (held db'.users ≡ held db.users + n) × OnlyBalances db db'
unfolding credit_house
credit_house-held n db db' k e = elim (Bool-cases (ltb 0 n)) [
  | inl q ↦
      let done : add_balance house_user_id (pos n) db ≡ ok (tt, db') = ground arith in
      (
        held-credit house_user_id n db db' k done,
        add_balance-OnlyBalances house_user_id (pos n) db db' done,
      )
  | inr q ↦
      let same : db' ≡ db = ground arith in (rw same (ground arith), rw same (OnlyBalances-refl db))
]

-- The fee, the winners and the house share the total, with nothing lost.
share : (t f p : ℕ) → f ≤ t → p ≤ t - f → p + (f + (t - f - p)) ≡ t
share t f p h k = omega arith

-- `settle` with its arithmetic done.
abbrev pub settle_plain : ℕ → String → ℕ → ℕ → Tx (Unit {0})
settle_plain m win t v = do
  bets ← gets (λ db. winning_bets m win db.bets)
  paid ← pay_winners (pos (t - t * 3 / 100)) (pos v) bets (pos 0)
  credit_house (add64 (pos (t * 3 / 100)) (sub64 (pos (t - t * 3 / 100)) paid))
  set_resolved m win

pub settle-plain :
    (m : ℕ) (win : String) (t v : ℕ)
    → t * 3 < int64_limit
    → settle m win (pos t) (pos v) ≡ settle_plain m win t v
unfolding settle
settle-plain m win t v h =
    rw (commission-pos t h) (rw (sub64-pos t (t * 3 / 100) (omega arith) (omega arith)) refl)

-- The house is left with the fee and what the floors have dropped.
house_gain :
    (f d p : ℕ)
    → p ≤ d
    → f + d < int64_limit
    → add64 (pos f) (sub64 (pos d) (pos p)) ≡ pos (f + (d - p))
house_gain f d p h r =
    rw (sub64-pos d p (omega arith) (omega arith)) (add64-pos f (d - p) (omega arith))

pub settle-Paid :
    (m : ℕ) (win : String) (t v : ℕ) (db db' : Db)
    → BetsKnown db.users db.markets db.bets
    → known house_user_id db ≡ true
    → 0 < v
    → stake_on m win db.bets ≡ v
    → t * 3 < int64_limit
    → v * t < int64_limit
    → settle_plain m win t v db ≡ ok (tt, db')
    → Paid m win t db db'
unfolding set_resolved
settle-Paid m win t v db db' k house p on h3 hv e =
    let fee = t * 3 / 100 in
    let d = t - fee in
    let ws = winning_bets m win db.bets in
    let staked : stakes ws ≡ v = stakes-winning_bets m win db.bets ∙ on in
    let within : payouts d v ws ≤ d = (payouts_bounds d v ws p staked).0 in
    let small : v * d ≤ v * t = grind arith in
    elim (Run-cases (pay_winners (pos d) (pos v) ws (pos 0) db)) [
      | inr (x, q) ↦ absurd (ground arith)
      | inl (paid, mid, q) ↦
          let (count, sum, only) =
            pay_winners-held d v ws 0 paid db mid
              (PayeesKnown-winning_bets m win db.users db.markets db.bets k)
              (rw staked (omega arith)) (omega arith) q in
          let exact : paid ≡ pos (payouts d v ws) = ground (arith, count) in
          let gain =
            ap (λ (z : ℤ). add64 (pos fee) (sub64 (pos d) z)) exact
            ∙ house_gain fee d (payouts d v ws) within (omega arith) in
          elim (Tx-cases (credit_house (pos (fee + (d - payouts d v ws))) mid)) [
            | inr (x, r) ↦ absurd (ground (arith, gain))
            | inl (last, r) ↦
                let (more, rest) =
                  credit_house-held (fee + (d - payouts d v ws)) mid last
                    (only.users house_user_id ∙ house) r in
                let result : db' ≡ record last {
                  markets =
                      modify m
                        (λ k. record k { status = status_resolved; winning_outcome = some win })
                        last.markets;
                } =
                  ground (arith, gain) in
                record {
                  sum = rw result (omega (arith, more, sum));
                  each = λ j.
                      let won =
                        pay_winners-balance_in j d v ws (pos 0) paid db mid
                          (PayeesKnown-winning_bets m win db.users db.markets db.bets k)
                          (rw staked (omega arith)) q in
                      let house_won =
                        credit_house-balance_in j (fee + (d - payouts d v ws)) mid last
                          (only.users house_user_id ∙ house) r in
                      rw result (rw on (omega (arith, won, house_won)));
                  bets = rw result (rest.bets ∙ only.bets);
                  pools = rw result (rest.pools ∙ only.pools);
                  users = λ j. rw result (rest.users j ∙ only.users j);
                  markets = rw result (rw (rest.markets, only.markets) refl);
                }
          ]
    ]

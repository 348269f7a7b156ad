-- ===== src/Bet/CreateLaws.antt =====
-- The creation of a market, as a whole.
use tchebets_open.Prelude.{
  ℕ, ◌*◌, ◌<◌, String, ◌≡◌, none, List, ok, inl, inr, Bool-cases, arith, pos, ◌==◌, lookup,
  lookup-add_row, length,
}
use tchebets_open.Int64.{int64_limit}
use tchebets_open.Bet.Models.{Market, Db}
use tchebets_open.Bet.Create.{create_market}
use tchebets_open.Bet.Wealth.{wealth}
use tchebets_open.Bet.Valid.{IsValid}
use tchebets_open.Bet.CreateValid.{
  new_market, with_market, create-Created, Opened, Created-Opened, at_stake-with_market,
}

module _ (m : ℕ) (bet_id : ℕ → ℕ) (now : ℕ) (question : String) (os : List String) (n : ℕ)
    (k : Market) (db db' : Db) (v : IsValid db) (small : n * length os < int64_limit)
    (e : create_market m bet_id now question os (pos n) db ≡ (ok k, db')) where
  create-Opened :
      (mid : Db) × Opened m n os (with_market m (new_market question os n now) db) mid db'
      × (lookup m db.markets ≡ none)
  create-Opened =
      let (n', mid, same, c) = create-Created m bet_id now question os (pos n) k db db' e in
      let eq : n' ≡ n = cc in
      (
        mid,
        Created-Opened m bet_id now question os n db mid db' v.balanced small (rw eq at c),
        c.fresh,
      )

  pub create_conserves : wealth db' ≡ wealth db
  unfolding wealth
  create_conserves =
      let (mid, o, fresh) = create-Opened in
      ground (
        arith,
        o.seeded.staked,
        o.seeded.users,
        o.only.markets,
        o.only.bets,
        o.paid,
        at_stake-with_market m (new_market question os n now) db.users db.markets db.bets fresh
            v.balanced.bets_known,
      )

  -- On valid tables, a successful `CreateMarket` leaves valid tables, where the seed times the number
  -- of outcomes is an `int64`.
  pub create-IsValid : IsValid db'
  create-IsValid =
      let (mid, o, fresh) = create-Opened in
      let row = new_market question os n now in
      record {
        balanced = o.seeded.balanced;
        pooled = λ j c q l h.
            let l' = rw (o.seeded.markets, o.only.markets) at l in
            elim (Bool-cases (j == m)) [
              | inl p ↦
                  let there : j ≡ m = ground arith in
                  let same : c ≡ row =
                    ground (arith, l', lookup-add_row m j row db.markets fresh) in
                  rw there (o.seeded.pooled q (rw same at h))
              | inr p ↦ o.seeded.kept j q (
                  rw o.only.pools (
                    v.pooled j c q (ground (arith, l', lookup-add_row m j row db.markets fresh)) h))
            ];
      }

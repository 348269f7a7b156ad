-- ===== src/Bet/Keeps.antt =====
-- Writes that leave the pools and the bets alone keep the tables valid.
use tchebets_open.Prelude.{
  ℕ, ◌≡◌, refl, ◌∙◌, true, some, inl, inr, Option-cases, arith, Table, lookup, modify,
  lookup-modify,
}
use tchebets_open.Bet.Models.{Market, Db, house_user_id}
use tchebets_open.Bet.Statements.{is_some}
use tchebets_open.Bet.Credits.{known, OnlyBalances}
use tchebets_open.Bet.Tables.{BetsKnown-keep}
use tchebets_open.Bet.Valid.{Balanced, IsValid}

-- What `db'` keeps of `db`: who is known, which markets there are and their outcomes.
pub record Kept (db db' : Db) : Type 0 where
  pub users : (j : ℕ) → known j db ≡ true → known j db' ≡ true
  pub markets :
      (j : ℕ) → is_some (lookup j db.markets) ≡ true → is_some (lookup j db'.markets) ≡ true
  pub outcomes :
      (j : ℕ) (k : Market)
      → lookup j db'.markets ≡ some k
      → (k0 : Market) × (lookup j db.markets ≡ some k0) × (k.outcomes ≡ k0.outcomes)

pub Kept-Balanced :
    (db db' : Db)
    → Kept db db'
    → db'.pools ≡ db.pools
    → db'.bets ≡ db.bets
    → Balanced db
    → Balanced db'
Kept-Balanced db db' k pools bets v = record {
  bets_known = rw bets (
      BetsKnown-keep db.users db'.users db.markets db'.markets db.bets k.users k.markets
        v.bets_known);
  keyed = rw pools v.keyed;
  market_staked = λ m. rw (pools, bets) (v.market_staked m);
  pool_staked = λ m o. rw (pools, bets) (v.pool_staked m o);
  house_known = k.users house_user_id v.house_known;
}

pub Kept-IsValid :
    (db db' : Db)
    → Kept db db'
    → db'.pools ≡ db.pools
    → db'.bets ≡ db.bets
    → IsValid db
    → IsValid db'
Kept-IsValid db db' k pools bets v = record {
  balanced = Kept-Balanced db db' k pools bets v.balanced;
  pooled = λ m c o l h.
      let (c0, l0, same) = k.outcomes m c l in rw pools (v.pooled m c0 o l0 (rw same at h));
}

pub Kept-refl : (db : Db) → Kept db db
Kept-refl db = record { users = λ j h. h; markets = λ j h. h; outcomes = λ j k l. (k, l, refl) }

pub Kept-trans : (a b c : Db) → Kept a b → Kept b c → Kept a c
Kept-trans a b c h k = record {
  users = λ j x. k.users j (h.users j x);
  markets = λ j x. k.markets j (h.markets j x);
  outcomes = λ j m l.
      let (m1, l1, s1) = k.outcomes j m l in
      let (m0, l0, s0) = h.outcomes j m1 l1 in (m0, l0, s1 ∙ s0);
}

pub OnlyBalances-Kept : (db db' : Db) → OnlyBalances db db' → Kept db db'
OnlyBalances-Kept db db' only = record {
  users = λ j h. only.users j ∙ h;
  markets = λ j h. rw only.markets h;
  outcomes = λ j k l. (k, rw only.markets at l, refl);
}

pub OnlyBalances-Balanced : (db db' : Db) → OnlyBalances db db' → Balanced db → Balanced db'
OnlyBalances-Balanced db db' only =
    Kept-Balanced db db' (OnlyBalances-Kept db db' only) only.pools only.bets

module _ (m : ℕ) (f : Market → Market) (same : (k : Market) → (f k).outcomes ≡ k.outcomes) where
  modify-known :
      (j : ℕ) (markets : Table Market)
      → is_some (lookup j markets) ≡ true
      → is_some (lookup j (modify m f markets)) ≡ true
  modify-known j markets h = ground (arith, lookup-modify m j f markets)

  modify-outcomes :
      (j : ℕ) (k : Market) (markets : Table Market)
      → lookup j (modify m f markets) ≡ some k
      → (k0 : Market) × (lookup j markets ≡ some k0) × (k.outcomes ≡ k0.outcomes)
  modify-outcomes j k markets l = elim (Option-cases (lookup j markets)) [
    | inl q ↦ absurd (ground (arith, lookup-modify m j f markets))
    | inr (k0, q) ↦ (k0, q, ground (arith, lookup-modify m j f markets, same k0))
  ]

  -- A market that changes in anything but its outcomes.
  pub modify-Kept :
      (db db' : Db)
      → ((j : ℕ) → known j db' ≡ known j db)
      → db'.markets ≡ modify m f db.markets
      → Kept db db'
  modify-Kept db db' users markets = record {
    users = λ j h. users j ∙ h;
    markets = λ j h. rw markets (modify-known j db.markets h);
    outcomes = λ j k l. modify-outcomes j k db.markets (rw markets at l);
  }

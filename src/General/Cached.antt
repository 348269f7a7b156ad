-- ===== src/General/Cached.antt =====
-- general-backend/handlers/profile_handlers.go: what the profile page remembers of the markets while it
-- lists the bets.
use mathlib.Core.Path.{subst}
use tchebets_open.Prelude.{
  ℕ, ◌≡◌, refl, sym, ap, ◌∙◌, ◌⊎◌, inl, inr, true, Option, none, some, List, [], ◌∷◌, map, Result,
  err, arith, ◌==◌, lookup, Option-cases, Bool-cases,
}
use tchebets_open.Bet.Models.{Db, Bet, BetListingDetails}
use tchebets_open.Bet.Details.{get_market_details}
use tchebets_open.Wallet.Effects.{next_answer, later_answers}
use tchebets_open.General.Site.{Site, SiteError, unavailable, call}
use tchebets_open.General.Refines.{Answer-cases}
use tchebets_open.General.Reads.{read_reply, client_market_details}
use tchebets_open.General.Picks.{HasLoss, later-HasLoss, dropped-HasLoss, unanswered-HasLoss}
use tchebets_open.General.Profile.{
  Shown, shown, MarketCache, fetch_from, fetch_market, HistoryItem, history_item, bet_history,
}

==_eq : (a b : ℕ) → (a == b) ≡ true → a ≡ b
==_eq a b e = ground (arith, e)

-- The question and the status of a market in the tables, or nothing.
abbrev pub truth : Db → ℕ → Shown
truth db m = elim (lookup m db.markets) [ none ↦ none | some k ↦ some (k.question, k.status) ]

details-truth :
    (m : ℕ) (db : Db)
    → shown (read_reply 404 (get_market_details (tt {0}) (λ _ _. tt {0}) m db)) ≡ truth db m
unfolding get_market_details
details-truth m db = elim (Option-cases (lookup m db.markets)) [
  | inl q ↦ ground (arith, q)
  | inr (k, q) ↦ ground (arith, q)
]

-- What the tables say, or nothing, and that only if `L`.
abbrev pub Honest : Type 0 → Db → ℕ → Shown → Type 0
Honest L db m d = (L × (d ≡ none)) ⊎ (d ≡ truth db m)

-- A read returns what the tables have, or an error, and that only if `L`, which holds wherever an
-- answer is lost; it leaves the tables.
pub read-returns :
    {A : Type 0} {L : Type 0} (f : Db → Result SiteError A) (s : Site)
    → (HasLoss s.answers → L)
    → let (r, t) = call (λ s. (f s.bets, s)) s in
      (t.bets ≡ s.bets) × (HasLoss t.answers → L) × ((L × (r ≡ err unavailable)) ⊎ (r ≡ f s.bets))
unfolding call
read-returns f s may =
    let later : HasLoss (later_answers s.answers) → _ = λ h. may (later-HasLoss s.answers h) in
    elim (Answer-cases (next_answer s.answers)) [
      | inl a ↦ rw a (refl, later, inr refl)
      | inr (inl a) ↦ rw a (refl, later, inl (may (dropped-HasLoss s.answers a), refl))
      | inr (inr a) ↦ rw a (refl, later, inl (may (unanswered-HasLoss s.answers a), refl))
    ]

abbrev pub Agrees : (ℕ → Shown) → MarketCache → Type 0
Agrees view cache = (m : ℕ) (d : Shown) → lookup m cache ≡ some d → view m ≡ d

abbrev remembered : Db → ℕ → Option Shown → Shown
remembered db m none = truth db m
remembered db m (some d) = d

module _ (m : ℕ) (cache : MarketCache) (d : Shown) where
  kept :
      (j : ℕ) (e : Shown)
      → lookup m cache ≡ none
      → lookup j cache ≡ some e
      → lookup j ((m, d) ∷ cache) ≡ some e
  kept j e new h = elim (Bool-cases (j == m)) [
    | inl same ↦ absurd (ground (arith, new, h, ap (λ k. lookup k cache) (==_eq j m same)))
    | inr other ↦ ground (arith, h, other)
  ]

  added :
      (P : ℕ → Shown → Type 0)
      → ((j : ℕ) (e : Shown) → lookup j cache ≡ some e → P j e)
      → P m d
      → (j : ℕ) (e : Shown) → lookup j ((m, d) ∷ cache) ≡ some e
      → P j e
  added P all here j e h = elim (Bool-cases (j == m)) [
    | inl same ↦
        let value : d ≡ e = ground (arith, h, same) in
        subst (λ k. P k e) (sym (==_eq j m same)) (subst (P m) value here)
    | inr other ↦ all j e (ground (arith, h, other))
  ]

module _ (L : Type 0) where
  abbrev AllHonest : Db → MarketCache → Type 0
  AllHonest db cache = (m : ℕ) (d : Shown) → lookup m cache ≡ some d → Honest L db m d

  asked :
      (m : ℕ) (s : Site)
      → (HasLoss s.answers → L)
      → let (r, t) = client_market_details m s in
        Honest L s.bets m (shown r) × (t.bets ≡ s.bets) × (HasLoss t.answers → L)
  unfolding client_market_details
  asked m s may =
      let (same, later, got) =
        read-returns (λ db. read_reply 404 (get_market_details (tt {0}) (λ _ _. tt {0}) m db)) s
          may in
      (
        elim got [
          | inl (l, e) ↦ inl (l, ap shown e)
          | inr e ↦ inr (ap shown e ∙ details-truth m s.bets)
        ],
        same,
        later,
      )

  -- Each item shows its market by one view, which is honest.
  abbrev pub Views :
      List BetListingDetails → List (ℕ × Bet) → MarketCache → Site → List HistoryItem → Type 0
  Views listings bets cache s items =
      (view : ℕ → Shown) × ((m : ℕ) → Honest L s.bets m (view m))
      × Agrees view cache
      × (items ≡ map (λ e. history_item listings e.0 e.1 (view (e.1).market_id)) bets)

  no_bets-Views :
      (listings : List BetListingDetails) (cache : MarketCache) (s : Site)
      → AllHonest s.bets cache
      → Views listings [] cache s []
  no_bets-Views listings cache s honest = (
    λ m. remembered s.bets m (lookup m cache),
    λ m. elim (Option-cases (lookup m cache)) [
      | inl new ↦ inr (ap (remembered s.bets m) new)
      | inr (d, old) ↦ rw old (honest m d old)
    ],
    λ m d e. ap (remembered s.bets m) e,
    refl,
  )

  -- The market is in the cache after it is fetched, and what was there stays.
  abbrev Fetched : ℕ → MarketCache → Site → Shown × MarketCache × Site → Type 0
  Fetched m cache s (d, cache', t) =
      (t.bets ≡ s.bets)
      × (HasLoss t.answers → L)
      × (lookup m cache' ≡ some d)
      × ((j : ℕ) (e : Shown) → lookup j cache ≡ some e → lookup j cache' ≡ some e)
      × (AllHonest s.bets cache → AllHonest s.bets cache')

  fetch_from-Fetched :
      (m : ℕ) (o : Option Shown) (cache : MarketCache) (s : Site)
      → (HasLoss s.answers → L)
      → lookup m cache ≡ o
      → Fetched m cache s (fetch_from m o cache s)
  fetch_from-Fetched m (some d) cache s may old = (refl, may, old, λ j e h. h, λ honest. honest)
  fetch_from-Fetched m none cache s may new =
      let d : Shown = shown (client_market_details m s).0 in
      let (honest, same, later) = asked m s may in
      (
        same,
        later,
        ground arith,
        λ j e h. kept m cache d j e new h,
        λ all. added m cache d (Honest L s.bets) all honest,
      )

  fetch_market-Fetched :
      (m : ℕ) (cache : MarketCache) (s : Site)
      → (HasLoss s.answers → L)
      → Fetched m cache s (fetch_market m cache s)
  unfolding fetch_market
  fetch_market-Fetched m cache s may = fetch_from-Fetched m (lookup m cache) cache s may refl

  pub bet_history-Views :
      (listings : List BetListingDetails) (bets : List (ℕ × Bet)) (cache : MarketCache) (s : Site)
      → (HasLoss s.answers → L)
      → AllHonest s.bets cache
      → Views listings bets cache s (bet_history listings bets cache s).0
  unfolding bet_history
  bet_history-Views listings [] cache s may honest = no_bets-Views listings cache s honest
  bet_history-Views listings ((i, b) ∷ bs) cache s may honest =
      let (d, cache', t) = fetch_market b.market_id cache s in
      let (same, later, here, stays, clean) = fetch_market-Fetched b.market_id cache s may in
      let (view, fair, agrees, items) =
        bet_history-Views listings bs cache' t later
          (subst (λ db. AllHonest db cache') (sym same) (clean honest)) in
      (
        view,
        subst (λ db. (m : ℕ) → Honest L db m (view m)) same fair,
        λ m e h. agrees m e (stays m e h),
        λ k. history_item listings i b (sym (agrees b.market_id d here) k) ∷ items k,
      )

-- ===== src/General/Remembered.antt =====
-- `Profile` of general-backend/handlers/profile_handlers.go: what the page shows is in the tables of
-- bet-backend.
use mathlib.Core.Path.{subst}
use tchebets_open.Prelude.{
  ℕ, ◌≡◌, refl, sym, ap, ◌∙◌, ◌⊎◌, inl, inr, none, some, List, [], ◌∷◌, map, Result, ok, err, arith,
  lookup, Option-cases,
}
use tchebets_open.Bet.Models.{Db, User, Bet, BetListingDetails}
use tchebets_open.Bet.Errors.{BetError}
use tchebets_open.Bet.Details.{get_user, list_user_bets, list_active_listings_for_seller}
use tchebets_open.General.Site.{Site, SiteError, unavailable, Account, user_reply, client_get_user}
use tchebets_open.General.Reads.{client_user_bets, client_user_listings}
use tchebets_open.General.Picks.{HasLoss}
use tchebets_open.General.Cached.{Honest, read-returns, bet_history-Views}
use tchebets_open.General.Owned.{
  UserBets, list_user_bets-UserBets, ShowsOffer, listing_by_bet-ShowsOffer, AllKnown,
  list_user_bets-AllKnown,
}
use tchebets_open.General.Profile.{
  Shown, HistoryItem, history_item, listing_by_bet, ProfilePage, listings_or_none, profile_of,
  profile_for, profile,
}

-- An item shows the bet, its market by the view, and a listing of the visitor that offers it.
abbrev pub ShowsBet : Type 0 → ℕ → Db → (ℕ → Shown) → ℕ × Bet → HistoryItem → Type 0
ShowsBet L id db view (i, b) h =
    (h.bet_id ≡ i) × (h.bet ≡ b) × (h.market ≡ view b.market_id) × ShowsOffer L id db i h.listing

abbrev pub ShowsBets : Type 0 → ℕ → Db → (ℕ → Shown) → List (ℕ × Bet) → List HistoryItem → Type 0
ShowsBets L id db view [] [] = Unit
ShowsBets L id db view (e ∷ es) (h ∷ hs) = ShowsBet L id db view e h × ShowsBets L id db view es hs
ShowsBets L id db view _ _ = ⊥

-- The page shows exactly the bets of the visitor, newest first, with one view of each market.
abbrev pub Lists : Type 0 → ℕ → Db → List HistoryItem → Type 0
Lists L id db items =
    (bets : List (ℕ × Bet)) × (view : ℕ → Shown) × UserBets id db bets
    × ((m : ℕ) → Honest L db m (view m))
    × ShowsBets L id db view bets items

abbrev pub Shows : Type 0 → Account → ℕ → Db → Result ℕ ProfilePage → Type 0
Shows L a id db (err code) = (code ≡ 502) × (L ⊎ (lookup id db.users ≡ none))
Shows L a id db (ok page) =
    (page.email ≡ a.email)
    × ((u : User) × (lookup id db.users ≡ some u) × (page.balance ≡ u.balance))
    × Lists L id db page.bets

user_reply-ok : (r : Result BetError User) (u : User) → ok u ≡ user_reply r → r ≡ ok u
user_reply-ok (ok v) u e = ground (arith, e)
user_reply-ok (err x) u e = absurd (ground (arith, e))

get_user-known : (id : ℕ) (u : User) (db : Db) → get_user id db ≡ ok u → lookup id db.users ≡ some u
unfolding get_user
get_user-known id u db e = elim (Option-cases (lookup id db.users)) [
  | inl q ↦ absurd (ground (arith, q, e))
  | inr (v, q) ↦ ground (arith, q, e)
]

get_user-unknown :
    (id : ℕ) (x : SiteError) (db : Db)
    → err x ≡ user_reply (get_user id db)
    → lookup id db.users ≡ none
unfolding get_user
get_user-unknown id x db e = elim (Option-cases (lookup id db.users)) [
  | inl q ↦ q
  | inr (v, q) ↦ absurd (ground (arith, q, e))
]

module _ (L : Type 0) (a : Account) (id : ℕ) (db : Db) where
  -- The listings were lost, or are those of the visitor.
  abbrev Offered : List BetListingDetails → Type 0
  Offered ls = (L × (ls ≡ [])) ⊎ (ls ≡ list_active_listings_for_seller id db)

  offer-Shows :
      (ls : List BetListingDetails) (i : ℕ)
      → Offered ls
      → (c : Bet) × (lookup i db.bets ≡ some c)
      → ShowsOffer L id db i (listing_by_bet ls i)
  offer-Shows ls i (inl (lost, e)) k =
      subst (λ x. ShowsOffer L id db i (listing_by_bet x i)) (sym e) (inl lost)
  offer-Shows ls i (inr e) (c, k) =
      subst (λ x. ShowsOffer L id db i (listing_by_bet x i)) (sym e)
        (listing_by_bet-ShowsOffer L id db i c
          (listing_by_bet (list_active_listings_for_seller id db) i) k refl)

  items-Show :
      (ls : List BetListingDetails) (view : ℕ → Shown) (bets : List (ℕ × Bet))
      → Offered ls
      → AllKnown db bets
      → ShowsBets L id db view bets (map (λ e. history_item ls e.0 e.1 (view (e.1).market_id)) bets)
  items-Show ls view [] o k = tt
  items-Show ls view (e ∷ es) o k =
      ((refl, refl, refl, offer-Shows ls e.0 o k.0), items-Show ls view es o k.1)

  listed :
      (r : Result SiteError (List BetListingDetails))
      → (L × (r ≡ err unavailable)) ⊎ (r ≡ ok (list_active_listings_for_seller id db))
      → Offered (listings_or_none r)
  listed r (inl (lost, e)) = inl (lost, ap listings_or_none e)
  listed r (inr e) = inr (ap listings_or_none e)

  profile_of-Shows :
      (u : User) (r : Result SiteError (List (ℕ × Bet))) (s : Site)
      → s.bets ≡ db
      → (HasLoss s.answers → L)
      → get_user id db ≡ ok u
      → (L × (r ≡ err unavailable)) ⊎ (r ≡ ok (list_user_bets id db))
      → Shows L a id db (profile_of a id u (r, s)).0
  unfolding client_user_listings
  profile_of-Shows u (err e) s same may known (inl (lost, q)) = (refl, inl lost)
  profile_of-Shows u (err e) s same may known (inr got) = absurd (ground (arith, got))
  profile_of-Shows u (ok bets) s same may known (inl (lost, q)) = absurd (ground (arith, q))
  profile_of-Shows u (ok bets) s same may known (inr got) =
      let (r, t) = client_user_listings id s in
      let (kept, later, choice) =
        read-returns {L = L} (λ x. ok (list_active_listings_for_seller id x)) s may in
      let ls : List BetListingDetails = listings_or_none r in
      let (view, honest, agrees, items) =
        bet_history-Views L ls bets [] t later (λ m d e. absurd (ground (arith, e))) in
      let all : bets ≡ list_user_bets id db = ground (arith, got) in
      let offers = listed r (
        subst (λ x. (L × (r ≡ err unavailable)) ⊎ (r ≡ ok (list_active_listings_for_seller id x)))
          same choice) in
      (
        refl,
        (u, get_user-known id u db known, refl),
        (
          bets,
          view,
          subst (UserBets id db) (sym all) (list_user_bets-UserBets id db),
          subst (λ x. (m : ℕ) → Honest L x m (view m)) (kept ∙ same) honest,
          subst (ShowsBets L id db view bets) (sym items) (
              items-Show ls view bets offers
                (subst (AllKnown db) (sym all) (list_user_bets-AllKnown id db))),
        ),
      )

  profile_for-Shows :
      (r : Result SiteError User) (s : Site)
      → s.bets ≡ db
      → (HasLoss s.answers → L)
      → (L × (r ≡ err unavailable)) ⊎ (r ≡ user_reply (get_user id db))
      → Shows L a id db (profile_for a id (r, s)).0
  unfolding client_user_bets
  profile_for-Shows (err e) s same may (inl (lost, q)) = (refl, inl lost)
  profile_for-Shows (err e) s same may (inr found) = (refl, inr (get_user-unknown id e db found))
  profile_for-Shows (ok u) s same may (inl (lost, q)) = absurd (ground (arith, q))
  profile_for-Shows (ok u) s same may (inr found) =
      let (kept, later, got) = read-returns {L = L} (λ x. ok (list_user_bets id x)) s may in
      profile_of-Shows u _ _ (kept ∙ same) later (user_reply-ok _ u found) (
        subst
          (λ x.
            (L × ((client_user_bets id s).0 ≡ err unavailable))
            ⊎ ((client_user_bets id s).0 ≡ ok (list_user_bets id x)))
          same got)

-- Whatever calls are lost, the profile page shows exactly the bets of the visitor, newest first, each
-- beside the question and the status of its market and the listing of the visitor that offers it, if
-- there is one, under the email of the account and the balance of the user. It is a 502 only if a
-- call is lost or bet-backend has no such user; and only if a call is lost it may show nothing of a
-- market, the same for all bets in it, or leave out listings.
pub profile-Shows :
    (a : Account) (id : ℕ) (s : Site) → Shows (HasLoss s.answers) a id s.bets (profile a id s).0
unfolding profile client_get_user
profile-Shows a id s =
    let (kept, later, got) =
      read-returns {L = HasLoss s.answers} (λ db. user_reply (get_user id db)) s (λ h. h) in
    profile_for-Shows (HasLoss s.answers) a id s.bets _ _ kept later got

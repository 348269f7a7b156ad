-- ===== src/General/Sound.antt =====
-- The JSON routes of general-backend over the tables of bet-backend: what holds of the tables under any
-- traffic.
use mathlib.Core.Path.{subst}
use native.Mathlib.Nat.{mul-le-mul_left}
use tchebets_open.Prelude.{
  ℕ, ◌+◌, ◌*◌, ◌≤◌, ◌<◌, String, ◌≡◌, refl, sym, ap, inl, inr, true, false, List, [], ◌∷◌, ok,
  arith,
}
use tchebets_open.Int64.{int64_limit}
use tchebets_open.Bet.Models.{Db}
use tchebets_open.Bet.Wealth.{wealth, pools_in}
use tchebets_open.Bet.Valid.{IsValid}
use tchebets_open.Bet.History.{
  Request, create, place, lock, resolve, cancel, adjust, sync, list_bet, unlist, buy, Fits, inflow,
}
use tchebets_open.Bet.Conservation.{step_conserves}
use tchebets_open.General.Sanitize.{sanitize_uuid, max_sanity_int}
use tchebets_open.General.Site.{Site, Env}
use tchebets_open.General.Api.{
  ApiRequest, post_sync, post_market, post_bet, post_lock, post_resolve, post_cancel, post_listing,
  post_unlist, post_buy, fetch_user, fetch_market, fetch_market_bets, fetch_user_bets,
  fetch_market_listings, fetch_user_listings, fetch_markets, handle_api, run_api,
}
use tchebets_open.General.Forwards.{Tame, Resolves, is_resolve, is_plain}
use tchebets_open.General.Refines.{api_step}

plain-not_resolve : (r : Request) → is_plain r ≡ true → is_resolve r ≡ false
plain-not_resolve (resolve m win) p = absurd (ground arith)
plain-not_resolve (sync u balance) p = refl
plain-not_resolve (adjust u delta) p = refl
plain-not_resolve (create m ids q os seed) p = refl
plain-not_resolve (place b u m o stake) p = refl
plain-not_resolve (lock m) p = refl
plain-not_resolve (cancel m) p = refl
plain-not_resolve (list_bet l b s price) p = refl
plain-not_resolve (unlist l s) p = refl
plain-not_resolve (buy l b) p = refl

-- A tame request that is no settlement stays within int64.
Tame-Fits : (r : Request) (db : Db) → Tame r → is_resolve r ≡ false → Fits r db
Tame-Fits (create m ids q os seed) db (q_clean, low, high, os_clean, (k, e, least, le)) n =
    ground (arith, e, mul-le-mul_left k high)
Tame-Fits (resolve m win) db t n = absurd (ground arith)
Tame-Fits (adjust u delta) db t n = absurd t
Tame-Fits (place b u m o stake) db t n = tt
Tame-Fits (lock m) db t n = tt
Tame-Fits (cancel m) db t n = tt
Tame-Fits (sync u balance) db t n = tt
Tame-Fits (list_bet l b s price) db t n = tt
Tame-Fits (unlist l s) db t n = tt
Tame-Fits (buy l b) db t n = tt

plain-inflow : (now : ℕ) (r : Request) (db : Db) → is_plain r ≡ true → inflow now r db ≡ 0
unfolding inflow
plain-inflow now (resolve m win) db p = refl
plain-inflow now (sync u balance) db p = absurd (ground arith)
plain-inflow now (adjust u delta) db p = absurd (ground arith)
plain-inflow now (create m ids q os seed) db p = refl
plain-inflow now (place b u m o stake) db p = refl
plain-inflow now (lock m) db p = refl
plain-inflow now (cancel m) db p = refl
plain-inflow now (list_bet l b s price) db p = refl
plain-inflow now (unlist l s) db p = refl
plain-inflow now (buy l b) db p = refl

resolve-inflow : (now m : ℕ) (o : String) (db : Db) → inflow now (resolve m o) db ≡ 0
unfolding inflow
resolve-inflow now m o db = refl

inflow_le : (now : ℕ) (r : Request) (db : Db) → Tame r → inflow now r db ≤ max_sanity_int
unfolding inflow
inflow_le now (resolve m win) db t = ground arith
inflow_le now (sync u balance) db (k, e, low, high) = ground (arith, e, high)
inflow_le now (adjust u delta) db t = absurd t
inflow_le now (create m ids q os seed) db t = ground arith
inflow_le now (place b u m o stake) db t = ground arith
inflow_le now (lock m) db t = ground arith
inflow_le now (cancel m) db t = ground arith
inflow_le now (list_bet l b s price) db t = ground arith
inflow_le now (unlist l s) db t = ground arith
inflow_le now (buy l b) db t = ground arith

-- The requests to set a balance.
abbrev pub sync_count : List (ℕ × ApiRequest) → ℕ
sync_count [] = 0
sync_count ((now, post_sync id n) ∷ qs) = 1 + sync_count qs
sync_count ((now, q) ∷ qs) = sync_count qs

sync_count-grows :
    (q : ApiRequest) (now : ℕ) (qs : List (ℕ × ApiRequest))
    → sync_count qs ≤ sync_count ((now, q) ∷ qs)
sync_count-grows (post_sync id n) now qs = omega arith
sync_count-grows (post_resolve path win) now qs = omega arith
sync_count-grows (post_market m ids q os n) now qs = omega arith
sync_count-grows (post_bet b path u o n) now qs = omega arith
sync_count-grows (post_lock path) now qs = omega arith
sync_count-grows (post_cancel path) now qs = omega arith
sync_count-grows (post_listing l path u n) now qs = omega arith
sync_count-grows (post_unlist path u) now qs = omega arith
sync_count-grows (post_buy path u) now qs = omega arith
sync_count-grows (fetch_user path) now qs = omega arith
sync_count-grows (fetch_market path) now qs = omega arith
sync_count-grows (fetch_market_bets path) now qs = omega arith
sync_count-grows (fetch_user_bets path) now qs = omega arith
sync_count-grows (fetch_market_listings path) now qs = omega arith
sync_count-grows (fetch_user_listings path) now qs = omega arith
sync_count-grows fetch_markets now qs = omega arith

module _ (env : Env) where
  -- The pools of a market that the request settles have a square below 2^63.
  abbrev pub SmallAt : ApiRequest → Db → Type 0
  SmallAt (post_resolve path win) db =
      (m : ℕ)
      → sanitize_uuid env.parse_uuid path ≡ ok m
      → pools_in m db.pools * pools_in m db.pools < int64_limit
  SmallAt _ db = Unit

  abbrev pub AllSmall : List (ℕ × ApiRequest) → Site → Type 0
  AllSmall [] s = Unit
  AllSmall ((now, q) ∷ qs) s = SmallAt q s.bets × AllSmall qs (handle_api env now q s).1

  small-Fits :
      (q : ApiRequest) (r : Request) (db : Db)
      → SmallAt q db
      → Tame r
      → Resolves env q r
      → Fits r db
  small-Fits (post_resolve path win) r db small t (m, o, e, same) = rw same (small m e)
  small-Fits (post_sync id n) r db small t k = Tame-Fits r db t k
  small-Fits (post_market m ids q os n) r db small t k = Tame-Fits r db t (plain-not_resolve r k)
  small-Fits (post_bet b path u o n) r db small t k = Tame-Fits r db t (plain-not_resolve r k)
  small-Fits (post_lock path) r db small t k = Tame-Fits r db t (plain-not_resolve r k)
  small-Fits (post_cancel path) r db small t k = Tame-Fits r db t (plain-not_resolve r k)
  small-Fits (post_listing l path u n) r db small t k = Tame-Fits r db t (plain-not_resolve r k)
  small-Fits (post_unlist path u) r db small t k = Tame-Fits r db t (plain-not_resolve r k)
  small-Fits (post_buy path u) r db small t k = Tame-Fits r db t (plain-not_resolve r k)
  small-Fits (fetch_user path) r db small t k = Tame-Fits r db t (plain-not_resolve r k)
  small-Fits (fetch_market path) r db small t k = Tame-Fits r db t (plain-not_resolve r k)
  small-Fits (fetch_market_bets path) r db small t k = Tame-Fits r db t (plain-not_resolve r k)
  small-Fits (fetch_user_bets path) r db small t k = Tame-Fits r db t (plain-not_resolve r k)
  small-Fits (fetch_market_listings path) r db small t k = Tame-Fits r db t (plain-not_resolve r k)
  small-Fits (fetch_user_listings path) r db small t k = Tame-Fits r db t (plain-not_resolve r k)
  small-Fits fetch_markets r db small t k = Tame-Fits r db t (plain-not_resolve r k)

  api-inflow :
      (q : ApiRequest) (qs : List (ℕ × ApiRequest)) (now : ℕ) (r : Request) (db : Db)
      → Tame r
      → Resolves env q r
      → inflow now r db + max_sanity_int * sync_count qs
        ≤ max_sanity_int * sync_count ((now, q) ∷ qs)
  api-inflow (post_sync id n) qs now r db t k = omega (arith, inflow_le now r db t)
  api-inflow (post_resolve path win) qs now r db t (m, o, e, same) =
      omega (arith, resolve-inflow now m o db, ap (λ x. inflow now x db) same)
  api-inflow (post_market m ids q os n) qs now r db t k = omega (arith, plain-inflow now r db k)
  api-inflow (post_bet b path u o n) qs now r db t k = omega (arith, plain-inflow now r db k)
  api-inflow (post_lock path) qs now r db t k = omega (arith, plain-inflow now r db k)
  api-inflow (post_cancel path) qs now r db t k = omega (arith, plain-inflow now r db k)
  api-inflow (post_listing l path u n) qs now r db t k = omega (arith, plain-inflow now r db k)
  api-inflow (post_unlist path u) qs now r db t k = omega (arith, plain-inflow now r db k)
  api-inflow (post_buy path u) qs now r db t k = omega (arith, plain-inflow now r db k)
  api-inflow (fetch_user path) qs now r db t k = omega (arith, plain-inflow now r db k)
  api-inflow (fetch_market path) qs now r db t k = omega (arith, plain-inflow now r db k)
  api-inflow (fetch_market_bets path) qs now r db t k = omega (arith, plain-inflow now r db k)
  api-inflow (fetch_user_bets path) qs now r db t k = omega (arith, plain-inflow now r db k)
  api-inflow (fetch_market_listings path) qs now r db t k = omega (arith, plain-inflow now r db k)
  api-inflow (fetch_user_listings path) qs now r db t k = omega (arith, plain-inflow now r db k)
  api-inflow fetch_markets qs now r db t k = omega (arith, plain-inflow now r db k)

  -- From valid tables, under any traffic on the JSON routes and whatever answers are lost, where each
  -- market that a request settles has pools whose square is below 2^63: the tables of bet-backend
  -- stay valid, and their money grows by at most 10^9 for each request to set a balance.
  pub run_api_conserves :
      (qs : List (ℕ × ApiRequest)) (s : Site)
      → IsValid s.bets
      → AllSmall qs s
      → IsValid (run_api env qs s).bets
        × (wealth (run_api env qs s).bets ≤ wealth s.bets + max_sanity_int * sync_count qs)
  unfolding run_api
  run_api_conserves [] s v a = (v, omega arith)
  run_api_conserves ((now, q) ∷ qs) s v (small, a) =
      let next = (handle_api env now q s).1 in
      elim (api_step env now q s).1 [
        | inl k ↦
            let (valid, grown) = run_api_conserves qs next (subst IsValid (sym k) v) a in
            (valid, omega (arith, grown, ap wealth k, sync_count-grows q now qs))
        | inr (r, t, kind, k) ↦
            let (after, money) =
              step_conserves now r s.bets v (small-Fits q r s.bets small t kind) in
            let (valid, grown) = run_api_conserves qs next (subst IsValid (sym k) after) a in
            (valid, omega (arith, grown, ap wealth k, money, api-inflow q qs now r s.bets t kind))
      ]

-- ===== src/General/Forwards.antt =====
-- What the JSON routes of general-backend/handlers/handlers.go forward to bet-backend.
use tchebets_open.Prelude.{
  String, ℕ, ◌≤◌, ◌≡◌, refl, ◌⊎◌, inl, inr, Bool, true, false, ◌&&◌, Result, ok, err, arith, ℤ, pos,
  length,
}
use tchebets_open.Bet.History.{
  Request, create, place, lock, resolve, cancel, adjust, sync, list_bet, unlist, buy,
}
use tchebets_open.Bet.Handlers.{is_given, handle}
use tchebets_open.General.Sanitize.{
  SanitizeError, max_sanity_int, sanitize_uuid, non_empty_string, positive_int64,
  non_negative_int64, sanitize_outcomes,
}
use tchebets_open.General.Sanitized.{
  IsClean, AllClean, non_empty_string-IsClean, positive_int64-bounds, non_negative_int64-bounds,
  sanitize_outcomes-clean,
}
use tchebets_open.General.Site.{
  Site, Env, relay, Read, read_user, read_market, read_market_bets, read_user_bets,
  read_market_listings, read_user_listings, handle_read,
}
use tchebets_open.General.Api.{
  Api, ApiRequest, post_sync, post_market, post_bet, post_lock, post_resolve, post_cancel,
  post_listing, post_unlist, post_buy, fetch_user, fetch_market, fetch_market_bets, fetch_user_bets,
  fetch_market_listings, fetch_user_listings, fetch_markets, checked, bound_json, max_question_len,
  max_outcome_len, handle_api, is_nonzero, api_sync, api_create, api_place, api_lock, api_resolve,
  api_cancel, api_list, api_unlist, api_buy, api_get, api_list_markets,
}

-- An amount from `low` to the cap of the sanitizing.
abbrev pub InRange : ℕ → ℤ → Type 0
InRange low n = (k : ℕ) × (n ≡ pos k) × (low ≤ k) × (k ≤ max_sanity_int)

-- The requests that pass the checks of general-backend: the changes of a balance by a delta are not
-- among them.
abbrev pub Tame : Request → Type 0
Tame (create m ids q os seed) =
    IsClean max_question_len q
    × (2 ≤ length os)
    × (length os ≤ 10)
    × AllClean max_outcome_len os
    × InRange 0 seed
Tame (place b u m o stake) = IsClean max_outcome_len o × InRange 1 stake
Tame (lock m) = Unit
Tame (resolve m win) = IsClean max_outcome_len win
Tame (cancel m) = Unit
Tame (adjust u delta) = ⊥
Tame (sync u balance) = InRange 0 balance
Tame (list_bet l b s price) = InRange 1 price
Tame (unlist l s) = Unit
Tame (buy l b) = Unit

abbrev pub is_resolve : Request → Bool
is_resolve (resolve m win) = true
is_resolve _ = false

-- Neither a settlement nor a change of a balance from outside.
abbrev pub is_plain : Request → Bool
is_plain (resolve m win) = false
is_plain (sync u balance) = false
is_plain (adjust u delta) = false
is_plain _ = true

-- Only a request to resolve a market becomes one, of the market of its path; only one to set a
-- balance sets one.
abbrev pub Resolves : Env → ApiRequest → Request → Type 0
Resolves env (post_resolve path win) r =
    (m : ℕ) × (o : String) × (sanitize_uuid env.parse_uuid path ≡ ok m) × (r ≡ resolve m o)
Resolves env (post_sync id n) r = is_resolve r ≡ false
Resolves env _ r = is_plain r ≡ true

-- A handler refuses with 400 before any call, forwards one request of that kind, or only reads.
abbrev pub Forwards : ℕ → Site → (Request → Type 0) → ℕ × Site → Type 0
Forwards now s K out =
    (out ≡ (400, s))
    ⊎ (((r : Request) × Tame r × K r × (out ≡ relay (handle now r) s))
        ⊎ ((d : Read) × (out ≡ relay (handle_read d) s)))

module _ (now : ℕ) (s : Site) {K : Request → Type 0} where
  checked-Forwards :
      {A : Type 0} (r : Result SanitizeError A) (f : A → Api)
      → ((a : A) → r ≡ ok a → Forwards now s K (f a s))
      → Forwards now s K (checked r f s)
  checked-Forwards (ok a) f h = h a refl
  checked-Forwards (err e) f h = inl refl

  bound-Forwards :
      (b : Bool) (f : Api)
      → (b ≡ true → Forwards now s K (f s))
      → Forwards now s K (bound_json b f s)
  bound-Forwards true f h = h refl
  bound-Forwards false f h = inl refl

  sent :
      (r : Request) (out : ℕ × Site)
      → K r
      → Tame r
      → out ≡ relay (handle now r) s
      → Forwards now s K out
  sent r out k t e = inr (inl (r, t, k, e))

module _ (now : ℕ) (s : Site) (env : Env) where
  get-Forwards :
      {K : Request → Type 0} (path : String) (read : ℕ → Read)
      → Forwards now s K (api_get env path read s)
  unfolding api_get
  get-Forwards path read =
      checked-Forwards now s (sanitize_uuid env.parse_uuid path) _ λ id _. inr (inr (read id, refl))

  pub api-Forwards : (q : ApiRequest) → Forwards now s (Resolves env q) (handle_api env now q s)
  unfolding handle handle_api api_sync api_create api_place api_lock api_resolve api_cancel api_list
      api_unlist api_buy api_get api_list_markets
  api-Forwards (post_sync id n) = bound-Forwards now s (is_given id) _ λ _.
      checked-Forwards now s (sanitize_uuid env.parse_uuid id) _ λ u _.
        checked-Forwards now s (non_negative_int64 n max_sanity_int) _ λ v e.
          let (k, a, b, c) = non_negative_int64-bounds n v max_sanity_int e in
          sent now s (sync u v) _ refl (k, b, omega arith, c) refl
  api-Forwards (post_market m ids q os n) = bound-Forwards now s (is_given q) _ λ _.
      checked-Forwards now s (non_empty_string q max_question_len) _ λ t e.
        checked-Forwards now s (sanitize_outcomes env.to_lower os 2 10 max_outcome_len) _ λ ts f.
          checked-Forwards now s (non_negative_int64 n max_sanity_int) _ λ v g.
            let (k, a, b, c) = non_negative_int64-bounds n v max_sanity_int g in
            let (low, high, clean, distinct, again) =
              sanitize_outcomes-clean env.to_lower os ts 2 10 max_outcome_len f in
            sent now s (create m ids t ts v) _ refl
              (
                non_empty_string-IsClean q t max_question_len e,
                low,
                high,
                clean,
                (k, b, omega arith, c),
              )
              refl
  api-Forwards (post_bet b path u o n) =
      checked-Forwards now s (sanitize_uuid env.parse_uuid path) _ λ m _.
        bound-Forwards now s (is_given u && is_given o && is_nonzero n) _ λ _.
          checked-Forwards now s (sanitize_uuid env.parse_uuid u) _ λ v _.
            checked-Forwards now s (non_empty_string o max_outcome_len) _ λ t e.
              checked-Forwards now s (positive_int64 n max_sanity_int) _ λ w g.
                let (k, a, eq, low, high) = positive_int64-bounds n w max_sanity_int g in
                sent now s (place b v m t w) _ refl
                  (non_empty_string-IsClean o t max_outcome_len e, (k, eq, omega arith, high)) refl
  api-Forwards (post_lock path) =
      checked-Forwards now s (sanitize_uuid env.parse_uuid path) _
        λ m _. sent now s (lock m) _ refl tt refl
  api-Forwards (post_resolve path win) =
      checked-Forwards now s (sanitize_uuid env.parse_uuid path) _ λ m id.
        bound-Forwards now s (is_given win) _ λ _.
          checked-Forwards now s (non_empty_string win max_outcome_len) _ λ t e.
            sent now s (resolve m t) _ (m, t, id, refl)
              (non_empty_string-IsClean win t max_outcome_len e) refl
  api-Forwards (post_cancel path) =
      checked-Forwards now s (sanitize_uuid env.parse_uuid path) _
        λ m _. sent now s (cancel m) _ refl tt refl
  api-Forwards (post_listing l path u n) =
      checked-Forwards now s (sanitize_uuid env.parse_uuid path) _ λ b _.
        bound-Forwards now s (is_given u && is_nonzero n) _ λ _.
          checked-Forwards now s (sanitize_uuid env.parse_uuid u) _ λ v _.
            checked-Forwards now s (positive_int64 n max_sanity_int) _ λ w g.
              let (k, a, eq, low, high) = positive_int64-bounds n w max_sanity_int g in
              sent now s (list_bet l b v w) _ refl (k, eq, omega arith, high) refl
  api-Forwards (post_unlist path u) =
      checked-Forwards now s (sanitize_uuid env.parse_uuid path) _ λ l _.
        bound-Forwards now s (is_given u) _ λ _.
          checked-Forwards now s (sanitize_uuid env.parse_uuid u) _
            λ v _. sent now s (unlist l v) _ refl tt refl
  api-Forwards (post_buy path u) =
      checked-Forwards now s (sanitize_uuid env.parse_uuid path) _ λ l _.
        bound-Forwards now s (is_given u) _ λ _.
          checked-Forwards now s (sanitize_uuid env.parse_uuid u) _
            λ v _. sent now s (buy l v) _ refl tt refl
  api-Forwards (fetch_user path) = get-Forwards path read_user
  api-Forwards (fetch_market path) = get-Forwards path read_market
  api-Forwards (fetch_market_bets path) = get-Forwards path read_market_bets
  api-Forwards (fetch_user_bets path) = get-Forwards path read_user_bets
  api-Forwards (fetch_market_listings path) = get-Forwards path read_market_listings
  api-Forwards (fetch_user_listings path) = get-Forwards path read_user_listings
  api-Forwards fetch_markets = inr (inr (_, refl))

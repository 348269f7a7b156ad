-- ===== src/General/Views.antt =====
-- general-backend/handlers/viewbuild.go, general-backend/views/viewmodels.go and the lists of
-- general-backend/handlers/public_handlers.go: what the pages show of the markets. The printing of
-- numbers and times, the sorting and the sparkline are library code or floats, and are parameters or
-- left out.
use Prim.Native.String.{[], ◌∷◌, len, ◌++◌}
use tchebets_open.Prelude.{
  ℕ, suc, ◌-◌, ◌%◌, String, Bool, true, false, not, ◌&&◌, ◌||◌, Option, none, some, List, [], ◌∷◌,
  Result, ok, err, ◌==◌, ltb, if◌then◌else◌, ℤ, pos, negsuc, ltb_ℤ, length, Table,
}
use tchebets_open.Int64.{mul64, div64, sub64}
use tchebets_open.Bet.Models.{Bet, BetListingDetails, house_user_id, is_open}
use tchebets_open.Bet.Details.{MarketDetails, get_key}
use tchebets_open.General.Site.{Site, SiteError, Account}
use tchebets_open.General.Accounts.{find_account_by_id}

-- A missing key of a map reads as 0.
abbrev pub key_or_zero : Option ℤ → ℤ
key_or_zero none = pos 0
key_or_zero (some v) = v

-- A division of Go: `none` where it divides by zero, and so panics.
abbrev pub divide : ℤ → ℤ → Option ℤ
divide a (pos n) = if n == 0 then none else some (div64 a (pos n))
divide a (negsuc n) = some (div64 a (negsuc n))

-- `pct`.
unfoldable pub pct : ℤ → ℤ → Option ℤ
pct part total =
    if not (ltb_ℤ (pos 0) total) then some (pos 0) else divide (mul64 part (pos 100)) total

-- `100 - simPct`.
abbrev pub rest_of : Option ℤ → Option ℤ
rest_of none = none
rest_of (some k) = some (sub64 (pos 100) k)

abbrev pub low_liquidity_threshold : ℤ
low_liquidity_threshold = pos 500

-- `centsPriceLabel`, from what `%02d` prints.
unfoldable pub cents_price_label : (ℤ → String) → ℤ → String
cents_price_label two_digits p = "R$ 0," ++ two_digits p

-- The loop of `FormatMoney` over the digits, from the position `i` in a text of `n` bytes.
unfoldable pub group_digits : (n i : ℕ) → String → String
group_digits n i [] = []
group_digits n i (c ∷ s) =
    let rest = group_digits n (suc i) s in
    if ltb 0 i && ((n - i) % 3 == 0) then "." ++ c ∷ rest else c ∷ rest

-- `FormatMoney`, from what `%d` prints; the negation wraps around.
unfoldable pub format_money : (ℤ → String) → ℤ → String
format_money print v =
    let neg = ltb_ℤ v (pos 0) in
    let s = print (if neg then sub64 (pos 0) v else v) in
    (if neg then "-" else "") ++ "R$ " ++ group_digits (len s) 0 s ++ ",00"

-- `bettorCount`: `seen` is the map, and the house does not count.
abbrev pub member : ℕ → List ℕ → Bool
member u [] = false
member u (v ∷ vs) = if u == v then true else member u vs

unfoldable pub bettors : List (ℕ × Bet) → List ℕ → List ℕ
bettors [] seen = seen
bettors ((i, b) ∷ bs) seen = bettors bs (
    if b.user_id == house_user_id
    then seen
    else if member b.user_id seen
    then seen
    else b.user_id ∷ seen)

unfoldable pub bettor_count : List (ℕ × Bet) → ℕ
bettor_count bs = length (bettors bs [])

-- `loadAccountsFor`: each user once, and an account that is not found is left out.
abbrev pub noted : ℕ → Result SiteError Account → Table Account → Table Account
noted u (ok a) out = (u, a) ∷ out
noted u (err _) out = out

abbrev pub Loaded : Type 0
Loaded = List ℕ × Table Account × Site

unfoldable pub load_account : ℕ → Loaded → Loaded
load_account u (seen, out, s) =
    if member u seen || (u == house_user_id)
    then (seen, out, s)
    else (let (r, t) = find_account_by_id u s in (u ∷ seen, noted u r out, t))

unfoldable pub load_accounts_for : List (ℕ × Bet) → Loaded → Loaded
unfolding load_account
load_accounts_for [] acc = acc
load_accounts_for ((i, b) ∷ bs) acc = load_accounts_for bs (load_account b.user_id acc)

-- `MarketCardVM`, but for its texts; a percentage is `none` where the code panics.
pub record MarketCard : Type 0 where
  pub sim_pct : Option ℤ
  pub nao_pct : Option ℤ
  pub is_live : Bool
  pub low_liquidity : Bool

module _ {F : Type 0} where
  -- `hasRealBets`.
  unfoldable pub has_real_bets : MarketDetails F → Bool
  has_real_bets d =
      ltb_ℤ (mul64 (pos (d.market).seed) (pos (length (d.market).outcomes))) d.total_pool

  -- `buildMarketCardVM`; `buildMarketDetailVM` computes the same four fields.
  unfoldable pub build_market_card : MarketDetails F → MarketCard
  unfolding pct has_real_bets
  build_market_card d = record {
    sim_pct = pct (key_or_zero (get_key "SIM" d.pools)) d.total_pool;
    nao_pct = rest_of (pct (key_or_zero (get_key "SIM" d.pools)) d.total_pool);
    is_live = is_open (d.market).status && has_real_bets d;
    low_liquidity = ltb_ℤ d.total_pool low_liquidity_threshold;
  }

-- The bets of `buildActivityFeed`, newest first by the library's sort, the house left out.
unfoldable pub real_bets : List (ℕ × Bet) → List (ℕ × Bet)
real_bets [] = []
real_bets ((i, b) ∷ bs) =
    let rest = real_bets bs in if b.user_id == house_user_id then rest else (i, b) ∷ rest

abbrev pub take {ℓ} : {A : Type ℓ} → ℕ → List A → List A
take n [] = []
take n (x ∷ xs) = let rest = take (n - 1) xs in if n == 0 then [] else x ∷ rest

unfoldable pub build_activity_feed :
    (List (ℕ × Bet) → List (ℕ × Bet)) → List (ℕ × Bet) → ℕ → List (ℕ × Bet)
unfolding real_bets
build_activity_feed newest_first bs limit = take limit (newest_first (real_bets bs))

-- `IsMine` of `buildForSaleVM`, for a viewer with a session or without.
unfoldable pub is_mine : Option ℕ → BetListingDetails → Bool
is_mine none l = false
is_mine (some viewer) l = (l.listing).seller_id == viewer

-- ===== src/Wallet/Load.antt =====
-- wallet-backend/config/config.go: the configuration from the variables of the environment. The
-- parsing of numbers and the arithmetic on floats are library code: parameters.
use Prim.Native.String.{String}
use tchebets_open.Prelude.{
  ◌≡◌, refl, inl, inr, Bool, true, false, Option, none, some, Result, ok, err, arith, ℤ, pos,
  if◌then◌else◌, leb_ℤ, Bool-cases,
}
use tchebets_open.General.Text.{is_empty}

pub record Loaded : Type 0 where
  pub port : String
  pub bet_backend_url : String
  pub solana_rpc_url : String
  pub master_mnemonic : String
  pub usdc_mint : String
  pub deposit_poll_seconds : ℤ
  pub withdrawal_min_micro_usdc : ℤ
  pub withdrawal_max_micro_usdc : ℤ
  pub withdrawal_manual_review_over : ℤ
  pub faucet_micro_usdc : ℤ
  pub brl_per_usd_micros : ℤ

pub data LoadError : Type 0 where
  mnemonic_required rate_not_positive : LoadError

-- `strconv.ParseFloat` into a type of floats, the test against 0, and the product with a million,
-- rounded and converted to int64.
pub record Floats : Type 1 where
  pub Float : Type 0
  pub parse_float : String → Option Float
  pub le_zero : Float → Bool
  pub to_micros : Float → ℤ

abbrev pub devnet_usdc_mint : String
devnet_usdc_mint = "4zMMC9srt5Ri5X14GAgXhaHii3GnPAEERYPJgZJDncDU"

abbrev pub micros_of : {F : Type 0} → (F → Bool) → (F → ℤ) → Option F → ℤ
micros_of le_zero to_micros none = pos 0
micros_of le_zero to_micros (some f) = if le_zero f then pos 0 else to_micros f

abbrev pub value_or : Option String → String → String
value_or none fallback = fallback
value_or (some v) fallback = v

set-value :
    (o : Option String)
    → is_empty (value_or o "") ≡ false
    → (v : String) × (o ≡ some v) × (value_or o "" ≡ v)
set-value none e = absurd (ground arith)
set-value (some v) e = (v, refl, refl)

above-zero :
    {F : Type 0} (le_zero : F → Bool) (to_micros : F → ℤ) (o : Option F)
    → leb_ℤ (micros_of le_zero to_micros o) (pos 0) ≡ false
    → (f : F) × (o ≡ some f) × (le_zero f ≡ false) × (micros_of le_zero to_micros o ≡ to_micros f)
above-zero le_zero to_micros none e = absurd (ground arith)
above-zero le_zero to_micros (some f) e = elim (Bool-cases (le_zero f)) [
  | inl low ↦ absurd (ground (arith, e, low))
  | inr high ↦ (f, refl, high, ground (arith, high))
]

checked-config :
    (a b : Bool) (r c : Loaded)
    → (if a then err mnemonic_required else if b then err rate_not_positive else ok r) ≡ ok c
    → (r ≡ c) × (a ≡ false) × (b ≡ false)
checked-config true b r c e = absurd (ground arith)
checked-config false true r c e = absurd (ground arith)
checked-config false false r c e = (ground arith, refl, refl)

-- `look_up` is `os.LookupEnv`, and `parse_int` is `strconv.ParseInt` to base 10 in 64 bits.
module _ (fs : Floats) (parse_int : String → Option ℤ) (look_up : String → Option String) where
  -- `parseRateMicros`.
  unfoldable pub parse_rate_micros : String → ℤ
  parse_rate_micros s = micros_of fs.le_zero fs.to_micros (fs.parse_float s)

  unfoldable pub get_env : String → String → String
  get_env key fallback = value_or (look_up key) fallback

  unfoldable pub get_env_int64 : String → ℤ → ℤ
  get_env_int64 key fallback = elim (look_up key) [
    | some v ↦ elim (parse_int v) [ some n ↦ n | none ↦ fallback ]
    | none ↦ fallback
  ]

  -- The literal of `Load`.
  unfoldable pub read_config : Loaded
  read_config = record {
    port = get_env "PORT" "8080";
    bet_backend_url = get_env "BET_BACKEND_URL" "http://bet-backend:8080";
    solana_rpc_url = get_env "SOLANA_RPC_URL" "https://api.devnet.solana.com";
    master_mnemonic = get_env "WALLET_MNEMONIC" "";
    usdc_mint = get_env "USDC_MINT" devnet_usdc_mint;
    deposit_poll_seconds = get_env_int64 "DEPOSIT_POLL_SECONDS" (pos 15);
    withdrawal_min_micro_usdc = get_env_int64 "WITHDRAWAL_MIN_MICRO_USDC" (pos 1000000);
    withdrawal_max_micro_usdc = get_env_int64 "WITHDRAWAL_MAX_MICRO_USDC" (pos 10000000000);
    withdrawal_manual_review_over = get_env_int64 "WITHDRAWAL_MANUAL_REVIEW_OVER" (pos 1000000000);
    faucet_micro_usdc = get_env_int64 "FAUCET_MICRO_USDC" (pos 25000000);
    brl_per_usd_micros = parse_rate_micros (get_env "BRL_PER_USD" "5.00");
  }

  unfoldable pub load : Result LoadError Loaded
  load =
      if is_empty read_config.master_mnemonic
      then err mnemonic_required
      else if leb_ℤ read_config.brl_per_usd_micros (pos 0)
      then err rate_not_positive
      else ok read_config

  -- A configuration is loaded only with the words of the master wallet, set and not empty, and with
  -- a rate above 0 that stands in the environment, or is the default.
  load-closed :
      (c : Loaded)
      → load ≡ ok c
      → ((v : String) × (look_up "WALLET_MNEMONIC" ≡ some v)
          × (is_empty v ≡ false)
          × (c.master_mnemonic ≡ v))
        × (leb_ℤ c.brl_per_usd_micros (pos 0) ≡ false)
        × ((f : fs.Float) × (fs.parse_float (get_env "BRL_PER_USD" "5.00") ≡ some f)
            × (fs.le_zero f ≡ false)
            × (c.brl_per_usd_micros ≡ fs.to_micros f))
  unfolding load get_env parse_rate_micros read_config
  load-closed c e =
      let (same, given, above) =
        checked-config (is_empty read_config.master_mnemonic)
          (leb_ℤ read_config.brl_per_usd_micros (pos 0)) read_config c e in
      let (v, set, words) = set-value (look_up "WALLET_MNEMONIC") given in
      let (f, parsed, positive, rate) =
        above-zero fs.le_zero fs.to_micros (fs.parse_float (get_env "BRL_PER_USD" "5.00")) above in
      rw⁻¹ same ((v, set, rw⁻¹ words given, words), above, (f, parsed, positive, rate))

-- ===== src/Wallet/Scanner.antt =====
-- wallet-backend/chain/scanner.go: the deposits that a pass over the chain finds. What the RPC answers
-- and the reading of keys are parameters.
use tchebets_open.Prelude.{
  ℕ, ◌-◌, String, Bool, not, ◌&&◌, ◌||◌, Option, none, some, List, [], ◌∷◌, ◌++◌, Result, ok, err,
  str_eq, ◌==◌, ltb, if◌then◌else◌, contains, suc,
}
use tchebets_open.Wallet.Models.{Asset, usdc, sol, DetectedDeposit, WalletError, unavailable}

-- `rpc.TransactionSignature`.
pub record SignatureInfo : Type 0 where
  pub signature : String
  pub slot : ℕ
  pub failed_on_chain : Bool

-- `rpc.TokenBalance`, with its amount as `ParseUint` reads it, if it is there.
pub record TokenBalance : Type 0 where
  pub account_index : ℕ
  pub mint : String
  pub amount : Option ℕ

-- A transaction that was found, with its meta data.
pub record TxMeta : Type 0 where
  pub keys : List String
  pub pre_tokens : List TokenBalance
  pub post_tokens : List TokenBalance
  pub pre_balances : List ℕ
  pub post_balances : List ℕ

-- The RPC: the signatures of an address since one, newest first; and a transaction, with `none`
-- where it or its meta data is missing, or it failed.
pub record Rpc : Type 0 where
  pub is_key : String → Bool
  pub signatures_since : String → String → Result WalletError (List SignatureInfo)
  pub get_transaction : String → Result WalletError (Option TxMeta)

-- `indexOf`, with `none` for -1.
unfoldable pub index_of : List String → String → Option ℕ
index_of [] target = none
index_of (k ∷ ks) target =
    let rest = index_of ks target in
    if str_eq k target then some 0 else elim rest [ none ↦ none | some i ↦ some (suc i) ]

abbrev pub amount_or : Option ℕ → ℕ → ℕ
amount_or (some n) rest = n
amount_or none rest = rest

-- `tokenAmountAt`.
unfoldable pub token_amount_at : List TokenBalance → ℕ → String → ℕ
token_amount_at [] i mint = 0
token_amount_at (b ∷ bs) i mint =
    let rest = token_amount_at bs i mint in
    if (b.account_index == i) && str_eq b.mint mint then amount_or b.amount rest else rest

abbrev pub get_elem? : List ℕ → ℕ → Option ℕ
get_elem? [] i = none
get_elem? (x ∷ xs) i = let rest = get_elem? xs (i - 1) in if i == 0 then some x else rest

-- A deposit of what the balance grew by.
abbrev pub grown : String → Asset → ℕ → ℕ → List DetectedDeposit
grown sig asset pre post =
    if ltb pre post
    then record { signature = sig; asset = asset; raw_amount = post - pre } ∷ []
    else []

abbrev pub grown_at : String → Option ℕ → Option ℕ → List DetectedDeposit
grown_at sig (some pre) (some post) = grown sig sol pre post
grown_at sig _ _ = []

abbrev pub usdc_at : String → String → TxMeta → Option ℕ → List DetectedDeposit
usdc_at sig mint tx none = []
usdc_at sig mint tx (some i) =
    grown sig usdc (token_amount_at tx.pre_tokens i mint) (token_amount_at tx.post_tokens i mint)

abbrev pub sol_at : String → TxMeta → Option ℕ → List DetectedDeposit
sol_at sig tx none = []
sol_at sig tx (some i) = grown_at sig (get_elem? tx.pre_balances i) (get_elem? tx.post_balances i)

-- The candidates, where the map `seen` holds them too; the cursor; and the newest slot.
abbrev pub Gathered : Type 0
Gathered = List String × String × ℕ

abbrev pub add_candidate : String → List String → List String
add_candidate sig seen = if contains sig seen then seen else seen ++ sig ∷ []

-- The body of the inner loop of `ScanDeposits`.
unfoldable pub gather_one : SignatureInfo → Gathered → Gathered
gather_one t (seen, cursor, newest) = if t.failed_on_chain then (seen, cursor, newest) else (
  add_candidate t.signature seen,
  if ltb newest t.slot then t.signature else cursor,
  if ltb newest t.slot then t.slot else newest,
)

unfoldable pub gather : List SignatureInfo → Gathered → Gathered
gather [] acc = acc
gather (t ∷ ts) acc = gather ts (gather_one t acc)

module _ (rpc : Rpc) (usdc_mint : String) where
  -- `depositsInTx`, for what the RPC answers.
  unfoldable pub deposits_in_tx : (sig base ata : String) → Option TxMeta → List DetectedDeposit
  deposits_in_tx sig base ata none = []
  deposits_in_tx sig base ata (some tx) =
      usdc_at sig usdc_mint tx (index_of tx.keys ata) ++ sol_at sig tx (index_of tx.keys base)

  -- The loop over the candidates.
  unfoldable pub deposits_of :
      (base ata : String) → List String → Result WalletError (List DetectedDeposit)
  deposits_of base ata [] = ok []
  deposits_of base ata (sig ∷ sigs) = elim (rpc.get_transaction sig) [
    | err e ↦ err e
    | ok tx ↦ elim (deposits_of base ata sigs) [
      | err e ↦ err e
      | ok ds ↦ ok (deposits_in_tx sig base ata tx ++ ds)
    ]
  ]

  abbrev pub with_cursor :
      String
      → Result WalletError (List DetectedDeposit)
      → Result WalletError (List DetectedDeposit × String)
  with_cursor cursor (ok ds) = ok (ds, cursor)
  with_cursor cursor (err e) = err e

  -- `ScanDeposits`.
  unfoldable pub scan_deposits :
      (base ata since : String) → Result WalletError (List DetectedDeposit × String)
  scan_deposits base ata since =
      if not (rpc.is_key base) || not (rpc.is_key ata)
      then err unavailable
      else elim (rpc.signatures_since base since) [
        | err e ↦ err e
        | ok of_base ↦ elim (rpc.signatures_since ata since) [
          | err e ↦ err e
          | ok of_ata ↦
              let (seen, cursor, newest) = gather of_ata (gather of_base ([], since, 0)) in
              with_cursor cursor (deposits_of base ata seen)
        ]
      ]

-- ===== src/Wallet/Store.antt =====
-- wallet-backend/store/store.go, statement by statement, with the constraints of
-- wallet-backend/db/db.go. Each statement commits by itself.
use tchebets_open.Prelude.{
  ℕ, ◌+◌, ◌%◌, ◌^◌, String, Bool, true, false, not, ◌&&◌, ◌||◌, Option, none, some, List, [], ◌∷◌,
  ◌++◌, ok, err, ◌==◌, str_eq, ltb, ℤ, pos, ltb_ℤ, if◌then◌else◌, lookup, modify, add_row,
}
use tchebets_open.Int64.{int64_limit, to_column}
use tchebets_open.Bet.Statements.{is_some}
use tchebets_open.Wallet.Models.{
  Asset, usdt, DepositStatus, credited, deposit_failed, WithdrawalStatus, broadcast, WalletAddress,
  Deposit, Withdrawal, not_found, constraint,
}
use tchebets_open.Wallet.Effects.{W, or_fail}

abbrev pub find_address : (WalletAddress → Bool) → List WalletAddress → Option WalletAddress
find_address test [] = none
find_address test (a ∷ rows) = if test a then some a else find_address test rows

abbrev pub by_account : ℕ → WalletAddress → Bool
by_account id a = id == a.account_id

-- `GetAddressByAccount`, `GetAddressByATA`, `GetAddressBySOL`.
unfoldable pub get_address_by_account : ℕ → W WalletAddress
get_address_by_account id w = or_fail (find_address (by_account id) w.addresses) not_found w

unfoldable pub get_address_by_ata : String → W WalletAddress
get_address_by_ata ata w =
    or_fail (find_address (λ a. str_eq a.usdc_ata ata) w.addresses) not_found w

unfoldable pub get_address_by_sol : String → W WalletAddress
get_address_by_sol s w = or_fail (find_address (λ a. str_eq a.address s) w.addresses) not_found w

-- `NextDerivationIndex`: the sequence is a BIGINT, the index a `uint32`.
unfoldable pub next_derivation_index : W ℕ
next_derivation_index w = (ok (w.next_index % 2 ^ 32), record w { next_index = w.next_index + 1 })

-- `InsertAddress`: account, index and address are unique.
abbrev pub clashes : WalletAddress → WalletAddress → Bool
clashes a b =
    (a.account_id == b.account_id)
    || (a.derivation_index == b.derivation_index)
    || str_eq b.address a.address

unfoldable pub insert_address : WalletAddress → W (Unit {0})
insert_address a w =
    if is_some (find_address (clashes a) w.addresses)
    then (err constraint, w)
    else (ok tt, record w { addresses = w.addresses ++ a ∷ [] })

abbrev pub has_claim : ℕ → List ℕ → Bool
has_claim id [] = false
has_claim id (c ∷ cs) = (id == c) || has_claim id cs

abbrev pub drop_claim : ℕ → List ℕ → List ℕ
drop_claim id [] = []
drop_claim id (c ∷ cs) = let rest = drop_claim id cs in if id == c then rest else c ∷ rest

-- `ClaimFaucet`: false if the account has claimed; a claim needs a known account.
unfoldable pub claim_faucet : ℕ → W Bool
claim_faucet id w =
    if has_claim id w.faucet_claims
    then (ok false, w)
    else if is_some (find_address (by_account id) w.addresses)
    then (ok true, record w { faucet_claims = id ∷ w.faucet_claims })
    else (err constraint, w)

-- `ReleaseFaucet`.
unfoldable pub release_faucet : ℕ → W (Unit {0})
release_faucet id w = (ok tt, record w { faucet_claims = drop_claim id w.faucet_claims })

abbrev pub has_deposit : String → List Deposit → Bool
has_deposit s [] = false
has_deposit s (d ∷ ds) = str_eq d.signature s || has_deposit s ds

-- The checks `asset IN ('SOL','USDC')` and `raw_amount > 0` on an `int64` made of a `uint64`.
abbrev pub deposit_asset : Asset → Bool
deposit_asset usdt = false
deposit_asset _ = true

-- `InsertDepositIfNew`: false if the signature is known.
unfoldable pub insert_deposit_if_new : Deposit → W Bool
insert_deposit_if_new d w =
    if not (deposit_asset d.asset && ltb 0 d.raw_amount && ltb d.raw_amount int64_limit)
    then (err constraint, w)
    else if has_deposit d.signature w.deposits
    then (ok false, w)
    else if is_some (find_address (by_account d.account_id) w.addresses)
    then (ok true, record w { deposits = d ∷ w.deposits })
    else (err constraint, w)

abbrev pub update_deposit : String → (Deposit → Deposit) → List Deposit → List Deposit
update_deposit s f [] = []
update_deposit s f (d ∷ ds) =
    let rest = update_deposit s f ds in if str_eq d.signature s then f d ∷ rest else d ∷ rest

-- `SetDepositStatus` and `MarkDepositFailed`.
unfoldable pub set_deposit_status : String → DepositStatus → W (Unit {0})
set_deposit_status s status w =
    (ok tt, record w { deposits = update_deposit s (λ d. record d { status = status }) w.deposits })

unfoldable pub mark_deposit_failed : String → W (Unit {0})
unfolding set_deposit_status
mark_deposit_failed s = set_deposit_status s deposit_failed

abbrev pub credited_as : (micro reais : ℕ) → Deposit → Deposit
credited_as micro reais d = record d {
  status = credited;
  credited_usdc = micro;
  credited_reais = reais;
}

-- `MarkDepositCredited`, under the checks `>= 0`.
unfoldable pub mark_deposit_credited : String → (micro reais : ℤ) → W (Unit {0})
mark_deposit_credited s micro reais w = elim (to_column micro) [
  | none ↦ (err constraint, w)
  | some m ↦ elim (to_column reais) [
    | none ↦ (err constraint, w)
    | some r ↦ (ok tt, record w { deposits = update_deposit s (credited_as m r) w.deposits })
  ]
]

-- `InsertWithdrawal`: a new id, an amount of USDC above 0, one of reais not below 0, a known
-- account.
unfoldable pub insert_withdrawal : ℕ → Withdrawal → W (Unit {0})
insert_withdrawal id v w =
    if not (ltb_ℤ (pos 0) v.amount_usdc)
      || ltb_ℤ v.amount_reais (pos 0)
      || is_some (lookup id w.withdrawals)
      || not (is_some (find_address (by_account v.account_id) w.addresses))
    then (err constraint, w)
    else (ok tt, record w { withdrawals = add_row id v w.withdrawals })

-- `SetWithdrawalStatus`, `SetWithdrawalConfirmed`, `SetWithdrawalFailed`.
unfoldable pub set_withdrawal_status : ℕ → WithdrawalStatus → W (Unit {0})
set_withdrawal_status id status w =
    (ok tt, record w { withdrawals = modify id (λ v. record v { status = status }) w.withdrawals })

-- `SetWithdrawalSent`.
unfoldable pub set_withdrawal_sent : ℕ → String → W (Unit {0})
set_withdrawal_sent id sig w = (
  ok tt,
  record w {
    withdrawals =
        modify id (λ v. record v { status = broadcast; signature = some sig }) w.withdrawals;
  },
)

-- `GetScanCursor`: the empty text if the address was never scanned.
abbrev pub cursor_of : String → List (String × String) → String
cursor_of a [] = ""
cursor_of a ((b, s) ∷ cs) = if str_eq b a then s else cursor_of a cs

abbrev pub put_cursor : String → String → List (String × String) → List (String × String)
put_cursor a s [] = (a, s) ∷ []
put_cursor a s ((b, t) ∷ cs) = if str_eq b a then (a, s) ∷ cs else (b, t) ∷ put_cursor a s cs

unfoldable pub get_scan_cursor : String → W String
get_scan_cursor a w = (ok (cursor_of a w.cursors), w)

-- `SetScanCursor`.
unfoldable pub set_scan_cursor : String → String → W (Unit {0})
set_scan_cursor a s w = (ok tt, record w { cursors = put_cursor a s w.cursors })

-- `ListDepositsByAccount` and `ListWithdrawalsByAccount`, the newest first: the rows of deposits stand
-- newest first, those of withdrawals oldest first.
unfoldable pub deposits_of_account : ℕ → List Deposit → List Deposit
deposits_of_account id [] = []
deposits_of_account id (d ∷ ds) =
    let rest = deposits_of_account id ds in if id == d.account_id then d ∷ rest else rest

unfoldable pub withdrawals_of_account :
    ℕ → List (ℕ × Withdrawal) → List (ℕ × Withdrawal) → List (ℕ × Withdrawal)
withdrawals_of_account id [] newer = newer
withdrawals_of_account id ((i, v) ∷ vs) newer =
    withdrawals_of_account id vs (if id == v.account_id then (i, v) ∷ newer else newer)

unfoldable pub list_deposits_by_account : ℕ → W (List Deposit)
unfolding deposits_of_account
list_deposits_by_account id w = (ok (deposits_of_account id w.deposits), w)

unfoldable pub list_withdrawals_by_account : ℕ → W (List (ℕ × Withdrawal))
unfolding withdrawals_of_account
list_withdrawals_by_account id w = (ok (withdrawals_of_account id w.withdrawals []), w)

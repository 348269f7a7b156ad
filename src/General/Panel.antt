-- ===== src/General/Panel.antt =====
-- The panel of the crypto mode of general-backend/handlers/profile_handlers.go, over the lists of
-- wallet-backend. The image of an address, the lower case of a text and the printing of numbers are
-- library code: parameters or left out.
use Prim.Native.String.{[], ◌∷◌, len, ◌++◌}
use tchebets_open.Prelude.{
  ℕ, ◌-◌, String, Option, none, some, List, [], ◌∷◌, Result, ok, err, ◌==◌, leb, ltb, if◌then◌else◌,
  ℤ,
}
use tchebets_open.Wallet.Models.{
  World, WalletError, WalletAddress, Asset, Deposit, DepositStatus, detected, swapping, credited,
  deposit_failed, Withdrawal, WithdrawalStatus, requested, signing, broadcast, confirmed, failed,
  not_found, Answer, fine, dropped, unanswered,
}
use tchebets_open.Wallet.Effects.{W, call, next_answer, later_answers}
use tchebets_open.Wallet.Store.{
  get_address_by_account, list_deposits_by_account, list_withdrawals_by_account,
}

-- A request of the client to a handler of wallet-backend that reads: the request may be lost.
abbrev pub requested_of : {A : Type 0} → Answer → W A → W A
requested_of fine m w = m w
requested_of dropped m w = (err WalletError.unavailable, w)
requested_of unanswered m w = let (_, w') = m w in (err WalletError.unavailable, w')

unfoldable pub request : {A : Type 0} → W A → W A
request m w =
    requested_of (next_answer w.answers) m (record w { answers = later_answers w.answers })

-- `depositStatusPT` and `withdrawalStatusPT`.
unfoldable pub deposit_status_pt : DepositStatus → String
deposit_status_pt detected = "detectado"
deposit_status_pt swapping = "convertendo"
deposit_status_pt credited = "creditado"
deposit_status_pt deposit_failed = "falhou"

unfoldable pub withdrawal_status_pt : WithdrawalStatus → String
withdrawal_status_pt requested = "solicitado"
withdrawal_status_pt signing = "assinando"
withdrawal_status_pt broadcast = "enviado"
withdrawal_status_pt confirmed = "confirmado"
withdrawal_status_pt failed = "falhou"

abbrev pub take_text : ℕ → String → String
take_text n [] = []
take_text n (c ∷ s) = let rest = take_text (n - 1) s in if n == 0 then [] else c ∷ rest

abbrev pub drop_text : ℕ → String → String
drop_text n [] = []
drop_text n (c ∷ s) = let rest = drop_text (n - 1) s in if n == 0 then c ∷ s else rest

-- `shortHash` of an ASCII text.
unfoldable pub short_hash : String → String
short_hash s = if leb (len s) 12 then s else take_text 6 s ++ "…" ++ drop_text (len s - 4) s

-- `depositAmountLabel`: the money credited, or a dash.
abbrev pub deposit_amount_label : Deposit → Option ℕ
deposit_amount_label d = if ltb 0 d.credited_reais then some d.credited_reais else none

-- `shortWithdrawalRef`; `print_id` prints the UUID of the row.
abbrev pub short_withdrawal_ref : (ℕ → String) → ℕ → Withdrawal → String
short_withdrawal_ref print_id i v = elim v.signature [
  | some sig ↦ short_hash sig
  | none ↦ short_hash (print_id i)
]

pub record DepositRow : Type 0 where
  pub asset : Asset
  pub short : String
  pub status_label : String
  pub amount : Option ℕ

pub record WithdrawalRow : Type 0 where
  pub dest : String
  pub short : String
  pub status_label : String
  pub amount : ℤ

-- What the lookup of the address shows: it, the button that makes one, or an error.
pub data AddressPanel : Type 0 where
  deposit_address : String → AddressPanel
  needs_deposit_address deposit_error : AddressPanel

pub record CryptoPanel : Type 0 where
  pub address : AddressPanel
  pub deposits : List DepositRow
  pub withdrawals : List WithdrawalRow

abbrev pub address_panel : Result WalletError WalletAddress → AddressPanel
address_panel (ok a) = deposit_address a.address
address_panel (err not_found) = needs_deposit_address
address_panel (err e) = deposit_error

unfoldable pub deposit_rows : List Deposit → List DepositRow
unfolding short_hash deposit_status_pt
deposit_rows [] = []
deposit_rows (d ∷ ds) =
    record {
      asset = d.asset;
      short = short_hash d.signature;
      status_label = deposit_status_pt d.status;
      amount = deposit_amount_label d;
    }
    ∷ deposit_rows ds

unfoldable pub withdrawal_rows : (ℕ → String) → List (ℕ × Withdrawal) → List WithdrawalRow
unfolding short_hash withdrawal_status_pt
withdrawal_rows print_id [] = []
withdrawal_rows print_id ((i, v) ∷ vs) =
    record {
      dest = short_hash v.dest_address;
      short = short_withdrawal_ref print_id i v;
      status_label = withdrawal_status_pt v.status;
      amount = v.amount_reais;
    }
    ∷ withdrawal_rows print_id vs

abbrev pub rows_or_none : {A B : Type 0} → (List A → List B) → Result WalletError (List A) → List B
rows_or_none f (ok xs) = f xs
rows_or_none f (err e) = []

-- `enrichCrypto`: no call of it reaches the chain, and a list that fails is empty.
unfoldable pub enrich_crypto : (ℕ → String) → ℕ → World → CryptoPanel × World
unfolding deposit_rows withdrawal_rows
enrich_crypto print_id id w =
    let (a, w₁) = request (call (get_address_by_account id)) w in
    let (ds, w₂) = request (call (list_deposits_by_account id)) w₁ in
    let (vs, w₃) = request (call (list_withdrawals_by_account id)) w₂ in
    (
      record {
        address = address_panel a;
        deposits = rows_or_none deposit_rows ds;
        withdrawals = rows_or_none (withdrawal_rows print_id) vs;
      },
      w₃,
    )

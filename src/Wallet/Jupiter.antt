-- ===== src/Wallet/Jupiter.antt =====
-- wallet-backend/chain/jupiter.go: the swap of SOL to USDC over the HTTP API of Jupiter. The requests,
-- JSON and the decoding of transactions are library code: parameters.
use tchebets_open.Prelude.{
  ℕ, ◌==◌, String, Bool, Option, none, some, Result, ok, err, str_eq, if◌then◌else◌,
}
use tchebets_open.Wallet.Confirm.{Confirmation}
use tchebets_open.Wallet.Solana.{
  ChainError, rpc_failed, not_a_number, no_route, empty_swap, not_decoded, swap_transaction,
  Cluster, Log, chain_result, submit,
}

abbrev pub wrapped_sol_mint : String
wrapped_sol_mint = "So11111111111111111111111111111111111111112"

pub record Quote : Type 0 where
  pub body : String
  pub other_amount_threshold : String

-- A reply of HTTP: a status and a body.
pub record Reply : Type 0 where
  pub status : ℕ
  pub body : String

pub record Jupiter : Type 0 where
  -- The two requests; `none` is an error of the transport.
  pub get_quote : (input_mint output_mint : String) (amount slippage_bps : ℕ) → Option Reply
  pub post_swap : (quote_body user : String) → Option Reply
  -- The fields of the two replies.
  pub threshold_of : String → Option String
  pub transaction_of : String → Option String
  -- `TransactionFromBase64`.
  pub decodes : String → Bool

-- `do`.
unfoldable pub do_request : Option Reply → Result ChainError String
do_request none = err rpc_failed
do_request (some r) = if r.status == 200 then ok r.body else err rpc_failed

module _ (c : Cluster) (j : Jupiter) where
  abbrev pub read_quote : String → Option String → Result ChainError Quote
  read_quote body none = err rpc_failed
  read_quote body (some threshold) =
      if str_eq threshold ""
      then err no_route
      else ok (record { body = body; other_amount_threshold = threshold })

  -- `quote`.
  unfoldable pub quote : (lamports slippage_bps : ℕ) → Result ChainError Quote
  unfolding do_request
  quote lamports slippage_bps =
      elim (do_request (j.get_quote wrapped_sol_mint c.usdc_mint lamports slippage_bps)) [
        | err e ↦ err e
        | ok body ↦ read_quote body (j.threshold_of body)
      ]

  abbrev pub read_swap : Option String → Result ChainError String
  read_swap none = err rpc_failed
  read_swap (some tx) = if str_eq tx "" then err empty_swap else ok tx

  -- `buildSwapTx`.
  unfoldable pub build_swap_tx : (quote_body user : String) → Result ChainError String
  unfolding do_request
  build_swap_tx quote_body user = elim (do_request (j.post_swap quote_body user)) [
    | err e ↦ err e
    | ok body ↦ read_swap (j.transaction_of body)
  ]

  abbrev pub swapped : ℕ → (String × Confirmation) × Log → Result ChainError (ℕ × String) × Log
  swapped min_out ((sig, r), log) = (chain_result (min_out, sig) r, log)

  abbrev pub execute :
      String → ℕ → Result ChainError String → Log → Result ChainError (ℕ × String) × Log
  execute user min_out (err e) log = (err e, log)
  execute user min_out (ok tx) log =
      if j.decodes tx
      then swapped min_out (submit c (swap_transaction user tx) log)
      else (err not_decoded, log)

  abbrev pub execute_parsed : String → Quote → Option ℕ → Log → Result ChainError (ℕ × String) × Log
  execute_parsed user q none log = (err (not_a_number q.other_amount_threshold), log)
  execute_parsed user q (some min_out) log = execute user min_out (build_swap_tx q.body user) log

  abbrev pub swap_quoted :
      String → Result ChainError Quote → Log → Result ChainError (ℕ × String) × Log
  swap_quoted user (err e) log = (err e, log)
  swap_quoted user (ok q) log = execute_parsed user q (c.parse_uint q.other_amount_threshold) log

  -- `SwapSOLToUSDC`: the least output of the route, and the signature.
  unfoldable pub swap_sol_to_usdc :
      String → (lamports slippage_bps : ℕ) → Log → Result ChainError (ℕ × String) × Log
  unfolding quote build_swap_tx
  swap_sol_to_usdc user lamports slippage_bps log =
      swap_quoted user (quote lamports slippage_bps) log

-- ===== src/General/Payouts.antt =====
-- What the page of a withdrawal of general-backend does to the chain, by the service of
-- wallet-backend.
use tchebets_open.Prelude.{
  ℕ, ◌≤◌, ◌≡◌, ◌==◌, sym, ◌∙◌, ◌⊎◌, inl, inr, refl, ap, String, false, ◌&&◌, Result, ok, err, arith,
  str_eq, ℤ, pos, pos_part, ◌-ℤ◌, List, ◌∷◌, length, Bool-cases,
}
use tchebets_open.Bet.Handlers.{is_given}
use tchebets_open.Wallet.Models.{World, Transfer, Chain, Config, WalletError}
use tchebets_open.Wallet.Effects.{next_answer, later_answers}
use tchebets_open.Wallet.Convert.{reais_to_micro_usdc}
use tchebets_open.Wallet.Service.{request_withdrawal}
use tchebets_open.Wallet.Leads.{Accepted, Sent}
use tchebets_open.Wallet.Sending.{SentOnce, one_more}
use tchebets_open.Wallet.Withdrawals.{withdraw_once}
use tchebets_open.Wallet.Handlers.{handle_withdraw, wallet_reply, withdraw_status, withdraw_given}
use tchebets_open.General.Sanitize.{max_sanity_int, solana_address, positive_int64}
use tchebets_open.General.Sanitized.{Result-cases, positive_int64-bounds}
use tchebets_open.General.Refines.{Answer-cases}
use tchebets_open.General.Api.{is_nonzero}
use tchebets_open.General.Crypto.{
  ClientError, do_status, withdraw_meaning, withdraw_flash, client_withdraw, withdraw_page,
}

longer_lem : (t : Transfer) (l : List Transfer) → l ≡ t ∷ l → ⊥
longer_lem t l e = absurd (omega (arith, ap length e))

module _ (chain : Chain) (cfg : Config) where
  abbrev micro_of : ℤ → ℕ
  micro_of amount = pos_part (reais_to_micro_usdc amount cfg.rate_micros)

  -- No transfer leaves; or one of the amount to the address leaves, and the ledger took the debit.
  abbrev pub Paid : ℕ → String → ℤ → World → World → Type 0
  Paid id dest amount w w' =
      (w'.transfers ≡ one_more chain cfg dest (micro_of amount) w.transfers)
      × Accepted id (pos 0 -ℤ amount) w

  paid-cases :
      (id : ℕ) (dest : String) (amount : ℤ) (w w' : World)
      → Sent (one_more chain cfg dest (micro_of amount) w.transfers) w'
      → Sent w.transfers w' ⊎ Accepted id (pos 0 -ℤ amount) w
      → Paid id dest amount w w'
  paid-cases id dest amount w w' sent (inr took) = (sent, took)
  paid-cases id dest amount w w' sent (inl same) =
      absurd (longer_lem _ w.transfers (sym same ∙ sent))

  -- The status of a reply, and what left.
  abbrev Honest : ℕ → String → ℤ → World → ℕ × World → Type 0
  Honest id dest amount w (code, w') =
      ((w'.transfers ≡ w.transfers) × ((code == 200) ≡ false)) ⊎ Paid id dest amount w w'

  reply-Honest :
      (id : ℕ) (dest : String) (amount : ℤ) (w w' : World) (r : Result WalletError (Unit {0}))
      → SentOnce chain cfg dest (micro_of amount) w.transfers r w'
      → Sent w.transfers w' ⊎ Accepted id (pos 0 -ℤ amount) w
      → Honest id dest amount w (wallet_reply withdraw_status (r, w'))
  reply-Honest id dest amount w w' (ok a) sent took = inr (paid-cases id dest amount w w' sent took)
  reply-Honest id dest amount w w' (err e) (inl same) took = inl (same, ground arith)
  reply-Honest id dest amount w w' (err e) (inr sent) took =
      inr (paid-cases id dest amount w w' sent took)

  handle_withdraw-Honest :
      (wid id : ℕ) (dest : String) (amount : ℤ) (w : World)
      → Honest id dest amount w (handle_withdraw chain cfg wid id dest amount w)
  unfolding handle_withdraw
  handle_withdraw-Honest wid id dest amount w = elim (Bool-cases (withdraw_given dest amount)) [
    | inr h ↦ rw h (inl (refl, refl))
    | inl h ↦
        let (once, took) = withdraw_once chain cfg wid id dest amount w in
        rw h (
          reply-Honest id dest amount w (request_withdrawal chain cfg wid id dest amount w).1
            (request_withdrawal chain cfg wid id dest amount w).0 once took)
  ]

  -- The text of the page, and what left.
  abbrev Told : ℕ → String → ℤ → World → String × World → Type 0
  Told id dest amount w (flash, w') =
      ((w'.transfers ≡ w.transfers) × (str_eq flash "Saque enviado" ≡ false))
      ⊎ Paid id dest amount w w'

  flash-state : (r : Result ClientError (Unit {0})) (w : World) → (withdraw_flash (r, w)).1 ≡ w
  flash-state (ok a) w = refl
  flash-state (err e) w = ground arith

  flash-Told :
      (id : ℕ) (dest : String) (amount : ℤ) (w w' : World) (code : ℕ)
      → Honest id dest amount w (code, w')
      → Told id dest amount w (withdraw_flash (withdraw_meaning code, w'))
  flash-Told id dest amount w w' code (inr paid) =
      rw (flash-state (withdraw_meaning code) w') (inr paid)
  flash-Told id dest amount w w' code (inl (same, k)) = elim (Bool-cases (code == 202)) [
    | inl a ↦ rw (k, a) (inl (same, refl))
    | inr a ↦ elim (Bool-cases (code == 402)) [
      | inl b ↦ rw (k, a, b) (inl (same, refl))
      | inr b ↦ rw (k, a, b) (inl (same, refl))
    ]
  ]

  client-Told :
      (wid id : ℕ) (dest : String) (amount : ℤ) (w : World)
      → Told id dest amount w (withdraw_flash (client_withdraw chain cfg wid id dest amount w))
  unfolding client_withdraw do_status
  client-Told wid id dest amount w =
      let v : World = record w { answers = later_answers w.answers } in
      let out = handle_withdraw chain cfg wid id dest amount v in
      let honest = handle_withdraw-Honest wid id dest amount v in
      elim (Answer-cases (next_answer w.answers)) [
        | inl e ↦ rw e (flash-Told id dest amount w out.1 out.0 honest)
        | inr (inl e) ↦ rw e (inl (refl, refl))
        | inr (inr e) ↦
            rw e (elim honest [ inl (same, code) ↦ inl (same, refl) | inr paid ↦ inr paid ])
      ]

  -- Whatever calls are lost, the page of a withdrawal says that it was sent only if exactly one
  -- transfer left, of the amount to the address of the form, and the ledger took the debit; any
  -- other text comes with that transfer or with none.
  pub withdraw_page-honest :
      (wid id : ℕ) (dest : String) (amount : ℤ) (w : World)
      → (((withdraw_page chain cfg wid id dest amount w).1.transfers ≡ w.transfers)
          × (str_eq (withdraw_page chain cfg wid id dest amount w).0 "Saque enviado" ≡ false))
        ⊎ ((d : String) × (n : ℕ) × (solana_address dest ≡ ok d)
            × (amount ≡ pos n)
            × (n ≤ max_sanity_int)
            × Paid id d (pos n) w (withdraw_page chain cfg wid id dest amount w).1)
  unfolding withdraw_page
  withdraw_page-honest wid id dest amount w =
      elim (Bool-cases (is_given dest && is_nonzero amount)) [
        | inr h ↦ rw h (inl (refl, refl))
        | inl h ↦ elim (Result-cases (solana_address dest)) [
          | inr (x, e) ↦ rw (h, e) (inl (refl, refl))
          | inl (d, e) ↦ elim (Result-cases (positive_int64 amount max_sanity_int)) [
            | inr (x, f) ↦ rw (h, e, f) (inl (refl, refl))
            | inl (v, f) ↦
                let (n, same, value, low, high) = positive_int64-bounds amount v max_sanity_int f in
                rw (h, e, f, value)
                  (elim (client-Told wid id d (pos n) w) [
                    | inl kept ↦ inl kept
                    | inr paid ↦ inr (d, n, refl, same, high, paid)
                  ])
          ]
        ]
      ]

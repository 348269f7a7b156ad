-- ===== src/General/Honest.antt =====
-- general-backend/handlers/profile_handlers.go: what the panel of the crypto mode shows is in the tables of
-- wallet-backend.
use mathlib.Core.Path.{subst}
use mathlib.Core.List.{reverse_aux}
use tchebets_open.Prelude.{
  sym, Bool-cases, ◌==◌, ltb, ◌<◌, ◌∷◌, ℕ, String, ◌≡◌, refl, ap, ◌∙◌, ◌⊎◌, inl, inr, List, [],
  Result, ok, err, arith, none, some, Option-cases,
}
use tchebets_open.Wallet.Models.{
  World, WalletError, unavailable, not_found, WalletAddress, Deposit, Withdrawal, Answer,
}
use tchebets_open.Wallet.Effects.{W, call, next_answer, later_answers}
use tchebets_open.Wallet.Store.{
  find_address, by_account, get_address_by_account, deposits_of_account, withdrawals_of_account,
  list_deposits_by_account, list_withdrawals_by_account,
}
use tchebets_open.Wallet.Deposits.{Answer-cases}
use tchebets_open.General.Picks.{
  Has, Picks, picks_none, picks_this, picks_other, HasLoss, later-HasLoss, dropped-HasLoss,
  unanswered-HasLoss,
}
use tchebets_open.General.Panel.{
  DepositRow, WithdrawalRow, AddressPanel, deposit_address, needs_deposit_address, short_hash,
  deposit_status_pt, withdrawal_status_pt, request, deposit_error, address_panel, deposit_rows,
  withdrawal_rows, rows_or_none, enrich_crypto,
}

-- The tables are the same; calls have taken answers.
abbrev pub SameTables : World → World → Type 0
SameTables w w' = (l : List Answer) × (w' ≡ record w { answers = l })

-- A read that does not look at the answers to come.
abbrev IsRead : {A : Type 0} → (World → Result WalletError A) → W A → Type 0
IsRead f m =
    ((w : World) → m w ≡ (f w, w))
    × ((w : World) (l : List Answer) → f (record w { answers = l }) ≡ f w)

-- `v` is `u` after calls that change no table: a loss that is still to come was to come at `u`.
abbrev After : World → World → Type 0
After u v = SameTables u v × (HasLoss v.answers → HasLoss u.answers)

-- What a read from `u` on returns: its value, or an error where a call is lost.
abbrev Gets : {A : Type 0} → (World → Result WalletError A) → World → Result WalletError A → Type 0
Gets f u r = (HasLoss u.answers × (r ≡ err unavailable)) ⊎ (r ≡ f u)

call-read :
    {A : Type 0} (f : World → Result WalletError A) (m : W A) (w : World)
    → IsRead f m
    → let (r, w') = call m w in After w w' × Gets f w r
unfolding call
call-read f m w (same, blind) =
    let v : World = record w { answers = later_answers w.answers } in
    let next : After w v = ((v.answers, refl), later-HasLoss w.answers) in
    elim (Answer-cases (next_answer w.answers)) [
      | inl a ↦ rw a (rw (same v) (next, inr (blind w v.answers)))
      | inr (inl a) ↦ rw a (next, inl (dropped-HasLoss w.answers a, refl))
      | inr (inr a) ↦ rw a (rw (same v) (next, inl (unanswered-HasLoss w.answers a, refl)))
    ]

After-trans : (u v w : World) → After u v → After v w → After u w
After-trans u v w ((k, e), h) ((l, f), g) =
    ((l, f ∙ ap (λ (x : World). record x { answers = l }) e), λ x. h (g x))

-- A read after calls that change no table returns what it would have at first.
Gets-After :
    {A : Type 0} (f : World → Result WalletError A) (m : W A) (u v : World)
    (r : Result WalletError A)
    → IsRead f m
    → After u v
    → Gets f v r
    → Gets f u r
Gets-After f m u v r read ((l, e), h) (inl (lost, q)) = inl (h lost, q)
Gets-After f m u v r read ((l, e), h) (inr q) = inr (q ∙ (ap f e ∙ read.1 u l))

request-After :
    {A : Type 0} (f : World → Result WalletError A) (m : W A) (u w : World)
    → IsRead f m
    → After u w
    → let (r, w') = request (call m) w in After u w' × Gets f u r
unfolding request
request-After f m u w read before =
    let v : World = record w { answers = later_answers w.answers } in
    let next : After w v = ((v.answers, refl), later-HasLoss w.answers) in
    let here : After u v = After-trans u w v before next in
    let (called, got) = call-read f m v read in
    elim (Answer-cases (next_answer w.answers)) [
      | inl a ↦ rw a (After-trans u v _ here called, Gets-After f m u v _ read here got)
      | inr (inl a) ↦ rw a (here, inl (before.1 (dropped-HasLoss w.answers a), refl))
      | inr (inr a) ↦
          rw a
            (After-trans u v _ here called, inl (before.1 (unanswered-HasLoss w.answers a), refl))
    ]

-- The row of the account, or that it has none.
abbrev pub address_row : ℕ → World → Result WalletError WalletAddress
address_row id w = elim (find_address (by_account id) w.addresses) [
  | none ↦ err not_found
  | some a ↦ ok a
]

get_address-IsRead : (id : ℕ) → IsRead (address_row id) (get_address_by_account id)
unfolding get_address_by_account
get_address-IsRead id = (
  λ w. elim (Option-cases (find_address (by_account id) w.addresses)) [
    | inl new ↦ ground (arith, new)
    | inr (a, known) ↦ ground (arith, known)
  ],
  λ w l. refl,
)

deposits_in : ℕ → World → Result WalletError (List Deposit)
deposits_in id w = ok (deposits_of_account id w.deposits)

withdrawals_in : ℕ → World → Result WalletError (List (ℕ × Withdrawal))
withdrawals_in id w = ok (withdrawals_of_account id w.withdrawals [])

list_deposits-IsRead : (id : ℕ) → IsRead (deposits_in id) (list_deposits_by_account id)
unfolding list_deposits_by_account deposits_in
list_deposits-IsRead id = (λ w. refl, λ w l. refl)

list_withdrawals-IsRead : (id : ℕ) → IsRead (withdrawals_in id) (list_withdrawals_by_account id)
unfolding list_withdrawals_by_account withdrawals_in
list_withdrawals-IsRead id = (λ w. refl, λ w l. refl)

deposits-Picks :
    (id : ℕ) (ds : List Deposit)
    → Picks (λ (d : Deposit). d.account_id ≡ id) ds (deposits_of_account id ds)
unfolding deposits_of_account
deposits-Picks id [] = picks_none
deposits-Picks id (d ∷ ds) = elim (Bool-cases (id == d.account_id)) [
  | inl e ↦ rw e (picks_this (ground arith) (deposits-Picks id ds))
  | inr e ↦ rw e (picks_other (λ same. absurd (ground arith)) (deposits-Picks id ds))
]

-- The withdrawals stand in the order of their rows, which the list turns around.
withdrawals-Picks :
    (id : ℕ) (vs newer : List (ℕ × Withdrawal))
    → (ys : List (ℕ × Withdrawal)) × Picks (λ (e : ℕ × Withdrawal). (e.1).account_id ≡ id) vs ys
      × (withdrawals_of_account id vs newer ≡ reverse_aux ys newer)
unfolding withdrawals_of_account
withdrawals-Picks id [] newer = ([], picks_none, refl)
withdrawals-Picks id ((i, v) ∷ vs) newer = elim (Bool-cases (id == v.account_id)) [
  | inl e ↦
      let (ys, picks, same) = withdrawals-Picks id vs ((i, v) ∷ newer) in
      ((i, v) ∷ ys, picks_this (ground arith) picks, rw e same)
  | inr e ↦
      let (ys, picks, same) = withdrawals-Picks id vs newer in
      (ys, picks_other (λ q. absurd (ground arith)) picks, rw e same)
]

-- A row of the panel shows the deposit; its amount once money was credited.
abbrev pub ShowsDeposit : Deposit → DepositRow → Type 0
ShowsDeposit d r =
    (r.asset ≡ d.asset)
    × (r.short ≡ short_hash d.signature)
    × (r.status_label ≡ deposit_status_pt d.status)
    × (((0 < d.credited_reais) × (r.amount ≡ some d.credited_reais))
        ⊎ ((d.credited_reais ≡ 0) × (r.amount ≡ none)))

abbrev pub ShowsDeposits : List Deposit → List DepositRow → Type 0
ShowsDeposits [] [] = Unit
ShowsDeposits (d ∷ ds) (r ∷ rs) = ShowsDeposit d r × ShowsDeposits ds rs
ShowsDeposits _ _ = ⊥

abbrev pub ShowsWithdrawal : (ℕ → String) → ℕ × Withdrawal → WithdrawalRow → Type 0
ShowsWithdrawal print_id (i, v) r =
    (r.dest ≡ short_hash v.dest_address)
    × (r.amount ≡ v.amount_reais)
    × (r.status_label ≡ withdrawal_status_pt v.status)
    × (((s : String) × (v.signature ≡ some s) × (r.short ≡ short_hash s))
        ⊎ ((v.signature ≡ none) × (r.short ≡ short_hash (print_id i))))

abbrev pub ShowsWithdrawals : (ℕ → String) → List (ℕ × Withdrawal) → List WithdrawalRow → Type 0
ShowsWithdrawals print_id [] [] = Unit
ShowsWithdrawals print_id (e ∷ es) (r ∷ rs) =
    ShowsWithdrawal print_id e r × ShowsWithdrawals print_id es rs
ShowsWithdrawals _ _ _ = ⊥

deposit_rows-Shows : (ds : List Deposit) → ShowsDeposits ds (deposit_rows ds)
unfolding deposit_rows
deposit_rows-Shows [] = tt
deposit_rows-Shows (d ∷ ds) = (
  (
    refl,
    refl,
    refl,
    elim (Bool-cases (ltb 0 d.credited_reais)) [
      | inl e ↦ inl (ground arith, rw e refl)
      | inr e ↦ inr (ground arith, rw e refl)
    ],
  ),
  deposit_rows-Shows ds,
)

withdrawal_rows-Shows :
    (print_id : ℕ → String) (vs : List (ℕ × Withdrawal))
    → ShowsWithdrawals print_id vs (withdrawal_rows print_id vs)
unfolding withdrawal_rows
withdrawal_rows-Shows print_id [] = tt
withdrawal_rows-Shows print_id ((i, v) ∷ vs) = (
  (
    refl,
    refl,
    refl,
    elim (Option-cases v.signature) [
      | inl e ↦ inr (e, rw e refl)
      | inr (s, e) ↦ inl (s, e, rw e refl)
    ],
  ),
  withdrawal_rows-Shows print_id vs,
)

-- The panel shows exactly the deposits of the account in the order of their rows.
abbrev pub AllDeposits : ℕ → List Deposit → List DepositRow → Type 0
AllDeposits id rows shown =
    (ds : List Deposit) × Picks (λ (d : Deposit). d.account_id ≡ id) rows ds
    × ShowsDeposits ds shown

-- The panel shows exactly the withdrawals of the account, the last first.
abbrev pub AllWithdrawals : (ℕ → String) → ℕ → List (ℕ × Withdrawal) → List WithdrawalRow → Type 0
AllWithdrawals print_id id rows shown =
    (vs : List (ℕ × Withdrawal)) × Picks (λ (e : ℕ × Withdrawal). (e.1).account_id ≡ id) rows vs
    × ShowsWithdrawals print_id (reverse_aux vs []) shown

-- The panel shows the address of a row of the account, or the button to make one if it has none.
abbrev pub ShowsAddress : ℕ → List WalletAddress → AddressPanel → Type 0
ShowsAddress id rows shown =
    ((a : WalletAddress) × Has a rows × (a.account_id ≡ id) × (shown ≡ deposit_address a.address))
    ⊎ (Picks (λ (a : WalletAddress). a.account_id ≡ id) rows [] × (shown ≡ needs_deposit_address))

find_address-Has :
    (id : ℕ) (a : WalletAddress) (rows : List WalletAddress)
    → find_address (by_account id) rows ≡ some a
    → Has a rows × (a.account_id ≡ id)
find_address-Has id a [] e = absurd (ground arith)
find_address-Has id a (b ∷ rows) e = elim (Bool-cases (id == b.account_id)) [
  | inl q ↦ let same : a ≡ b = ground (arith, q) in (inl same, rw same (ground arith))
  | inr q ↦ let (there, own) = find_address-Has id a rows (ground (arith, q)) in (inr there, own)
]

find_address-Picks :
    (id : ℕ) (rows : List WalletAddress)
    → find_address (by_account id) rows ≡ none
    → Picks (λ (a : WalletAddress). a.account_id ≡ id) rows []
find_address-Picks id [] e = picks_none
find_address-Picks id (b ∷ rows) e = elim (Bool-cases (id == b.account_id)) [
  | inl q ↦ absurd (ground (arith, q))
  | inr q ↦
      picks_other (λ same. absurd (ground arith)) (find_address-Picks id rows (ground (arith, q)))
]

address-Shows :
    (id : ℕ) (w : World) (r : Result WalletError WalletAddress)
    → r ≡ address_row id w
    → ShowsAddress id w.addresses (address_panel r)
address-Shows id w r e = elim (Option-cases (find_address (by_account id) w.addresses)) [
  | inl q ↦ inr (find_address-Picks id w.addresses q, ap address_panel e ∙ ground (arith, q))
  | inr (a, q) ↦
      let (there, own) = find_address-Has id a w.addresses q in
      inl (a, there, own, ap address_panel e ∙ ground (arith, q))
]

-- Whatever calls are lost, the panel changes no table. It shows the address of the account, or the
-- button to make one if the account has none; exactly the deposits of the account in the order of
-- their rows; and exactly its withdrawals, the last first. Only where a call is lost it may show an
-- error in place of the address, or no deposits, or no withdrawals.
pub enrich_crypto-honest :
    (print_id : ℕ → String) (id : ℕ) (w : World)
    → let (panel, w') = enrich_crypto print_id id w in
      SameTables w w'
      × ((HasLoss w.answers × (panel.address ≡ deposit_error))
          ⊎ ShowsAddress id w.addresses panel.address)
      × ((HasLoss w.answers × (panel.deposits ≡ [])) ⊎ AllDeposits id w.deposits panel.deposits)
      × ((HasLoss w.answers × (panel.withdrawals ≡ []))
          ⊎ AllWithdrawals print_id id w.withdrawals panel.withdrawals)
unfolding enrich_crypto deposits_in withdrawals_in
enrich_crypto-honest print_id id w =
    let start : After w w = ((w.answers, refl), λ h. h) in
    let (one, a) = request-After (address_row id) _ w w (get_address-IsRead id) start in
    let (two, b) = request-After (deposits_in id) _ w _ (list_deposits-IsRead id) one in
    let (three, c) = request-After (withdrawals_in id) _ w _ (list_withdrawals-IsRead id) two in
    let (vs, picks, turned) = withdrawals-Picks id w.withdrawals [] in
    (
      three.0,
      elim a [ inl (l, x) ↦ inl (l, ap address_panel x) | inr x ↦ inr (address-Shows id w _ x) ],
      elim b [
        | inl (l, x) ↦ inl (l, ap (rows_or_none deposit_rows) x)
        | inr x ↦ inr (
            subst (AllDeposits id w.deposits) (sym (ap (rows_or_none deposit_rows) x)) (
              deposits_of_account id w.deposits,
              deposits-Picks id w.deposits,
              deposit_rows-Shows (deposits_of_account id w.deposits),
            ))
      ],
      elim c [
        | inl (l, x) ↦ inl (l, ap (rows_or_none (withdrawal_rows print_id)) x)
        | inr x ↦ inr (
            subst (AllWithdrawals print_id id w.withdrawals)
              (sym (ap (rows_or_none (withdrawal_rows print_id)) x))
              (
                vs,
                picks,
                subst
                    (λ t.
                      ShowsWithdrawals print_id t
                        (withdrawal_rows print_id (withdrawals_of_account id w.withdrawals [])))
                    turned
                    (withdrawal_rows-Shows print_id (withdrawals_of_account id w.withdrawals [])),
              ))
      ],
    )

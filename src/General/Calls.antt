-- ===== src/General/Calls.antt =====
-- The calls of general-backend/store/accounts.go and of `Client.GetUser`, by what they leave.
use tchebets_open.Prelude.{
  ℕ, String, ◌≡◌, refl, ◌⊎◌, inl, inr, none, some, ok, arith, lookup, Bool-cases, Option-cases,
}
use tchebets_open.Bet.Statements.{is_some}
use tchebets_open.Wallet.Effects.{next_answer, later_answers}
use tchebets_open.General.Site.{Site, Env, Account, call, client_get_user}
use tchebets_open.General.Accounts.{
  row_of_email, clean_email, bootstraps, insert_account, create_account, find_account_by_email,
  promote_to_admin, find_account_by_id,
}
use tchebets_open.General.Refines.{Answer-cases}
use tchebets_open.General.Acts.{Change, new_account, promotion, changed, IsNew, Altered}

-- The calls that only read leave the tables as they were.
abbrev pub Same : Site → Site → Type 0
Same s t = (t.bets ≡ s.bets) × (t.accounts ≡ s.accounts)

pub find-Same : (id : ℕ) (s : Site) → Same s (find_account_by_id id s).1
unfolding find_account_by_id call
find-Same id s = elim (Answer-cases (next_answer s.answers)) [
  | inl e ↦ (ground (arith, e), ground (arith, e))
  | inr (inl e) ↦ (ground (arith, e), ground (arith, e))
  | inr (inr e) ↦ (ground (arith, e), ground (arith, e))
]

-- An account that is found is the row of its id.
pub find-row :
    (id : ℕ) (s : Site) (a : Account)
    → (find_account_by_id id s).0 ≡ ok a
    → lookup id s.accounts ≡ some a
unfolding find_account_by_id call
find-row id s a h = elim (Answer-cases (next_answer s.answers)) [
  | inl e ↦ ground (arith, e, h)
  | inr (inl e) ↦ absurd (ground (arith, e, h))
  | inr (inr e) ↦ absurd (ground (arith, e, h))
]

pub find_by_email-Same :
    (env : Env) (email : String) (s : Site) → Same s (find_account_by_email env email s).1
unfolding find_account_by_email call
find_by_email-Same env email s = elim (Answer-cases (next_answer s.answers)) [
  | inl e ↦ (ground (arith, e), ground (arith, e))
  | inr (inl e) ↦ (ground (arith, e), ground (arith, e))
  | inr (inr e) ↦ (ground (arith, e), ground (arith, e))
]

pub get_user-Same : (id : ℕ) (s : Site) → Same s (client_get_user id s).1
unfolding client_get_user call
get_user-Same id s = elim (Answer-cases (next_answer s.answers)) [
  | inl e ↦ (ground (arith, e), ground (arith, e))
  | inr (inl e) ↦ (ground (arith, e), ground (arith, e))
  | inr (inr e) ↦ (ground (arith, e), ground (arith, e))
]

pub promote-Altered :
    (env : Env) (email : String) (s : Site)
    → ((promote_to_admin env email s).1.bets ≡ s.bets)
      × Altered (λ c. c ≡ promotion (clean_email env email)) s (promote_to_admin env email s).1
unfolding promote_to_admin call
promote-Altered env email s =
    elim (Bool-cases (is_some (row_of_email (clean_email env email) s.accounts))) [
      | inl h ↦ elim (Answer-cases (next_answer s.answers)) [
        | inl e ↦ (ground (arith, e, h), inr (_, refl, ground (arith, e, h)))
        | inr (inl e) ↦ (ground (arith, e), inl (ground (arith, e)))
        | inr (inr e) ↦ (ground (arith, e, h), inr (_, refl, ground (arith, e, h)))
      ]
      | inr h ↦ elim (Answer-cases (next_answer s.answers)) [
        | inl e ↦ (ground (arith, e, h), inl (ground (arith, e, h)))
        | inr (inl e) ↦ (ground (arith, e), inl (ground (arith, e)))
        | inr (inr e) ↦ (ground (arith, e, h), inl (ground (arith, e, h)))
      ]
    ]

insert-Altered :
    (env : Env) (now id : ℕ) (e hash : String) (s : Site)
    → ((insert_account env now id e hash s).1.bets ≡ s.bets)
      × (((insert_account env now id e hash s).1.accounts ≡ s.accounts)
          ⊎ ((c : Change) × IsNew env id s.accounts c
              × ((insert_account env now id e hash s).1.accounts ≡ changed c s.accounts)))
unfolding insert_account
insert-Altered env now id e hash s = elim (Option-cases (lookup id s.accounts)) [
  | inr (a, h) ↦ (ground (arith, h), inl (ground (arith, h)))
  | inl h ↦ elim (Option-cases (row_of_email e s.accounts)) [
    | inr (a, k) ↦ (ground (arith, h, k), inl (ground (arith, h, k)))
    | inl k ↦ (
      ground (arith, h, k),
      inr (
        new_account id (record {
          email = e;
          password_hash = hash;
          is_admin = bootstraps env e;
          created_at = now;
        }),
        (refl, h, k, refl),
        ground (arith, h, k),
      ),
    )
  ]
]

pub create-Altered :
    (env : Env) (now id : ℕ) (email hash : String) (s : Site)
    → ((create_account env now id email hash s).1.bets ≡ s.bets)
      × Altered (IsNew env id s.accounts) s (create_account env now id email hash s).1
unfolding create_account call
create-Altered env now id email hash s =
    let (same, altered) =
      insert-Altered env now id (clean_email env email) hash
        (record s { answers = later_answers s.answers }) in
    elim (Answer-cases (next_answer s.answers)) [
      | inl e ↦ rw e (same, altered)
      | inr (inl e) ↦ rw e (refl, inl refl)
      | inr (inr e) ↦ rw e (same, altered)
    ]

-- An account that is created has a new id.
pub create-free :
    (env : Env) (now id : ℕ) (email hash : String) (s : Site) (a : Account)
    → (create_account env now id email hash s).0 ≡ ok a
    → lookup id s.accounts ≡ none
unfolding create_account insert_account call
create-free env now id email hash s a h = elim (Option-cases (lookup id s.accounts)) [
  | inl k ↦ k
  | inr (b, k) ↦ elim (Answer-cases (next_answer s.answers)) [
    | inl e ↦ absurd (ground (arith, e, h, k))
    | inr (inl e) ↦ absurd (ground (arith, e, h))
    | inr (inr e) ↦ absurd (ground (arith, e, h))
  ]
]

-- ===== src/General/Lost.antt =====
-- What general-backend leaves behind where a call is lost between two others: `Register` of
-- general-backend/handlers/auth_handlers.go and `Deposit` of general-backend/handlers/profile_handlers.go.
use text.Mathlib.TextPositions.{eq_refl}
use tchebets_open.Prelude.{
  ℕ, String, ◌≡◌, refl, inl, inr, true, ◌&&◌, none, some, List, [], ◌∷◌, ok, err, arith, Table,
  lookup, add_row, str_eq, Bool-cases, Option-cases,
}
use tchebets_open.Bet.Statements.{is_some}
use tchebets_open.Bet.Handlers.{is_given}
use tchebets_open.Wallet.Models.{Answer, fine, dropped}
use tchebets_open.Wallet.Effects.{next_answer, later_answers}
use tchebets_open.General.Sanitize.{non_empty_string}
use tchebets_open.General.Site.{
  Site, Env, SiteError, unavailable, Account, call, typed, ask, email_taken,
}
use tchebets_open.General.Accounts.{
  row_of_email, clean_email, bootstraps, insert_account, create_account,
}
use tchebets_open.General.Refines.{Answer-cases}
use tchebets_open.General.Pages.{page, Session, register}
use tchebets_open.General.Routes.{PageRequest, run_pages}
use tchebets_open.General.Admins.{run_pages-is_some}

-- Creating an account for an email that has one fails, and leaves every table.
create_account_taken :
    (env : Env) (now id : ℕ) (t hash : String) (s : Site)
    → is_some (row_of_email (clean_email env t) s.accounts) ≡ true
    → (x : SiteError) × (as' : List Answer) × (create_account env now id t hash s
        ≡ (err x, record s { answers = as' }))
unfolding create_account insert_account call
create_account_taken env now id t hash s h = elim (Bool-cases (is_some (lookup id s.accounts))) [
  | inl k ↦ elim (Answer-cases (next_answer s.answers)) [
    | inl e ↦ (email_taken, later_answers s.answers, ground (arith, e, h, k))
    | inr (inl e) ↦ (unavailable, later_answers s.answers, ground (arith, e, h, k))
    | inr (inr e) ↦ (unavailable, later_answers s.answers, ground (arith, e, h, k))
  ]
  | inr k ↦ elim (Answer-cases (next_answer s.answers)) [
    | inl e ↦ (email_taken, later_answers s.answers, ground (arith, e, h, k))
    | inr (inl e) ↦ (unavailable, later_answers s.answers, ground (arith, e, h, k))
    | inr (inr e) ↦ (unavailable, later_answers s.answers, ground (arith, e, h, k))
  ]
]

-- Where the cleaned email of the form has an account, registering is refused with 400: no session,
-- no account and no table of bet-backend changes, whatever answers are lost.
pub register_taken :
    (env : Env) (now id : ℕ) (email password t : String) (w : Session) (s : Site)
    → non_empty_string email 254 ≡ ok t
    → is_some (row_of_email (clean_email env t) s.accounts) ≡ true
    → (as' : List Answer) × (register env now id email password w s
        ≡ (page 400, w, record s { answers = as' }))
unfolding register
register_taken env now id email password t w s e h =
    elim (Bool-cases (is_given email && env.is_email email && is_given password)) [
      | inr k ↦ (s.answers, ground (arith, k))
      | inl k ↦ elim (Option-cases (env.hash_password password)) [
        | inl j ↦ (s.answers, ground (arith, k, e, j))
        | inr (hash, j) ↦
            let (x, rest, out) = create_account_taken env now id t hash s h in
            (rest, ground (arith, k, e, j, out))
      ]
    ]

row-added :
    (e : String) (i : ℕ) (a : Account) (t : Table Account)
    → str_eq a.email e ≡ true
    → is_some (row_of_email e (add_row i a t)) ≡ true
row-added e i a [] h = ground arith
row-added e i a ((j, b) ∷ t) h = ground (arith, row-added e i a t)

-- If the account of a new email is stored and the call that gives it a user in bet-backend is lost
-- before it runs, the page says to try again, but after any further page requests, whatever answers
-- they lose, an attempt with that email is refused with 400, and makes no account, no user in
-- bet-backend and no session.
pub register_stuck :
    (env : Env) (now id later id' : ℕ) (email password password' t hash : String) (w w' : Session)
    (s : Site) (rest : List Answer) (qs : List (ℕ × PageRequest × Session))
    → (is_given email && env.is_email email && is_given password) ≡ true
    → non_empty_string email 254 ≡ ok t
    → env.hash_password password ≡ some hash
    → lookup id s.accounts ≡ none
    → row_of_email (clean_email env t) s.accounts ≡ none
    → s.answers ≡ fine ∷ dropped ∷ rest
    → (stuck : Site) × (register env now id email password w s ≡ (page 400, w, stuck))
      × (stuck.bets ≡ s.bets)
      × ((as' : List Answer) × (register env later id' email password' w' (run_pages env qs stuck)
            ≡ (page 400, w', record (run_pages env qs stuck) { answers = as' })))
unfolding register create_account insert_account call typed ask
register_stuck env now id later id' email password password' t hash w w' s rest qs g e h f r a =
    let acct : Account = record {
      email = clean_email env t;
      password_hash = hash;
      is_admin = bootstraps env (clean_email env t);
      created_at = now;
    } in
    let stuck : Site = record {
      accounts = add_row id acct s.accounts;
      bets = s.bets;
      answers = rest;
    } in
    let same = eq_refl (clean_email env t) in
    let stored = row-added (clean_email env t) id acct s.accounts same in
    (
      stuck,
      ground (arith, g, e, h, f, r, a),
      refl,
      register_taken env later id' email password' t w' (run_pages env qs stuck) e
          (run_pages-is_some env qs (clean_email env t) stuck stored),
    )

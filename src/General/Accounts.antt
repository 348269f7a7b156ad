-- ===== src/General/Accounts.antt =====
-- general-backend/store/accounts.go, over the table of general-backend/store/db.go. The times of the
-- rows are arguments.
use tchebets_open.Prelude.{
  ℕ, String, Bool, true, not, ◌&&◌, ◌||◌, Option, none, some, [], ◌∷◌, ok, err, str_eq,
  if◌then◌else◌, Table, lookup, add_row,
}
use tchebets_open.Bet.Details.{order_by}
use tchebets_open.Bet.Statements.{is_some}
use tchebets_open.General.Text.{trim}
use tchebets_open.General.Site.{Account, Env, S, call, account_not_found, email_taken}

-- `SELECT … WHERE email = $1`, with the id of the row.
abbrev pub row_of_email : String → Table Account → Option (ℕ × Account)
row_of_email e [] = none
row_of_email e ((i, a) ∷ t) = if str_eq a.email e then some (i, a) else row_of_email e t

-- `UPDATE accounts SET is_admin = TRUE WHERE email = $1`.
abbrev pub promote_rows : String → Table Account → Table Account
promote_rows e [] = []
promote_rows e ((i, a) ∷ t) =
    (i, if str_eq a.email e then record a { is_admin = true } else a) ∷ promote_rows e t

module _ (env : Env) where
  -- `strings.ToLower(strings.TrimSpace(email))`.
  abbrev pub clean_email : String → String
  clean_email e = env.to_lower (trim e)

  abbrev pub bootstraps : String → Bool
  bootstraps e =
      not (str_eq (clean_email env.initial_admin_email) "")
      && str_eq e (clean_email env.initial_admin_email)

  -- The statement of `CreateAccount`; the id and the email are both unique.
  unfoldable pub insert_account : ℕ → ℕ → String → String → S Account
  insert_account now id e hash s =
      if is_some (lookup id s.accounts) || is_some (row_of_email e s.accounts)
      then (err email_taken, s)
      else (let a : Account = record {
        email = e;
        password_hash = hash;
        is_admin = bootstraps e;
        created_at = now;
      } in
          (ok a, record s { accounts = add_row id a s.accounts }))

  -- `CreateAccount`.
  unfoldable pub create_account : ℕ → ℕ → String → String → S Account
  create_account now id email hash = call (insert_account now id (clean_email email) hash)

  -- `FindAccountByEmail`.
  unfoldable pub find_account_by_email : String → S (ℕ × Account)
  find_account_by_email email = call (λ s. (
    elim (row_of_email (clean_email email) s.accounts) [
      | none ↦ err account_not_found
      | some r ↦ ok r
    ],
    s,
  ))

  -- `PromoteToAdmin`.
  unfoldable pub promote_to_admin : String → S (Unit {0})
  promote_to_admin email = call (λ s.
      if is_some (row_of_email (clean_email email) s.accounts)
      then (ok tt, record s { accounts = promote_rows (clean_email email) s.accounts })
      else (err account_not_found, s))

-- `FindAccountByID`.
unfoldable pub find_account_by_id : ℕ → S Account
find_account_by_id id =
    call (λ s. (elim (lookup id s.accounts) [ none ↦ err account_not_found | some a ↦ ok a ], s))

-- `ListAccounts`.
unfoldable pub list_accounts : S (Table Account)
list_accounts = call (λ s. (ok (order_by (λ r. (r.1).created_at) s.accounts), s))

-- ===== src/General/Admins.antt =====
-- The table of accounts over any page requests: unique emails, and who is an admin.
use tchebets_open.Prelude.{
  ℕ, String, ◌≡◌, refl, inl, inr, true, false, none, some, List, [], ◌∷◌, arith, Table, add_row,
  str_eq, eq_iff,
}
use tchebets_open.Bet.Statements.{is_some}
use tchebets_open.General.Site.{Site, Env, Account}
use tchebets_open.General.Accounts.{row_of_email, promote_rows, clean_email}
use tchebets_open.General.Pages.{Session}
use tchebets_open.General.Routes.{
  PageRequest, ask_register, ask_login, as_user, as_admin, ask_promote, handle_page, run_pages,
}
use tchebets_open.General.Acts.{Change, new_account, promotion, changed, MayChange}
use tchebets_open.General.Visits.{handle_page-Did}

-- No account is an admin's.
abbrev pub NoAdmin : Table Account → Type 0
NoAdmin [] = Unit
NoAdmin ((i, a) ∷ t) = (a.is_admin ≡ false) × NoAdmin t

-- No email stands twice.
abbrev pub EmailsUnique : Table Account → Type 0
EmailsUnique [] = Unit
EmailsUnique ((i, a) ∷ t) = (row_of_email a.email t ≡ none) × EmailsUnique t

row_of_email-add :
    (e : String) (i : ℕ) (a : Account) (t : Table Account)
    → row_of_email e t ≡ none
    → str_eq a.email e ≡ false
    → row_of_email e (add_row i a t) ≡ none
row_of_email-add e i a [] h k = ground arith
row_of_email-add e i a ((j, b) ∷ t) h k = ground (arith, row_of_email-add e i a t)

EmailsUnique-add :
    (i : ℕ) (a : Account) (t : Table Account)
    → row_of_email a.email t ≡ none
    → EmailsUnique t
    → EmailsUnique (add_row i a t)
EmailsUnique-add i a [] h u = (refl, tt)
EmailsUnique-add i a ((j, b) ∷ t) h u = (
  row_of_email-add b.email i a t u.0
      (ground (arith, h, eq_iff b.email a.email, eq_iff a.email b.email)),
  EmailsUnique-add i a t (ground (arith, h)) u.1,
)

row_of_email-promote :
    (e f : String) (t : Table Account)
    → row_of_email e t ≡ none
    → row_of_email e (promote_rows f t) ≡ none
row_of_email-promote e f [] h = refl
row_of_email-promote e f ((j, b) ∷ t) h = ground (arith, row_of_email-promote e f t)

EmailsUnique-promote :
    (e : String) (t : Table Account) → EmailsUnique t → EmailsUnique (promote_rows e t)
EmailsUnique-promote e [] u = tt
EmailsUnique-promote e ((j, b) ∷ t) u =
    ground (arith, row_of_email-promote b.email e t u.0, EmailsUnique-promote e t u.1)

row_of_email-add_some :
    (e : String) (i : ℕ) (a : Account) (t : Table Account)
    → is_some (row_of_email e t) ≡ true
    → is_some (row_of_email e (add_row i a t)) ≡ true
row_of_email-add_some e i a [] h = absurd (ground arith)
row_of_email-add_some e i a ((j, b) ∷ t) h = ground (arith, row_of_email-add_some e i a t)

row_of_email-promote_some :
    (e f : String) (t : Table Account)
    → is_some (row_of_email e t) ≡ true
    → is_some (row_of_email e (promote_rows f t)) ≡ true
row_of_email-promote_some e f [] h = absurd (ground arith)
row_of_email-promote_some e f ((j, b) ∷ t) h = ground (arith, row_of_email-promote_some e f t)

module _ (env : Env) where
  change-EmailsUnique :
      (q : PageRequest) (w : Session) (c : Change) (t : Table Account)
      → MayChange env q w t c
      → EmailsUnique t
      → EmailsUnique (changed c t)
  change-EmailsUnique (ask_register id email password) w (new_account i a) t m u =
      EmailsUnique-add i a t m.2 u
  change-EmailsUnique (ask_register id email password) w (promotion e) t m u = absurd m
  change-EmailsUnique (ask_login email password next) w c t m u = absurd m
  change-EmailsUnique (as_user q) w c t m u = absurd m
  change-EmailsUnique (as_admin (ask_promote e)) (some v) c t m u =
      rw m.1 (EmailsUnique-promote (clean_email env e) t u)
  change-EmailsUnique (as_admin _) _ c t m u = absurd m

  -- From accounts with unique emails, over any requests of any visitors, whatever answers are lost,
  -- the emails stay unique.
  pub run_pages-EmailsUnique :
      (qs : List (ℕ × PageRequest × Session)) (s : Site)
      → EmailsUnique s.accounts
      → EmailsUnique (run_pages env qs s).accounts
  unfolding run_pages
  run_pages-EmailsUnique [] s u = u
  run_pages-EmailsUnique ((now, q, w) ∷ qs) s u =
      run_pages-EmailsUnique qs (handle_page env now q w s).2
        (elim (handle_page-Did env now q w s).altered [
          | inl k ↦ rw k u
          | inr (c, m, k) ↦ rw k (change-EmailsUnique q w c s.accounts m u)
        ])

  change-is_some :
      (q : PageRequest) (w : Session) (c : Change) (e : String) (t : Table Account)
      → MayChange env q w t c
      → is_some (row_of_email e t) ≡ true
      → is_some (row_of_email e (changed c t)) ≡ true
  change-is_some (ask_register id email password) w (new_account i a) e t m k =
      row_of_email-add_some e i a t k
  change-is_some (ask_register id email password) w (promotion f) e t m k = absurd m
  change-is_some (ask_login email password next) w c e t m k = absurd m
  change-is_some (as_user q) w c e t m k = absurd m
  change-is_some (as_admin (ask_promote f)) (some v) c e t m k =
      rw m.1 (row_of_email-promote_some e (clean_email env f) t k)
  change-is_some (as_admin _) _ c e t m k = absurd m

  -- An email that has an account keeps having one, over any page requests.
  pub run_pages-is_some :
      (qs : List (ℕ × PageRequest × Session)) (e : String) (s : Site)
      → is_some (row_of_email e s.accounts) ≡ true
      → is_some (row_of_email e (run_pages env qs s).accounts) ≡ true
  unfolding run_pages
  run_pages-is_some [] e s k = k
  run_pages-is_some ((now, q, w) ∷ qs) e s k =
      run_pages-is_some qs e (handle_page env now q w s).2
        (elim (handle_page-Did env now q w s).altered [
          | inl same ↦ rw same k
          | inr (c, m, same) ↦ rw same (change-is_some q w c e s.accounts m k)
        ])

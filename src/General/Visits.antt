-- ===== src/General/Visits.antt =====
-- Every page of general-backend/main.go that changes state, against what its visitor may do.
use tchebets_open.Prelude.{ℕ, String, ◌≡◌, refl, inl, ◌&&◌, none, some, arith, pos, lookup}
use tchebets_open.Bet.History.{
  Request, create, place, lock, resolve, cancel, sync, list_bet, unlist, buy,
}
use tchebets_open.Bet.Handlers.{handle, is_given}
use tchebets_open.General.Sanitize.{
  sanitize_uuid, non_empty_string, positive_int64, non_negative_int64, max_sanity_int,
}
use tchebets_open.General.Site.{Site, Env, Account, typed, client_get_user}
use tchebets_open.General.Accounts.{
  clean_email, create_account, find_account_by_email, promote_to_admin, find_account_by_id,
}
use tchebets_open.General.Api.{is_nonzero}
use tchebets_open.General.Pages.{
  Session, require_user, require_admin, register, login, logout, deposit, deposit_write,
  place_bet_page, list_bet_page, cancel_listing_page, buy_listing_page,
}
use tchebets_open.General.Admin.{
  admin_create_market, admin_lock_market, admin_resolve_market, admin_cancel_market,
  admin_promote_user, binary_outcomes, question_of,
}
use tchebets_open.General.Routes.{
  UserRequest, AdminRequest, PageRequest, ask_register, ask_login, as_user, as_admin, ask_promote,
  ask_create, ask_lock, ask_resolve, ask_cancel, ask_logout, ask_deposit, ask_place, ask_list,
  ask_unlist, ask_buy, handle_user, handle_admin, handle_page,
}
use tchebets_open.General.Calls.{
  find-Same, find-row, find_by_email-Same, get_user-Same, promote-Altered, create-Altered,
  create-free,
}
use tchebets_open.General.Acts.{
  Altered-mono, Change, promotion, IsOwn, OnMarket, MayAsk, IsNew, MayChange, Did, idle,
  passing-Did, bound-Did, option-Did, if-Did, require-Did, Did-after, shown-Altered, ask-Did,
  typed-Did, typed-Asked, on_result-Did, Did-from,
}

module _ (env : Env) (now : ℕ) (w : Session) (s : Site) where
  -- What a logged-in visitor asks for is done in the visitor's name.
  user-Did :
      {P : Request → Type 0} {Q : Change → Type 0}
      → (id : ℕ) (a : Account) (q : UserRequest) → ((r : Request) → IsOwn id r → P r)
      → Did now P Q s (handle_user env now q id a w s)
  unfolding handle_user logout deposit deposit_write place_bet_page list_bet_page
      cancel_listing_page buy_listing_page handle
  user-Did id a ask_logout may = idle now s w _ _ _ refl refl
  user-Did id a (ask_deposit n) may =
      let (same_bets, same_accounts) = get_user-Same id s in
      let t = (client_get_user id s).1 in
      bound-Did now s w (is_nonzero n) _ _ (
        passing-Did now s w (positive_int64 n max_sanity_int) _ _ λ v.
          on_result-Did now s w (client_get_user id s) _ _
            (λ e. idle now s w _ _ _ same_bets same_accounts)
            (λ u got.
              Did-from now s t _ same_bets same_accounts
                (typed-Did now t w 200 (sync id _) _ _ (may _ refl))))
  user-Did id a (ask_place b path o n) may =
      passing-Did now s w (sanitize_uuid env.parse_uuid path) _ _ λ m.
        bound-Did now s w (is_given o && is_nonzero n) _ _ (
          passing-Did now s w (non_empty_string o 100) _ _ λ t.
            passing-Did now s w (positive_int64 n max_sanity_int) _ _
              λ v. typed-Did now s w 201 (place b id m t v) _ _ (may _ refl))
  user-Did id a (ask_list l path n) may =
      passing-Did now s w (sanitize_uuid env.parse_uuid path) _ _ λ b.
        bound-Did now s w (is_nonzero n) _ _ (
          passing-Did now s w (positive_int64 n max_sanity_int) _ _
            λ v. typed-Did now s w 201 (list_bet l b id v) _ _ (may _ refl))
  user-Did id a (ask_unlist path) may =
      passing-Did now s w (sanitize_uuid env.parse_uuid path) _ _
        λ l. typed-Did now s w 200 (unlist l id) _ _ (may _ refl)
  user-Did id a (ask_buy path) may =
      passing-Did now s w (sanitize_uuid env.parse_uuid path) _ _
        λ l. typed-Did now s w 200 (buy l id) _ _ (may _ refl)

  -- What an admin asks for is a request on a market, or a promotion.
  admin-Did :
      {P : Request → Type 0} {Q : Change → Type 0}
      → (id : ℕ) (a : Account) (q : AdminRequest) → ((r : Request) → OnMarket r → P r)
      → ((e : String) → q ≡ ask_promote e → Q (promotion (clean_email env e)))
      → Did now P Q s (handle_admin env now q id a w s)
  unfolding handle_admin admin_create_market admin_lock_market admin_resolve_market
      admin_cancel_market admin_promote_user handle
  admin-Did id a (ask_create m ids q x y n) may change =
      option-Did now s w (question_of q x y) _ _ λ t.
        passing-Did now s w (non_negative_int64 n max_sanity_int) _ _
          λ v. typed-Did now s w 201 (create m ids t binary_outcomes v) _ _ (may _ tt)
  admin-Did id a (ask_lock path) may change =
      passing-Did now s w (sanitize_uuid env.parse_uuid path) _ _
        λ m. ask-Did now s w (lock m) _ _ (may _ tt)
  admin-Did id a (ask_resolve path win) may change =
      passing-Did now s w (sanitize_uuid env.parse_uuid path) _ _ λ m.
        bound-Did now s w (is_given win) _ _ (
          passing-Did now s w (non_empty_string win 100) _ _
            λ o. ask-Did now s w (resolve m o) _ _ (may _ tt))
  admin-Did id a (ask_cancel path) may change =
      passing-Did now s w (sanitize_uuid env.parse_uuid path) _ _
        λ m. ask-Did now s w (cancel m) _ _ (may _ tt)
  admin-Did id a (ask_promote email) may change =
      bound-Did now s w (is_given email && env.is_email email) _ _ (
        let (same, altered) = promote-Altered env email s in
        shown-Altered now s w (promote_to_admin env email s) _ _ same (
          Altered-mono s (promote_to_admin env email s).1 (λ c e. rw e (change email refl))
            altered))

  -- Registering adds the account, and then the user.
  register-Did :
      {P : Request → Type 0} {Q : Change → Type 0}
      → (id : ℕ) (email password : String) → (lookup id s.accounts ≡ none → P (sync id (pos 0)))
      → ((c : Change) → IsNew env id s.accounts c → Q c)
      → Did now P Q s (register env now id email password w s)
  unfolding register handle
  register-Did id email password may change =
      bound-Did now s w (is_given email && env.is_email email && is_given password) _ _ (
        passing-Did now s w (non_empty_string email 254) _ _ λ t.
          bound-Did now s w (is_given password) _ _ (
            option-Did now s w (env.hash_password password) _ _ λ hash.
              let (same, altered) = create-Altered env now id t hash s in
              let after = (create_account env now id t hash s).1 in
              let mine = Altered-mono s after change altered in
              on_result-Did now s w (create_account env now id t hash s) _ _
                (λ e. record { asked = inl same; altered = mine })
                (λ a got. Did-after now s after _ same mine (
                  let (asked, kept) =
                    typed-Asked now after 200 (sync id (pos 0))
                      (may (create-free env now id t hash s a got)) in
                  on_result-Did now after w (typed 200 (handle now (sync id (pos 0))) after) _ _
                    (λ e. record { asked = asked; altered = inl kept })
                    (λ u done. record { asked = asked; altered = inl kept })))))

  login-Did :
      {P : Request → Type 0} {Q : Change → Type 0}
      → (email password next : String) → Did now P Q s (login env email password next w s)
  unfolding login
  login-Did email password next =
      let (same_bets, same_accounts) = find_by_email-Same env email s in
      bound-Did now s w (is_given email && env.is_email email && is_given password) _ _ (
        on_result-Did now s w (find_account_by_email env email s) _ _
          (λ e. idle now s w _ _ _ same_bets same_accounts)
          (λ r got.
            if-Did now s w (env.check_password (r.1).password_hash password) _ _
              (idle now s w _ _ _ same_bets same_accounts)
              (idle now s w _ _ _ same_bets same_accounts)))

-- Whatever answers are lost, a page request changes the tables of bet-backend by at most one request:
-- in the name of the visitor whose session it is, or on a market if that visitor is an admin, or the
-- first balance of a new account; and it changes the accounts by at most one new account or, if
-- the visitor is an admin, one promotion.
pub handle_page-Did :
    (env : Env) (now : ℕ) (q : PageRequest) (w : Session) (s : Site)
    → Did now (MayAsk q w s.accounts) (MayChange env q w s.accounts) s (handle_page env now q w s)
unfolding handle_page require_user require_admin
handle_page-Did env now (ask_register id email password) w s =
    register-Did env now w s id email password (λ free. (free, refl)) (λ c new. new)
handle_page-Did env now (ask_login email password next) w s =
    login-Did env now w s email password next
handle_page-Did env now (as_user q) none s = idle now s none _ _ _ refl refl
handle_page-Did env now (as_user q) (some u) s =
    let (same_bets, same_accounts) = find-Same u s in
    let t = (find_account_by_id u s).1 in
    on_result-Did now s (some u) (find_account_by_id u s) _ _
      (λ e. idle now s (some u) _ _ _ same_bets same_accounts)
      (λ a got.
        Did-from now s t _ same_bets same_accounts
          (user-Did env now (some u) t u a q (λ r own. (ground (arith, find-row u s a got), own))))
handle_page-Did env now (as_admin q) none s = idle now s none _ _ _ refl refl
handle_page-Did env now (as_admin q) (some u) s =
    let (same_bets, same_accounts) = find-Same u s in
    let t = (find_account_by_id u s).1 in
    on_result-Did now s (some u) (find_account_by_id u s) _ _
      (λ e. idle now s (some u) _ _ _ same_bets same_accounts)
      (λ a got. Did-from now s t _ same_bets same_accounts (
        require-Did now t (some u) a.is_admin _ _ λ admin.
          admin-Did env now (some u) t u a q (λ r market. ((a, find-row u s a got, admin), market))
            (λ e same. rw same ((a, find-row u s a got, admin), refl))))

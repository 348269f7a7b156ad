-- ===== src/General/Admin.antt =====
-- general-backend/handlers/admin_handlers.go and teams.go.
use Prim.Native.String.{◌++◌}
use tchebets_open.Prelude.{
  ℕ, String, Bool, not, ◌&&◌, ◌||◌, Option, none, some, List, [], ◌∷◌, Result, ok, err, str_eq,
  if◌then◌else◌, ℤ, contains,
}
use tchebets_open.Bet.Handlers.{is_given, handle_lock, handle_resolve, handle_cancel}
use tchebets_open.General.Sanitize.{
  SanitizeError, max_sanity_int, sanitize_uuid, non_empty_string, non_negative_int64,
}
use tchebets_open.General.Site.{Env, ask}
use tchebets_open.General.Client.{create_market_typed}
use tchebets_open.General.Accounts.{promote_to_admin}
use tchebets_open.General.Api.{max_question_len, max_outcome_len}
use tchebets_open.General.Pages.{
  redirect, page, to_market, Handler, show, on_result, on_option, passing, require,
}

abbrev pub max_team_len : ℕ
max_team_len = 60

-- `Teams`.
abbrev pub teams : List String
teams =
    "Trakinas Fc" ∷ "Legados Fc" ∷ "Los Quejitos Fc" ∷ "Vanguarda Fc" ∷ "Pelegos Fc"
    ∷ "Guerreiros do vale Fc" ∷ []

unfoldable pub is_known_team : String → Bool
is_known_team name = contains name teams

abbrev pub binary_outcomes : List String
binary_outcomes = "SIM" ∷ "NÃO" ∷ []

pub data TeamError : Type 0 where
  bad_team_a bad_team_b unknown_team same_team : TeamError

-- `buildQuestionFromTeams`.
unfoldable pub build_question_from_teams : String → String → Result TeamError String
build_question_from_teams raw_a raw_b = elim (non_empty_string raw_a max_team_len) [
  | err e ↦ err bad_team_a
  | ok a ↦ elim (non_empty_string raw_b max_team_len) [
    | err e ↦ err bad_team_b
    | ok b ↦
        if not (is_known_team a) || not (is_known_team b)
        then err unknown_team
        else if str_eq a b
        then err same_team
        else ok (a ++ " vencerá o " ++ b ++ "?")
  ]
]

-- The question of a form, and `none` where the page is shown again.
abbrev form_question : Result TeamError String → Option String
form_question (ok q) = some q
form_question (err _) = none

abbrev typed_question : Result SanitizeError String → Option String
typed_question (ok q) = some q
typed_question (err _) = none

unfoldable pub question_of : String → String → String → Option String
question_of question a b =
    if not (str_eq a "") || not (str_eq b "")
    then form_question (build_question_from_teams a b)
    else typed_question (non_empty_string question max_question_len)

-- `AdminCreateMarket`, with the id of the new market.
unfoldable pub admin_create_market :
    (now market_id : ℕ) → (ℕ → ℕ) → String → String → String → ℤ → Handler
admin_create_market now m ids question a b seed =
    on_option (question_of question a b) (page 200) (λ q.
      passing (non_negative_int64 seed max_sanity_int) (page 200) (λ n w s.
        on_result (create_market_typed now m ids q binary_outcomes n s) (λ x. show (page 200))
          (λ _. show (to_market m)) w))

module _ (env : Env) where
  -- `AdminLockMarket`, `AdminResolveMarket` and `AdminCancelMarket` look at the error of the call
  -- alone, and not at the status of the reply.
  unfoldable pub admin_lock_market : ℕ → String → Handler
  admin_lock_market now path =
      passing (sanitize_uuid env.parse_uuid path) (redirect "/admin/markets?error=id+inv%C3%A1lido")
        (λ m w s.
          on_result (ask (handle_lock now m) s)
            (λ x. show (redirect "/admin/markets?error=falha+ao+travar"))
            (λ _. show (redirect "/admin/markets")) w)

  unfoldable pub admin_resolve_market : ℕ → String → String → Handler
  admin_resolve_market now path win =
      passing (sanitize_uuid env.parse_uuid path) (redirect "/admin/markets?error=id+inv%C3%A1lido")
        (λ m. require (is_given win) (redirect "/admin/markets?error=resultado+inv%C3%A1lido") (
          passing (non_empty_string win max_outcome_len)
            (redirect "/admin/markets?error=resultado+inv%C3%A1lido")
            (λ o w s.
              on_result (ask (handle_resolve now m o) s)
                (λ x. show (redirect "/admin/markets?error=falha+ao+resolver"))
                (λ _. show (redirect "/admin/markets")) w)))

  unfoldable pub admin_cancel_market : ℕ → String → Handler
  admin_cancel_market now path =
      passing (sanitize_uuid env.parse_uuid path) (redirect "/admin/markets?error=id+inv%C3%A1lido")
        (λ m w s.
          on_result (ask (handle_cancel now m) s)
            (λ x. show (redirect "/admin/markets?error=falha+ao+cancelar"))
            (λ _. show (redirect "/admin/markets")) w)

  -- `AdminPromoteUser`.
  unfoldable pub admin_promote_user : String → Handler
  admin_promote_user email =
      require (is_given email && env.is_email email)
        (redirect "/admin/users?error=email+inv%C3%A1lido")
        (λ w s.
          on_result (promote_to_admin env email s)
            (λ x. show (redirect "/admin/users?error=falha+ao+promover"))
            (λ _. show (redirect "/admin/users")) w)

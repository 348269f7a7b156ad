-- ===== src/General/Acts.antt =====
-- What a request of a visitor of general-backend may do: to the tables of bet-backend, one request in
-- the visitor's own name, or a request on markets of an admin; to the accounts, one change.
use tchebets_open.Prelude.{
  ℕ, String, ◌≡◌, refl, ◌∙◌, ◌⊎◌, inl, inr, Bool, true, false, Option, none, some, Result, ok, err,
  arith, if◌then◌else◌, pos, Table, lookup, add_row, ap,
}
use tchebets_open.Bet.Models.{Db}
use tchebets_open.Bet.Statements.{is_some}
use tchebets_open.Bet.History.{
  Request, create, place, lock, resolve, cancel, sync, list_bet, unlist, buy, step,
}
use tchebets_open.Bet.Handlers.{handle}
use tchebets_open.General.Sanitize.{SanitizeError}
use tchebets_open.General.Site.{Site, SiteError, Env, Account, ask, typed, expect}
use tchebets_open.General.Accounts.{row_of_email, promote_rows, clean_email, bootstraps}
use tchebets_open.General.Pages.{
  Page, Session, Handler, show, on_result, on_option, passing, require,
}
use tchebets_open.General.Routes.{PageRequest, ask_register, as_user, as_admin, ask_promote}
use tchebets_open.General.Refines.{ask-step}

-- A change of the table of accounts.
pub data Change : Type 0 where
  new_account : ℕ → Account → Change
  promotion : String → Change

abbrev pub changed : Change → Table Account → Table Account
changed (new_account id a) t = add_row id a t
changed (promotion e) t = promote_rows e t

abbrev pub IsAdmin : ℕ → Table Account → Type 0
IsAdmin u t = (a : Account) × (lookup u t ≡ some a) × (a.is_admin ≡ true)

-- The requests in the name of a user.
abbrev pub IsOwn : ℕ → Request → Type 0
IsOwn u (place b v m o stake) = v ≡ u
IsOwn u (sync v balance) = v ≡ u
IsOwn u (list_bet l b v price) = v ≡ u
IsOwn u (unlist l v) = v ≡ u
IsOwn u (buy l v) = v ≡ u
IsOwn u _ = ⊥

-- The requests on a market.
abbrev pub OnMarket : Request → Type 0
OnMarket (create m ids q os seed) = Unit
OnMarket (lock m) = Unit
OnMarket (resolve m win) = Unit
OnMarket (cancel m) = Unit
OnMarket _ = ⊥

abbrev pub MayAsk : PageRequest → Session → Table Account → Request → Type 0
MayAsk (ask_register id email password) w t r = (lookup id t ≡ none) × (r ≡ sync id (pos 0))
MayAsk (as_user q) (some u) t r = (is_some (lookup u t) ≡ true) × IsOwn u r
MayAsk (as_admin q) (some u) t r = IsAdmin u t × OnMarket r
MayAsk _ _ t r = ⊥

module _ (env : Env) where
  -- A new account has an id and an email that no account has, and is an admin's only by the email of
  -- the environment.
  abbrev pub IsNew : ℕ → Table Account → Change → Type 0
  IsNew id t (new_account i a) =
      (i ≡ id)
      × (lookup id t ≡ none)
      × (row_of_email a.email t ≡ none)
      × (a.is_admin ≡ bootstraps env a.email)
  IsNew id t (promotion e) = ⊥

  abbrev pub MayChange : PageRequest → Session → Table Account → Change → Type 0
  MayChange (ask_register id email password) w t c = IsNew id t c
  MayChange (as_admin (ask_promote e)) (some u) t c =
      IsAdmin u t × (c ≡ promotion (clean_email env e))
  MayChange _ _ t c = ⊥

-- The state after a request, by what it may have asked bet-backend and changed in the accounts.
abbrev pub Asked : ℕ → (Request → Type 0) → Site → Site → Type 0
Asked now P s t = (t.bets ≡ s.bets) ⊎ ((r : Request) × P r × (t.bets ≡ step now r s.bets))

abbrev pub Altered : (Change → Type 0) → Site → Site → Type 0
Altered Q s t =
    (t.accounts ≡ s.accounts) ⊎ ((c : Change) × Q c × (t.accounts ≡ changed c s.accounts))

pub record Did (now : ℕ) (P : Request → Type 0) (Q : Change → Type 0) (s : Site)
    (out : Page × Session × Site) : Type 0 where
  pub asked : Asked now P s out.2
  pub altered : Altered Q s out.2

ask-Asked :
    (now : ℕ) {P : Request → Type 0} (s : Site) (r : Request)
    → P r
    → Asked now P s (ask (handle now r) s).1
ask-Asked now s r may = elim (ask-step now r s).1 [ inl k ↦ inl k | inr k ↦ inr (r, may, k) ]

module _ (now : ℕ) {P : Request → Type 0} {Q : Change → Type 0} (s : Site) (w : Session) where
  pub idle :
      (p : Page) (v : Session) (t : Site)
      → t.bets ≡ s.bets
      → t.accounts ≡ s.accounts
      → Did now P Q s (p, v, t)
  idle p v t b a = record { asked = inl b; altered = inl a }

  pub passing-Did :
      {A : Type 0} (r : Result SanitizeError A) (p : Page) (k : A → Handler)
      → ((a : A) → Did now P Q s (k a w s))
      → Did now P Q s (passing r p k w s)
  passing-Did (ok a) p k h = h a
  passing-Did (err e) p k h = idle p w s refl refl

  pub bound-Did :
      (b : Bool) (p : Page) (k : Handler)
      → Did now P Q s (k w s)
      → Did now P Q s (require b p k w s)
  bound-Did true p k h = h
  bound-Did false p k h = idle p w s refl refl

  pub require-Did :
      (b : Bool) (p : Page) (k : Handler)
      → (b ≡ true → Did now P Q s (k w s))
      → Did now P Q s (require b p k w s)
  require-Did true p k h = h refl
  require-Did false p k h = idle p w s refl refl

  pub option-Did :
      {A : Type 0} (o : Option A) (p : Page) (k : A → Handler)
      → ((a : A) → Did now P Q s (k a w s))
      → Did now P Q s (on_option o p k w s)
  option-Did (some a) p k h = h a
  option-Did none p k h = idle p w s refl refl

  pub if-Did :
      (b : Bool) (x y : Page × Session × Site)
      → Did now P Q s x
      → Did now P Q s y
      → Did now P Q s (if b then x else y)
  if-Did true x y dx dy = dx
  if-Did false x y dx dy = dy

  -- A page that shows the outcome of a call keeps the state that the call left.
  pub shown-Did :
      {A : Type 0} (out : Result SiteError A × Site) (p : SiteError → Page) (q : A → Page)
      → Asked now P s out.1
      → out.1.accounts ≡ s.accounts
      → Did now P Q s (on_result out (λ x. show (p x)) (λ a. show (q a)) w)
  shown-Did (ok a, t) p q d e = record { asked = d; altered = inl e }
  shown-Did (err x, t) p q d e = record { asked = d; altered = inl e }

  pub shown-Altered :
      {A : Type 0} (out : Result SiteError A × Site) (p : SiteError → Page) (q : A → Page)
      → out.1.bets ≡ s.bets
      → Altered Q s out.1
      → Did now P Q s (on_result out (λ x. show (p x)) (λ a. show (q a)) w)
  shown-Altered (ok a, t) p q d e = record { asked = inl d; altered = e }
  shown-Altered (err x, t) p q d e = record { asked = inl d; altered = e }

  pub on_result-Did :
      {A : Type 0} (out : Result SiteError A × Site) (h : SiteError → Handler) (k : A → Handler)
      → ((e : SiteError) → Did now P Q s (h e w out.1))
      → ((a : A) → out.0 ≡ ok a → Did now P Q s (k a w out.1))
      → Did now P Q s (on_result out h k w)
  on_result-Did (ok a, t) h k dh dk = dk a refl
  on_result-Did (err e, t) h k dh dk = dh e

  -- A page that asks bet-backend once, and shows the outcome.
  pub ask-Did :
      (r : Request) (p : SiteError → Page) (q : ℕ → Page)
      → P r
      → Did now P Q s (on_result (ask (handle now r) s) (λ x. show (p x)) (λ a. show (q a)) w)
  ask-Did r p q may =
      shown-Did (ask (handle now r) s) p q (ask-Asked now s r may) (ask-step now r s).0

expect-state : (c : ℕ) (out : Result SiteError ℕ × Site) → (expect c out).1 ≡ out.1
expect-state c (ok a, t) = ground arith
expect-state c (err e, t) = refl

typed-state : (c : ℕ) (f : Db → ℕ × Db) (s : Site) → (typed c f s).1 ≡ (ask f s).1
unfolding typed
typed-state c f s = expect-state c (ask f s)

pub typed-Asked :
    (now : ℕ) {P : Request → Type 0} (s : Site) (c : ℕ) (r : Request)
    → P r
    → Asked now P s (typed c (handle now r) s).1
      × ((typed c (handle now r) s).1.accounts ≡ s.accounts)
typed-Asked now s c r may =
    rw (typed-state c (handle now r) s) (ask-Asked now s r may, (ask-step now r s).0)

pub typed-Did :
    (now : ℕ) {P : Request → Type 0} {Q : Change → Type 0} (s : Site) (w : Session) (c : ℕ)
    (r : Request) (p : SiteError → Page) (q : Unit {0} → Page)
    → P r
    → Did now P Q s (on_result (typed c (handle now r) s) (λ x. show (p x)) (λ a. show (q a)) w)
typed-Did now s w c r p q may =
    let (asked, same) = typed-Asked now s c r may in
    shown-Did now s w (typed c (handle now r) s) p q asked same

-- After calls that leave the tables as they were.
pub Did-from :
    (now : ℕ) {P : Request → Type 0} {Q : Change → Type 0} (s t : Site)
    (out : Page × Session × Site)
    → t.bets ≡ s.bets
    → t.accounts ≡ s.accounts
    → Did now P Q t out
    → Did now P Q s out
Did-from now s t out b a d = record {
  asked = elim d.asked [
    | inl k ↦ inl (k ∙ b)
    | inr (r, may, k) ↦ inr (r, may, k ∙ ap (step now r) b)
  ];
  altered = elim d.altered [
    | inl k ↦ inl (k ∙ a)
    | inr (c, may, k) ↦ inr (c, may, k ∙ ap (changed c) a)
  ];
}

-- After a call that altered the accounts.
pub Did-after :
    (now : ℕ) {P : Request → Type 0} {Q : Change → Type 0} (s t : Site)
    (out : Page × Session × Site)
    → t.bets ≡ s.bets
    → Altered Q s t
    → Did now P (λ _. ⊥) t out
    → Did now P Q s out
Did-after now s t out b a d = record {
  asked = elim d.asked [
    | inl k ↦ inl (k ∙ b)
    | inr (r, may, k) ↦ inr (r, may, k ∙ ap (step now r) b)
  ];
  altered = elim d.altered [
    | inr (c, may, k) ↦ absurd may
    | inl k ↦ elim a [ inl j ↦ inl (k ∙ j) | inr (c, may, j) ↦ inr (c, may, k ∙ j) ]
  ];
}

pub Altered-mono :
    {Q R : Change → Type 0} (s t : Site)
    → ((c : Change) → Q c → R c)
    → Altered Q s t
    → Altered R s t
Altered-mono s t f (inl k) = inl k
Altered-mono s t f (inr (c, q, k)) = inr (c, f c q, k)

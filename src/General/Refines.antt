-- ===== src/General/Refines.antt =====
-- The JSON routes of general-backend as a restriction of what bet-backend accepts.
use Prim.Native.String.{[], ◌∷◌}
use tchebets_open.Prelude.{
  ℕ, ◌≤◌, ◌≡◌, refl, ◌∙◌, ◌⊎◌, inl, inr, Bool, true, false, List, [], ◌∷◌, ok, err, arith, length,
}
use tchebets_open.Bet.Models.{Db}
use tchebets_open.Bet.History.{
  Request, create, place, lock, resolve, cancel, adjust, sync, list_bet, unlist, buy, step, run,
}
use tchebets_open.Bet.Handlers.{
  bound, reply, handle, handle_place, handle_lock, handle_resolve, handle_cancel, handle_sync,
  handle_create, handle_list, handle_unlist, handle_buy, handle_adjust,
}
use tchebets_open.Bet.Errors.{BetError}
use tchebets_open.Bet.Market.{place_bet, lock_market, cancel_market, resolve_market, adjust_balance}
use tchebets_open.Bet.Create.{create_market, sync_user}
use tchebets_open.Bet.Listing.{list_bet_for_sale, cancel_listing, buy_listed_bet}
use tchebets_open.Prelude.{Result}
use tchebets_open.Wallet.Models.{Answer, fine, dropped, unanswered}
use tchebets_open.Wallet.Effects.{next_answer}
use tchebets_open.General.Site.{
  Site, SiteError, relay_reply, Env, ask, call, relay, Read, handle_read,
}
use tchebets_open.General.Api.{ApiRequest, handle_api, run_api}
use tchebets_open.General.Forwards.{Tame, Resolves, api-Forwards}

reply-state :
    {A : Type 0} (code : ℕ) (status : BetError → ℕ) (out : Result BetError A × Db)
    → (reply code status out).1 ≡ out.1
reply-state code status (ok a, db) = refl
reply-state code status (err e, db) = refl

bound-runs :
    {A : Type 0} (b : Bool) (code : ℕ) (status : BetError → ℕ) (f : Db → Result BetError A × Db)
    (db : Db)
    → ((bound b (λ d. reply code status (f d)) db).1 ≡ db)
      ⊎ ((bound b (λ d. reply code status (f d)) db).1 ≡ (f db).1)
bound-runs true code status f db = inr (reply-state code status (f db))
bound-runs false code status f db = inl refl

-- A request to bet-backend fails its binding, or runs.
pub handle-runs :
    (now : ℕ) (r : Request) (db : Db)
    → ((handle now r db).1 ≡ db) ⊎ ((handle now r db).1 ≡ step now r db)
unfolding handle step handle_place handle_lock handle_resolve handle_cancel handle_sync
    handle_create handle_list handle_unlist handle_buy handle_adjust
handle-runs now (create m ids q os seed) db =
    bound-runs _ 201 _ (create_market m ids now q os seed) db
handle-runs now (place b u m o stake) db = bound-runs _ 201 _ (place_bet b now u m o stake) db
handle-runs now (lock m) db = inr (reply-state 200 _ (lock_market now m db))
handle-runs now (resolve m win) db = bound-runs _ 200 _ (resolve_market now m win) db
handle-runs now (cancel m) db = inr (reply-state 200 _ (cancel_market now m db))
handle-runs now (adjust u delta) db = inr (reply-state 200 _ (adjust_balance u delta db))
handle-runs now (sync u balance) db = bound-runs _ 200 _ (sync_user now u balance) db
handle-runs now (list_bet l b v price) db =
    bound-runs _ 201 _ (list_bet_for_sale l now b v price) db
handle-runs now (unlist l v) db = inr (reply-state 200 _ (cancel_listing now l v db))
handle-runs now (buy l b) db = inr (reply-state 200 _ (buy_listed_bet now l b db))

pub Answer-cases : (a : Answer) → (a ≡ fine) ⊎ ((a ≡ dropped) ⊎ (a ≡ unanswered))
Answer-cases fine = inl refl
Answer-cases dropped = inr (inl refl)
Answer-cases unanswered = inr (inr refl)

-- A call runs whole or not at all, whatever the caller gets to know; the accounts stay.
pub ask-runs :
    (f : Db → ℕ × Db) (s : Site)
    → ((ask f s).1.accounts ≡ s.accounts)
      × (((ask f s).1.bets ≡ s.bets) ⊎ ((ask f s).1.bets ≡ (f s.bets).1))
unfolding ask call
ask-runs f s = elim (Answer-cases (next_answer s.answers)) [
  | inl e ↦ (ground (arith, e), inr (ground (arith, e)))
  | inr (inl e) ↦ (ground (arith, e), inl (ground (arith, e)))
  | inr (inr e) ↦ (ground (arith, e), inr (ground (arith, e)))
]

relay_reply-state : (out : Result SiteError ℕ × Site) → (relay_reply out).1 ≡ out.1
relay_reply-state (ok c, t) = refl
relay_reply-state (err e, t) = ground arith

relay-state : (f : Db → ℕ × Db) (s : Site) → (relay f s).1 ≡ (ask f s).1
unfolding relay
relay-state f s = relay_reply-state (ask f s)

-- A call of a request: bet-backend runs it, or keeps its tables.
pub ask-step :
    (now : ℕ) (r : Request) (s : Site)
    → ((ask (handle now r) s).1.accounts ≡ s.accounts)
      × (((ask (handle now r) s).1.bets ≡ s.bets)
          ⊎ ((ask (handle now r) s).1.bets ≡ step now r s.bets))
ask-step now r s =
    let (same, moves) = ask-runs (handle now r) s in
    (
      same,
      elim moves [
        | inl k ↦ inl k
        | inr k ↦ elim (handle-runs now r s.bets) [ inl h ↦ inl (k ∙ h) | inr h ↦ inr (k ∙ h) ]
      ],
    )

abbrev pub AllTame : List (ℕ × Request) → Type 0
AllTame [] = Unit
AllTame ((now, r) ∷ rs) = Tame r × AllTame rs

read-state : (d : Read) (db : Db) → (handle_read d db).1 ≡ db
unfolding handle_read
read-state d db = ground arith

-- One request of the API is no request or one tame request to bet-backend.
pub api_step :
    (env : Env) (now : ℕ) (q : ApiRequest) (s : Site)
    → ((handle_api env now q s).1.accounts ≡ s.accounts)
      × (((handle_api env now q s).1.bets ≡ s.bets)
          ⊎ ((r : Request) × Tame r
              × Resolves env q r
              × ((handle_api env now q s).1.bets ≡ step now r s.bets)))
api_step env now q s = elim (api-Forwards now s env q) [
  | inl e ↦ (ground (arith, e), inl (ground (arith, e)))
  | inr (inl (r, t, kind, e)) ↦
      let (same, moves) = ask-step now r s in
      let state = relay-state (handle now r) s in
      (
        ground (arith, e, same, state),
        elim moves [
          | inl k ↦ inl (ground (arith, e, k, state))
          | inr k ↦ inr (r, t, kind, ground (arith, e, k, state))
        ],
      )
  | inr (inr (d, e)) ↦
      let (same, moves) = ask-runs (handle_read d) s in
      let state = relay-state (handle_read d) s in
      (
        ground (arith, e, same, state),
        elim moves [
          | inl k ↦ inl (ground (arith, e, k, state))
          | inr k ↦ inl (ground (arith, e, k, state, read-state d s.bets))
        ],
      )
]

-- Whatever a client sends to the JSON routes and whatever answers are lost, the tables of bet-backend
-- are those after a sequence of requests that all pass the checks, no more than were sent, with no
-- AdjustBalance among them; the accounts stay as they were.
pub run_api_refines :
    (env : Env) (qs : List (ℕ × ApiRequest)) (s : Site)
    → (rs : List (ℕ × Request)) × AllTame rs
      × (length rs ≤ length qs)
      × ((run_api env qs s).bets ≡ run rs s.bets)
      × ((run_api env qs s).accounts ≡ s.accounts)
unfolding run_api run
run_api_refines env [] s = ([], tt, omega arith, refl, refl)
run_api_refines env ((now, q) ∷ qs) s =
    let (rs, tame, less, e, same) = run_api_refines env qs (handle_api env now q s).1 in
    let (kept, moves) = api_step env now q s in
    elim moves [
      | inl k ↦ (rs, tame, ground (arith, less), ground (arith, e, k), ground (arith, same, kept))
      | inr (r, t, kind, k) ↦ (
        (now, r) ∷ rs,
        (t, tame),
        ground (arith, less),
        ground (arith, e, k),
        ground (arith, same, kept),
      )
    ]

-- ===== src/Bet/Statuses.antt =====
-- What the status of a reply of bet-backend says of the tables.
use tchebets_open.Prelude.{
  ℕ, String, ◌≡◌, ◌≤◌, ◌<◌, refl, ◌⊎◌, inl, inr, Bool, true, false, Result, ok, err, arith, ℤ,
  Option-cases, Bool-cases, lookup, modify, some, not, ◌&&◌, ltb, ltb_ℤ, pos, length, ◌==◌,
  if◌then◌else◌,
}
use tchebets_open.Bet.Models.{Market, BetListing, cancelled, Db, is_open, is_listed}
use tchebets_open.Bet.Errors.{
  BetError, Tx, in_tx, db_error, listing_not_found, not_listing_owner, listing_not_active,
  listing_market_no_longer_open, pure, guard, ◌>>=◌, ◌>>◌,
}
use tchebets_open.Int64.{to_column}
use tchebets_open.Bet.Market.{
  refund_market_internal, refund_tx, resolve_market, resolve_tx, lock_market, lock_tx, place_bet,
  place_bet_tx, cancel_market, adjust_balance, adjust_tx,
}
use tchebets_open.Bet.Create.{sync_user, create_market, create_tx}
use tchebets_open.Bet.Listing.{
  buy_listed_bet, buy_tx, invalidate_stale_listing, list_bet_for_sale, list_tx, cancel_listing,
  select_listing, set_cancelled,
}
use tchebets_open.Bet.Inversion.{Run-cases}
use tchebets_open.Bet.History.{
  Request, create, place, lock, resolve, cancel, adjust, sync, list_bet, unlist, buy, step,
}
use tchebets_open.Bet.Handlers.{
  place_status, adjust_status, listing_status, server_error, is_given, reply, bound, handle,
  handle_create, handle_place, handle_lock, handle_resolve, handle_cancel, handle_adjust,
  handle_sync, handle_list, handle_unlist, handle_buy,
}

place_status-high : (e : BetError) → 400 ≤ place_status e
place_status-high e = ground arith

adjust_status-high : (e : BetError) → 400 ≤ adjust_status e
adjust_status-high e = ground arith

listing_status-high : (e : BetError) → 400 ≤ listing_status e
listing_status-high e = ground arith

-- A call of the service that fails leaves the tables as they were.
abbrev Clean : {A : Type 0} → (Db → Result BetError A × Db) → Type 0
Clean {A = A} f =
    (db : Db)
    → ((a : A) × ((f db).0 ≡ ok a)) ⊎ ((e : BetError) × ((f db).0 ≡ err e) × ((f db).1 ≡ db))

in_tx-Clean : {A : Type 0} (m : Tx A) → Clean (in_tx m)
in_tx-Clean m db = elim (Run-cases (m db)) [
  | inl (a, mid, q) ↦ inl (a, ground arith)
  | inr (x, q) ↦ inr (x, ground arith, ground arith)
]

-- What the service says of a request.
abbrev pub said : {A : Type 0} → Result BetError A × Db → Result BetError (Unit {0})
said (ok _, db) = ok tt
said (err e, db) = err e

abbrev pub verdict : ℕ → Request → Db → Result BetError (Unit {0})
verdict now (create m ids q os seed) db = said (create_market m ids now q os seed db)
verdict now (place b u m o stake) db = said (place_bet b now u m o stake db)
verdict now (lock m) db = said (lock_market now m db)
verdict now (resolve m win) db = said (resolve_market now m win db)
verdict now (cancel m) db = said (cancel_market now m db)
verdict now (adjust u delta) db = said (adjust_balance u delta db)
verdict now (sync u balance) db = said (sync_user now u balance db)
verdict now (list_bet l b s price) db = said (list_bet_for_sale l now b s price db)
verdict now (unlist l s) db = said (cancel_listing now l s db)
verdict now (buy l b) db = said (buy_listed_bet now l b db)

-- The service did its work, and the tables are those after it.
abbrev pub Served : ℕ × Db → Result BetError (Unit {0}) → Db → Type 0
Served (code, db') v after = (code < 300) × (v ≡ ok tt) × (db' ≡ after)

-- The body of the request or the service refused, and nothing changed.
abbrev pub Refused : ℕ × Db → Result BetError (Unit {0}) → Db → Type 0
Refused (code, db') v db =
    (400 ≤ code) × ((code ≡ 400) ⊎ ((e : BetError) × (v ≡ err e))) × (db' ≡ db)

abbrev pub cancelled_at_row : ℕ → BetListing → BetListing
cancelled_at_row now l = record l { status = cancelled; cancelled_at = some now }

-- A sale of a listing whose market is no longer open: the listing, if it was for sale, is cancelled.
abbrev pub Stale : ℕ → Request → ℕ × Db → Db → Type 0
Stale now (buy id buyer) (code, db') db =
    (code ≡ 409)
    × ((l : BetListing) × (m : Market) × (lookup id db.listings ≡ some l)
        × (lookup l.market_id db.markets ≡ some m)
        × (is_open m.status ≡ false)
        × (is_listed l.status ≡ true)
        × (db' ≡ record db { listings = modify id (cancelled_at_row now) db.listings }))
Stale now _ out db = ⊥

abbrev pub Told : ℕ → Request → ℕ × Db → Db → Type 0
Told now r out db =
    Served out (verdict now r db) (step now r db)
    ⊎ (Refused out (verdict now r db) db ⊎ Stale now r out db)

reply-Told :
    {A : Type 0} (code : ℕ) (status : BetError → ℕ) (f : Db → Result BetError A × Db) (db : Db)
    → code < 300
    → ((e : BetError) → 400 ≤ status e)
    → Clean f
    → Served (reply code status (f db)) (said (f db)) (f db).1
      ⊎ Refused (reply code status (f db)) (said (f db)) db
reply-Told code status f db low high clean = elim (clean db) [
  | inl (a, q) ↦ inl (ground arith, ground arith, ground arith)
  | inr (e, q, same) ↦ inr (ground (arith, high e), inr (e, ground arith), ground arith)
]

bound-Told :
    (b : Bool) (h : Db → ℕ × Db) (v : Result BetError (Unit {0})) (after db : Db)
    → Served (h db) v after ⊎ Refused (h db) v db
    → Served (bound b h db) v after ⊎ Refused (bound b h db) v db
bound-Told true h v after db told = told
bound-Told false h v after db told = inr (omega arith, inl refl, refl)

widen :
    (now : ℕ) (r : Request) (out : ℕ × Db) (db : Db)
    → Served out (verdict now r db) (step now r db) ⊎ Refused out (verdict now r db) db
    → Told now r out db
widen now r out db (inl x) = inl x
widen now r out db (inr x) = inr (inl x)

refund-Clean : (now m : ℕ) → Clean (refund_market_internal now m)
unfolding refund_market_internal
refund-Clean now m = in_tx-Clean (refund_tx now m)

invalidate-Clean : (now id : ℕ) → Clean (invalidate_stale_listing now id)
unfolding invalidate_stale_listing
invalidate-Clean now id = in_tx-Clean (do
  l ← select_listing id db_error
  if is_listed l.status then set_cancelled now id else pure tt)

unlist-Clean : (now id seller : ℕ) → Clean (cancel_listing now id seller)
unfolding cancel_listing
unlist-Clean now id seller = in_tx-Clean (do
  l ← select_listing id listing_not_found
  guard (l.seller_id == seller) not_listing_owner
  guard (is_listed l.status) listing_not_active
  set_cancelled now id)

server_error-high : (e : BetError) → 400 ≤ server_error e
server_error-high e = omega arith

resolve-Clean : (now m : ℕ) (win : String) → Clean (resolve_market now m win)
unfolding resolve_market
resolve-Clean now m win db = elim (Run-cases (resolve_tx now m win db)) [
  | inr (x, q) ↦ inr (x, ground arith, ground arith)
  | inl (true, mid, q) ↦ inl (tt, ground arith)
  | inl (false, mid, q) ↦ elim (refund-Clean now m db) [
    | inl (a, r) ↦ inl (tt, ground arith)
    | inr (e, r, same) ↦ inr (e, ground arith, ground arith)
  ]
]

sync-Clean : (now u : ℕ) (balance : ℤ) → Clean (sync_user now u balance)
unfolding sync_user
sync-Clean now u balance db = elim (Option-cases (to_column balance)) [
  | inl q ↦ inr (db_error, ground arith, ground arith)
  | inr (v, q) ↦ inl (tt, ground arith)
]

stale-Told :
    (now id buyer : ℕ) (l : BetListing) (m : Market) (db : Db)
    → lookup id db.listings ≡ some l
    → lookup l.market_id db.markets ≡ some m
    → is_open m.status ≡ false
    → Told now (buy id buyer) (handle_buy now id buyer db) db
unfolding handle_buy buy_listed_bet invalidate_stale_listing set_cancelled
stale-Told now id buyer l m db q r o = elim (Bool-cases (is_listed l.status)) [
  | inl a ↦ inr (inr (ground arith, (l, m, q, r, o, a, ground arith)))
  | inr a ↦
      inr (inl (ground arith, inr (listing_market_no_longer_open, ground arith), ground arith))
]

buy-Told : (now id buyer : ℕ) (db : Db) → Told now (buy id buyer) (handle_buy now id buyer db) db
unfolding handle_buy buy_listed_bet step
buy-Told now id buyer db = elim (Option-cases (lookup id db.listings)) [
  | inl q ↦ inr (inl (ground arith, inr (listing_not_found, ground arith), ground arith))
  | inr (l, q) ↦ elim (Option-cases (lookup l.market_id db.markets)) [
    | inl r ↦ inr (inl (ground arith, inr (db_error, ground arith), ground arith))
    | inr (m, r) ↦ elim (Bool-cases (is_open m.status)) [
      | inl o ↦ elim (in_tx-Clean (buy_tx now id buyer l) db) [
        | inl (a, s) ↦ inl (ground arith, ground arith, ground arith)
        | inr (e, s, same) ↦
            inr (inl (ground (arith, listing_status-high e), inr (e, ground arith), ground arith))
      ]
      | inr o ↦ stale-Told now id buyer l m db q r o
    ]
  ]
]

-- Every reply of a request that changes state has a status below 300, and then the service succeeded
-- and the tables are those after it; or one from 400, and then the body of the request was refused
-- with 400 or the service failed, and the tables are unchanged; but for a sale of a listing for sale
-- whose market is no longer open, which is answered with 409 and cancels that listing.
pub handle-Told : (now : ℕ) (r : Request) (db : Db) → Told now r (handle now r db) db
unfolding handle step handle_create handle_place handle_lock handle_resolve handle_cancel
    handle_adjust handle_sync handle_list handle_unlist create_market place_bet lock_market
    cancel_market adjust_balance list_bet_for_sale
handle-Told now (create m ids q os seed) db =
    widen now (create m ids q os seed) (handle now (create m ids q os seed) db) db (
      bound-Told (is_given q && not (ltb (length os) 2) && not (ltb_ℤ seed (pos 0)))
        (λ d. reply 201 server_error (create_market m ids now q os seed d))
        (verdict now (create m ids q os seed) db) (step now (create m ids q os seed) db) db
        (reply-Told 201 server_error (create_market m ids now q os seed) db (omega arith)
          server_error-high (in_tx-Clean (create_tx m ids now q os seed))))
handle-Told now (place b u m o stake) db =
    widen now (place b u m o stake) (handle now (place b u m o stake) db) db (
      bound-Told (is_given o && ltb_ℤ (pos 0) stake)
        (λ d. reply 201 place_status (place_bet b now u m o stake d))
        (verdict now (place b u m o stake) db) (step now (place b u m o stake) db) db
        (reply-Told 201 place_status (place_bet b now u m o stake) db (omega arith)
          place_status-high (in_tx-Clean (place_bet_tx b now u m o stake))))
handle-Told now (lock m) db = widen now (lock m) (handle now (lock m) db) db (
    reply-Told 200 server_error (lock_market now m) db (omega arith) server_error-high
      (in_tx-Clean (lock_tx now m)))
handle-Told now (resolve m win) db = widen now (resolve m win) (handle now (resolve m win) db) db (
    bound-Told (is_given win) (λ d. reply 200 server_error (resolve_market now m win d))
      (verdict now (resolve m win) db) (step now (resolve m win) db) db
      (reply-Told 200 server_error (resolve_market now m win) db (omega arith) server_error-high
        (resolve-Clean now m win)))
handle-Told now (cancel m) db = widen now (cancel m) (handle now (cancel m) db) db (
    reply-Told 200 server_error (cancel_market now m) db (omega arith) server_error-high
      (refund-Clean now m))
handle-Told now (adjust u delta) db =
    widen now (adjust u delta) (handle now (adjust u delta) db) db (
      reply-Told 200 adjust_status (adjust_balance u delta) db (omega arith) adjust_status-high
        (in_tx-Clean (adjust_tx u delta)))
handle-Told now (sync u balance) db =
    widen now (sync u balance) (handle now (sync u balance) db) db (
      bound-Told (not (ltb_ℤ balance (pos 0)))
        (λ d. reply 200 server_error (sync_user now u balance d)) (verdict now (sync u balance) db)
        (step now (sync u balance) db) db
        (reply-Told 200 server_error (sync_user now u balance) db (omega arith) server_error-high
          (sync-Clean now u balance)))
handle-Told now (list_bet l b s price) db =
    widen now (list_bet l b s price) (handle now (list_bet l b s price) db) db (
      bound-Told (ltb_ℤ (pos 0) price)
        (λ d. reply 201 listing_status (list_bet_for_sale l now b s price d))
        (verdict now (list_bet l b s price) db) (step now (list_bet l b s price) db) db
        (reply-Told 201 listing_status (list_bet_for_sale l now b s price) db (omega arith)
          listing_status-high (in_tx-Clean (list_tx l now b s price))))
handle-Told now (unlist l s) db = widen now (unlist l s) (handle now (unlist l s) db) db (
    reply-Told 200 listing_status (cancel_listing now l s) db (omega arith) listing_status-high
      (unlist-Clean now l s))
handle-Told now (buy l b) db = buy-Told now l b db

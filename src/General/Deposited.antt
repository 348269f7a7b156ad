-- ===== src/General/Deposited.antt =====
-- What `Deposit` of general-backend/handlers/profile_handlers.go does to the money.
use tchebets_open.Prelude.{ℕ, ◌≤◌, ◌<◌, ◌+◌, ◌≡◌, refl, List, ◌∷◌, ok, some, arith, pos, lookup}
use tchebets_open.Int64.{int64_limit, add64-pos}
use tchebets_open.Bet.Models.{User}
use tchebets_open.Bet.Wealth.{wealth}
use tchebets_open.Bet.Ledger.{balance_of, sync_moves}
use tchebets_open.Bet.Details.{get_user}
use tchebets_open.Bet.Create.{sync_user}
use tchebets_open.Bet.Handlers.{handle_sync}
use tchebets_open.Wallet.Models.{Answer, fine}
use tchebets_open.General.Sanitize.{max_sanity_int, positive_int64}
use tchebets_open.General.Site.{Site, client_get_user, call, typed, ask}
use tchebets_open.General.Pages.{redirect, Session, deposit, deposit_write}

sync-writes :
    (now id v : ℕ) (s : Site) (rest : List Answer)
    → s.answers ≡ fine ∷ rest
    → v < int64_limit
    → typed 200 (handle_sync now id (pos v)) s
      ≡ (ok tt, record s { bets = (sync_user now id (pos v) s.bets).1; answers = rest })
unfolding typed ask call handle_sync sync_user
sync-writes now id v s rest a h = ground (arith, a)

-- The write of a deposit puts the balance that was read, and the amount, in the place of the balance
-- that stands there by then: what changed it in between is lost.
pub deposit_write-overwrites :
    (now id n : ℕ) (u : User) (w : Session) (s : Site) (rest : List Answer)
    → s.answers ≡ fine ∷ rest
    → u.balance + n < int64_limit
    → ((deposit_write now id (pos n) u w s).0 ≡ redirect "/profile?flash=Dep%C3%B3sito+realizado")
      × (wealth (deposit_write now id (pos n) u w s).2.bets + balance_of (lookup id s.bets.users)
          ≡ wealth s.bets + (u.balance + n))
unfolding deposit_write
deposit_write-overwrites now id n u w s rest a h =
    let sum = add64-pos u.balance n h in
    let write = sync-writes now id (u.balance + n) s rest a h in
    (
      ground (arith, sum, write),
      ground (arith, sum, write, sync_moves now id (u.balance + n) s.bets h),
    )

-- With both calls answered and nothing between them, a deposit by a known user of an amount from 1 to
-- 10^9 adds exactly that amount to the money, if the new balance is an int64.
pub deposit-adds :
    (now id n : ℕ) (u : User) (w : Session) (s : Site) (rest : List Answer)
    → s.answers ≡ fine ∷ fine ∷ rest
    → lookup id s.bets.users ≡ some u
    → 0 < n
    → n ≤ max_sanity_int
    → u.balance + n < int64_limit
    → ((deposit now id (pos n) w s).0 ≡ redirect "/profile?flash=Dep%C3%B3sito+realizado")
      × (wealth (deposit now id (pos n) w s).2.bets ≡ wealth s.bets + n)
unfolding deposit client_get_user get_user call positive_int64
deposit-adds now id n u w s rest a k low high h =
    let read : Site = record s { answers = fine ∷ rest } in
    let (shown, moved) = deposit_write-overwrites now id n u w read rest refl h in
    (ground (arith, a, k, shown), ground (arith, a, k, moved))

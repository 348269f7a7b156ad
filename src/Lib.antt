-- ===== src/Lib.antt =====
-- tchebets: a pari-mutuel betting site of three Go services. bet-backend keeps the users' balances,
-- the markets, their pools and the bets, and the resale of bets. wallet-backend moves USDC in and
-- out of Solana and calls the `AdjustBalance` endpoint of bet-backend to credit and debit.
-- general-backend keeps the accounts, checks what a browser or a client sends, and passes it on to the
-- two others.
--
-- Prelude and its children hold the library's names, the Boolean tests, integers, results and
-- tables (rows by primary key). Int64 is the wrapping `int64` arithmetic of Go and the range of a
-- `BIGINT CHECK (… >= 0)` column.
--
-- Bet models bet-backend. The state is `Db`, the five tables of bet-backend/db/db.go.
--   Bet/Models      bet-backend/models/models.go: rows and statuses
--   Bet/Errors      the errors, and transactions as functions that an error rolls back
--   Bet/Statements  the SQL statements with the constraints of bet-backend/db/db.go
--   Bet/Market      bet-backend/service/market_service.go: PlaceBet, LockMarket, ResolveMarket,
--                   RefundMarketInternal, CancelMarket, AdjustBalance
--   Bet/Create      CreateMarket, and SyncUser of bet-backend/handlers/handlers.go
--   Bet/Listing     bet-backend/service/listing_service.go: ListBetForSale, CancelListing,
--                   invalidateStaleListing, BuyListedBet
--   Bet/Details     the readers of both files
--   Bet/Handlers    the requests of bet-backend/handlers/handlers.go and listing_handlers.go that
--                   change state, and the status of each reply; Bet/Statuses on them
--   Bet/Wealth      the money in balances and open stakes; Bet/Valid the invariant of the tables
--   Bet/History     requests one after the other, what they bring in and take out
--   Bet/Backing     what the listings for sale promise of the bets and the markets; Bet/Closing,
--                   Bet/Carries, Bet/Offers and Bet/Bought on them
--   The other files of Bet hold proofs: Credits, Frames, Inversion and Tables on the statements;
--   Place, PlaceValid, Payout, Settle, Resolve, Refund, Lifecycle, Seeds, CreateValid, CreateLaws,
--   Ledger, Sale, Keeps, Taken, Owed, Shares on the operations; Conservation on all of them. Sample,
--   Tests and OfferTests run them on concrete tables.
--
-- Wallet models wallet-backend. The state is `World`: its tables, the `Db` of bet-backend, the
-- transfers on the chain, and a list of answers. Each call to a database, to bet-backend or to the
-- chain takes the next answer: it runs, it is lost before it runs, or its answer is lost.
--   Wallet/Models       wallet-backend/models/models.go and wallet-backend/db/db.go
--   Wallet/Convert      the conversions of wallet-backend/service/service.go
--   Wallet/Effects      the monad of calls; Wallet/Keeps invariants of it
--   Wallet/Store        wallet-backend/store/store.go
--   Wallet/Service      wallet-backend/service/service.go, the ledger client of
--                       wallet-backend/betclient/client.go, scanAddress of
--                       wallet-backend/poller/poller.go
--   Wallet/Handlers     wallet-backend/handlers/handlers.go
--   Wallet/Scanner      wallet-backend/chain/scanner.go; Gathered and Scanned on what it finds
--   Wallet/Poller       scanOnce of wallet-backend/poller/poller.go
--   Wallet/Confirm      confirmSignature and signSendConfirm of wallet-backend/chain/solana.go
--   Wallet/Solana       the client of wallet-backend/chain/solana.go, and Wallet/Jupiter the swap of
--                       wallet-backend/chain/jupiter.go; Broadcast on what the cluster takes
--   Wallet/History      the service under any requests and passes of the poller: Quiet, Spends, Worth,
--                       Minted, Debited, Steady and Credited on its deposits; Faucet on the faucet
--   Wallet/Derivation   wallet-backend/crypto/derivation.go; Distinct on its keys, and KeyTests runs them
--   Wallet/Load         wallet-backend/config/config.go
--   Wallet/Deposits, Wallet/Withdrawals  proofs, with Wallet/Leads and Wallet/Sending;
--                       Wallet/Tests and Wallet/Samples run them
--
-- General models general-backend. The state is `Site`: the accounts, the `Db` of bet-backend, and the
-- answers to come, as for wallet-backend.
--   General/Text, General/Sanitize  general-backend/sanitize/sanitize.go; Sanitized on what it lets
--                       through
--   General/Site, General/Client    general-backend/betclient/client.go and types.go
--   General/Api         the JSON routes of general-backend/handlers/handlers.go; Forwards, Refines,
--                       Created and Sound on what they pass on
--   General/Accounts    general-backend/store/accounts.go
--   General/Pages       general-backend/auth/session.go, and the pages that change state of
--                       general-backend/handlers/auth_handlers.go, profile_handlers.go,
--                       public_handlers.go and listing_handlers.go
--   General/Admin       general-backend/handlers/admin_handlers.go and teams.go
--   General/Routes      the routes of general-backend/main.go
--   General/Crypto      the pages of the crypto mode of general-backend/handlers/profile_handlers.go, over
--                       general-backend/walletclient/client.go; Payouts on the withdrawal
--   General/Views       general-backend/handlers/viewbuild.go, general-backend/views/viewmodels.go and
--                       loadAccountsFor of general-backend/handlers/public_handlers.go; Percent on a card,
--                       and PercentTests runs it
--   General/Reads       the methods of general-backend/betclient/types.go that only read
--   General/Profile     Profile of general-backend/handlers/profile_handlers.go and buildNav of
--                       general-backend/handlers/nav.go; Cached, Owned and Remembered on it
--   General/Panel       enrichCrypto of general-backend/handlers/profile_handlers.go; Honest on it,
--                       and Picks on exact lists and lost calls
--   General/Market      the other pages of general-backend/handlers/public_handlers.go
--   General/Acts, Calls, Visits, Admins  what a visitor may do, and the proofs that no more is done;
--                       Lost and Deposited on calls that are lost and on deposits; Tests and Samples run them
--
-- Proxy models the handler of solana-rpc-proxy/main.go, which stands between wallet-backend and the RPC
-- of Solana.
--
-- A UUID is the number that its text spells, and fresh UUIDs and times are arguments. Transactions
-- hold the locks of the rows that they touch, so each request of bet-backend is one step. Loops are
-- structural recursion, but for the wait of Wallet/Confirm, which runs on fuel: n + 1 is enough where
-- the context is done after n more polls. For the service, the keys, the chain and the swap (`Chain`) are
-- parameters, which Wallet/Derivation, Wallet/Solana and Wallet/Jupiter model on their own; so are the
-- type and the division of the odds. The cache of odds, the channel of updates, the
-- bodies of replies, process start-up, generated views and the texts of pages are not
-- modelled: no balance depends on them. Nor are the bytes of transactions,
-- the hashes and curves of the keys, and the reverse proxy of solana-rpc-proxy, which are calls of libraries. The
-- parsing of a UUID, the lower case of a text, the hash of a password and the environment of
-- general-backend are parameters (`Env`).
pub mod Bet
pub mod General
pub mod Int64
pub mod Prelude
pub mod Proxy
pub mod Wallet

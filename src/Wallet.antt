-- ===== src/Wallet.antt =====
-- wallet-backend: custody addresses, deposits and withdrawals over the ledger of bet-backend.
pub mod Derivation
pub mod Distinct
pub mod KeyTests
pub mod Models
pub mod Convert
pub mod Effects
pub mod Store
pub mod Service
pub mod Handlers
pub mod Confirm
pub mod Solana
pub mod Jupiter
pub mod Broadcast
pub mod Scanner
pub mod Gathered
pub mod Poller
pub mod Scanned
pub mod Load
pub mod Keeps
pub mod Quiet
pub mod Ingests
pub mod Spends
pub mod Worth
pub mod Minted
pub mod Debited
pub mod History
pub mod Steady
pub mod Credited
pub mod Faucet
pub mod Deposits
pub mod Leads
pub mod Sending
pub mod Withdrawals
pub mod Tests
mod Samples

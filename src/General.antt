-- ===== src/General.antt =====
-- general-backend: what stands between a browser and the two other services.
pub mod Text
pub mod Sanitize
pub mod Sanitized
pub mod Site
pub mod Api
pub mod Forwards
pub mod Refines
pub mod Sound
pub mod Created
pub mod Client
pub mod Accounts
pub mod Pages
pub mod Admin
pub mod Routes
pub mod Acts
pub mod Calls
pub mod Visits
pub mod Admins
pub mod Crypto
pub mod Payouts
pub mod Lost
pub mod Deposited
pub mod Picks
pub mod Reads
pub mod Profile
pub mod Cached
pub mod Owned
pub mod Remembered
pub mod Views
pub mod Market
pub mod Percent
mod Tests
mod PercentTests
pub mod Panel
pub mod Honest
mod Samples

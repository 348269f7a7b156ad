-- ===== src/Bet.antt =====
-- bet-backend: the pari-mutuel engine.
pub mod Models
pub mod Errors
pub mod Statements
pub mod Market
pub mod Create
pub mod Listing
pub mod Details
pub mod Wealth
pub mod Credits
pub mod Inversion
pub mod Frames
pub mod Place
pub mod Payout
pub mod Tables
pub mod Valid
pub mod Refund
pub mod Settle
pub mod Resolve
pub mod Keeps
pub mod PlaceValid
pub mod Lifecycle
pub mod Seeds
pub mod CreateValid
pub mod CreateLaws
pub mod Ledger
pub mod Adjusts
pub mod Backing
pub mod Closing
pub mod Carries
pub mod Offers
pub mod Bought
pub mod Sale
pub mod History
pub mod Conservation
pub mod Owed
pub mod Taken
pub mod Shares
pub mod Handlers
pub mod Statuses
pub mod Sample
pub mod Tests
pub mod OfferTests

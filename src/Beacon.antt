-- ===== src/Beacon.antt =====
-- e2e/internal/beacon and e2e/internal/rewards: what the suites read from a beacon node.
pub mod Types
mod Bitlist
pub mod Rewards
pub mod Scanning
pub mod Roots
pub mod Blocks
pub mod Balances
pub mod Votes
mod SquareRoot
pub mod TimelyVotes
mod VoteReading
mod Duties
mod Inclusion
mod Tests
mod VoteTests

-- ===== src/MockHsm.antt =====
-- The simulated device (src/mockhsm).
pub mod Error
mod Tests
pub mod Maps
pub mod Keys
pub mod Payload
pub mod Objects
pub mod State
pub mod Requests
pub mod Listing
pub mod Commands
pub mod Entries
pub mod Lengths
pub mod Made
pub mod Lookups
pub mod Numbering
pub mod Answers
pub mod Service
pub mod Wrapping
pub mod Filing
pub mod Validity
pub mod Preserved
pub mod Connection
pub mod Opened

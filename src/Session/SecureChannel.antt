-- ===== src/Session/SecureChannel.antt =====
-- The secure channel of SCP03 (src/session/securechannel.rs and its modules): primitives, key
-- derivation, the state of one end, and the operations of the host and of the card.
pub mod Crypto
pub mod Kdf
pub mod Channel
pub mod Host
pub mod Card
pub mod Sealed
pub mod Answered
pub mod Frames
pub mod Exchange
pub mod Handshake
pub mod Opening
pub mod Rejected
pub mod Create
pub mod Created
pub mod Invited
pub mod Accepted
pub mod Toy
mod Tests

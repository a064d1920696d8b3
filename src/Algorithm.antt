-- ===== src/Algorithm.antt =====
-- Algorithm identifiers (src/algorithm.rs and the `algorithm` modules of each kind).
pub mod Error
pub mod Asymmetric
pub mod Authentication
pub mod Ecdh
pub mod Ecdsa
pub mod Hmac
pub mod Mgf
pub mod Opaque
pub mod Oaep
pub mod Pkcs1
pub mod Pss
pub mod Template
pub mod Wrap
pub mod Otp
pub mod Rsa
pub mod Any
mod Tests

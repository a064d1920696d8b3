-- ===== src/Lib.antt =====
-- A verification library for yubihsm.rs, a client for the YubiHSM 2 (a hardware security module)
-- with a simulated device for tests.
--
-- The program. A client (src/client.rs) turns typed requests into command messages
-- (src/command/message.rs). A session (src/session.rs) encrypts and signs them on a secure
-- channel (src/session/securechannel.rs, the protocol SCP03), sends the frames through a
-- connector (HTTP, USB or the simulated device) and reads response messages
-- (src/response/message.rs) back. The simulated device (src/mockhsm) runs the other end of the
-- same channel. Bytes on the wire name commands, responses, device errors, algorithms, object
-- types, origins and audit options.
--
-- The files.
--   Base           tests, results that are a value, an error or a panic, actions on a state, lists
--                  and bytes over native numbers, tables over all bytes; Programs has the operations
--                  of the device's handlers, and rules for what they keep
--   Command        src/command/code.rs, error.rs, message.rs: `parse` and `serialize` of frames
--   Response       src/response/code.rs, error.rs, message.rs: the same for responses
--   Device         src/device/error.rs
--   Algorithm      src/algorithm.rs and the algorithm.rs of asymmetric, authentication, ecdh, ecdsa,
--                  hmac, opaque, otp, rsa, template and wrap, with src/rsa/mgf.rs
--   Domain, Audit  src/domain.rs; src/audit.rs
--   Capability     src/capability.rs: Flags are the constants; Names is about their names
--   Object         src/object/types.rs and origins.rs; Label is label.rs, Info is handle.rs, info.rs,
--                  entry.rs and put.rs; Filter is filter.rs with the loop of src/mockhsm/command.rs
--                  that reads filters, RoundTrip and Ends are its proofs
--   Wrap           Info is src/wrap/info.rs; Message is src/wrap/message.rs and nonce.rs, and the
--                  wrapped object of src/mockhsm/object.rs
--   Session        src/session/id.rs and error.rs; Mac is src/session/securechannel/mac.rs
--   Session.SecureChannel  Kdf is kdf.rs, context.rs and cryptogram.rs of src/session/securechannel
--                  and the halves of src/authentication/key.rs; Channel, Host and Card are the state
--                  and the methods of src/session/securechannel.rs, split by who calls them;
--                  Sealed, Answered, Frames, Exchange, Handshake, Opening and Rejected are
--                  the proofs; Create is `open` with src/session/commands.rs and the answer of
--                  src/mockhsm/command.rs; Created, Invited and Accepted are its proofs
--   Wire           src/serialization.rs, ser.rs and de.rs: the shapes of typed requests
--   Session.Client src/session.rs and src/session/timeout.rs; Open is `Session::open`; Delivery and
--                  Aborted are the proofs
--   Client         src/client.rs: the session that a client holds and opens again, and `send_command`;
--                  Reconnection is the proof
--   MockHsm        the simulated device. Maps is what the code uses of `BTreeMap`, with its laws.
--                  Payload and Objects are src/mockhsm/object/payload.rs, object/objects.rs and
--                  object.rs; State is state.rs, session.rs and audit.rs; Requests are the shapes of
--                  the commands; Listing and Commands are the handlers of command.rs, by what they
--                  are about; Connection is connection.rs with the frames of command.rs.
--                  Entries, Lengths, Made, Lookups and Wrapping are proofs about objects, Passing
--                  and Members of Listing about what is listed, Numbering about the
--                  numbers of sessions, Filing, Validity and Preserved about what every frame
--                  leaves in order, Answers and Service about a client's session with the device,
--                  Opened about opening one
--
-- How code is read. A method on `&mut self` is an action: it takes a state and gives a result
-- and the new state, and what was written before an error or a panic stays written. A failed
-- `assert!`, `unwrap` or `expect`, an index out of range, and an overflow that a build with
-- overflow checks finds, is `panic`. A `u8` is a number below 256; where a statement needs it,
-- it says so. Lengths are written to frames in two bytes, modulo 2 ^ 16. The counter of a
-- channel is a `u32` whose growth is checked. The one loop on fuel is that which reads filters:
-- its fuel is the length of the data, which is enough as each filter takes a byte, and it is
-- shown to be. Every other function ends by the structure of its arguments. A map is a list in
-- the order of its keys; the key of an object's handle is its number times 256 and the byte of
-- its type. A panic under the device's lock poisons it.
--
-- Parameters. The crates aes, cbc and cmac are the record `Crypto`, with what is documented of
-- them in `CryptoLaws`: a tag has 16 bytes, and a padded text is a whole number of blocks and is
-- read back. Nothing is assumed about secrecy or about how hard a MAC is to forge. The connector
-- and the clock are parameters of a session. The crates of keys (p256, k256, ed25519-dalek, rsa),
-- AES-CCM and bitflags are the record `Keys`, the signatures the record `Signers`; of AES-CCM,
-- `CcmLaws` says that what is encrypted is read back. The bytes of `OsRng` are a function of
-- their number, for each frame another.
--
-- Left out. The random `uuid` of a command and the logs. Comparisons in constant time are
-- comparisons. The check that a label is UTF-8. Not modelled: the client's typed requests but for
-- the filters of a listing, the encryption of wrapped keys on the side of the client, the names
-- of object types, and provisioning (src/setup). Nor are transport over HTTP and USB, signatures
-- and SSH certificates, which are calls of third-party crates.
pub mod Base
pub mod Algorithm
pub mod Audit
pub mod Object
pub mod Command
pub mod Response
pub mod Device
pub mod Capability
pub mod Client
pub mod Domain
pub mod Session
pub mod Wire
pub mod Wrap
pub mod MockHsm

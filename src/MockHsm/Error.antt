-- ===== src/MockHsm/Error.antt =====
-- Why the simulated device refuses an operation on objects (src/mockhsm/error.rs), and why it
-- refuses a frame (src/connector/error.rs).
pub data HsmErrorKind : Type 0 where
  access_denied crypto_error object_not_found : HsmErrorKind

pub data ConnectorErrorKind : Type 0 where
  addr_invalid access_denied device_busy_error connection_failed io_error request_error
        response_error usb_error :
      ConnectorErrorKind

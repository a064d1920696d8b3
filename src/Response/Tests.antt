-- ===== src/Response/Tests.antt =====
-- Response frames on concrete bytes (src/response/code.rs, src/response/message.rs).
use yubihsm_rs.Base.{
  ℕ, ◌-◌, ◌≡◌, ◌≢◌, ◌≤◌, ◌↔◌, ok, err, panic, some, List, [], ◌∷◌, replicate, refl, arith,
}
use yubihsm_rs.Command.Code as CommandCodes
use yubihsm_rs.Command.Code.{CommandCode}
use yubihsm_rs.Command.Error.{code_invalid}
use yubihsm_rs.Response.Code as ResponseCodes
use yubihsm_rs.Response.Code.{ResponseCode}
use yubihsm_rs.Response.Code.RoundTrip.{response_code_from_u8_iff, deserialize_panic_iff}
use yubihsm_rs.Response.Message.{ResponseMessage, parse, serialize}
use yubihsm_rs.Response.Message.Parts.{IsWellFormed}
use yubihsm_rs.Response.Message.RoundTrip.{response_parse_iff, response_parse-ne-panic}

abbrev message : ResponseMessage
message = record {
  code = ResponseCode.success CommandCode.session_message;
  session_id = some 3;
  data_bytes = 1 ∷ 2 ∷ [];
  mac = some (replicate 8 9);
}

abbrev frame : List ℕ
frame = 0x85 ∷ 0 ∷ 11 ∷ 3 ∷ 1 ∷ 2 ∷ replicate 8 9

serialize-message : serialize message ≡ frame
unfolding serialize
serialize-message = refl

response_parse_iff_example :
    (parse frame ≡ ok message) ↔ ((serialize message ≡ frame) × IsWellFormed message)
response_parse_iff_example = response_parse_iff frame message (ground arith)

response_parse-ne-panic_example : parse frame ≢ panic
response_parse-ne-panic_example = response_parse-ne-panic frame

response_code_from_u8_iff_example : (ResponseCodes.from_u8 0x7f ≡ ok ResponseCode.memory_error) ↔ (
    (ResponseCodes.to_u8 ResponseCode.memory_error ≡ 0x7f)
    × (ResponseCode.memory_error ≢ ResponseCode.success CommandCode.hsm_initialization))
response_code_from_u8_iff_example =
    response_code_from_u8_iff 0x7f ResponseCode.memory_error (omega arith)

deserialize_panic_iff_example :
    (ResponseCodes.deserialize 0x80 ≡ panic)
    ↔ ((0x80 ≤ 0x80) × (CommandCodes.from_u8 (0x80 - 0x80) ≡ err code_invalid))
deserialize_panic_iff_example = deserialize_panic_iff 0x80 (omega arith)

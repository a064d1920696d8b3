-- ===== src/Command/Tests.antt =====
-- Command frames on concrete bytes (src/command/code.rs, src/command/message.rs).
use yubihsm_rs.Base.{ℕ, ◌≡◌, ◌≢◌, ◌↔◌, ok, panic, some, List, [], ◌∷◌, replicate, refl, arith}
use yubihsm_rs.Command.Code as CommandCodes
use yubihsm_rs.Command.Code.{CommandCode}
use yubihsm_rs.Command.Message.{CommandMessage, parse, serialize}
use yubihsm_rs.Command.Message.RoundTrip.{IsWellFormed, command_parse_iff, command_parse-ne-panic}

abbrev message : CommandMessage
message = record {
  command_type = CommandCode.session_message;
  session_id = some 3;
  data_bytes = 1 ∷ 2 ∷ [];
  mac = some (replicate 8 9);
}

abbrev frame : List ℕ
frame = 0x05 ∷ 0 ∷ 11 ∷ 3 ∷ 1 ∷ 2 ∷ replicate 8 9

serialize-message : serialize message ≡ frame
unfolding serialize
serialize-message = refl

command_parse_iff_example :
    (parse frame ≡ ok message) ↔ ((serialize message ≡ frame) × IsWellFormed message)
command_parse_iff_example = command_parse_iff frame message (ground arith)

command_parse-ne-panic_example : parse frame ≢ panic
command_parse-ne-panic_example = command_parse-ne-panic frame

command_code_from_u8_iff_example :
    (CommandCodes.from_u8 0x05 ≡ ok CommandCode.session_message)
    ↔ (CommandCodes.to_u8 CommandCode.session_message ≡ 0x05)
command_code_from_u8_iff_example =
    CommandCodes.command_code_from_u8_iff 0x05 CommandCode.session_message (omega arith)

-- ===== src/Idempotency/Record.antt =====
-- The records that the idempotency middleware writes (idempotency.go), the command results they stand
-- for (command.go), and the cut of a text to a number of bytes (audit.go).
use Prim.Native.Char.{Char, code}
use Prim.Native.String.{◌++◌}
use go_mink.Base.{
  ℕ, ◌+◌, ◌-◌, String, Bool, true, false, not, ◌&&◌, Option, none, some, ltb, leb, if◌then◌else◌,
  ◌==◌,
}
use go_mink.Base.Int.{ℤ, pos, ◌+ℤ◌}
use go_mink.Adapters.Types.{Time, Duration}
use go_mink.Idempotency.{IdempotencyRecord}

-- The bytes of a character in UTF-8.
abbrev pub rune_length : Char → ℕ
rune_length c =
    if ltb (code c) 128
    then 1
    else if ltb (code c) 2048
    then 2
    else if ltb (code c) 65536
    then 3
    else 4

abbrev pub byte_length : String → ℕ
byte_length String.[] = 0
byte_length (String.◌∷◌ c s) = rune_length c + byte_length s

-- `s[:cut]` with `cut` the last start of a character that is not above the budget.
abbrev pub cut_bytes : ℕ → String → String
cut_bytes budget String.[] = String.[]
cut_bytes budget (String.◌∷◌ c s) =
    let rest = cut_bytes (budget - rune_length c) s in
    if leb (rune_length c) budget then String.◌∷◌ c rest else String.[]

unfoldable pub truncate_utf8_bytes : String → ℕ → String
truncate_utf8_bytes s max_bytes = if leb (byte_length s) max_bytes then s else cut_bytes max_bytes s

-- An error by its text, or the error of a command that was seen before.
pub data CommandError : Type 0 where
  other_error : String → CommandError
  replay_error : String → String → CommandError

unfoldable pub error_message : CommandError → String
error_message (other_error text) = text
error_message (replay_error key message) =
    if message == ""
    then "mink: command already processed with key " ++ key
    else "mink: command already processed with key " ++ key ++ ": " ++ message

abbrev pub no_error : Option CommandError → Bool
no_error none = true
no_error (some e) = false

abbrev pub message_of : Option CommandError → String
message_of none = ""
message_of (some e) = error_message e

-- A command's result; `D` is the type of the data it can carry.
pub record CommandResult (D : Type 0) : Type 0 where
  pub success : Bool
  pub aggregate_id : String
  pub version : ℤ
  pub body : Option D
  pub error : Option CommandError

module _ {D : Type 0} where
  abbrev pub new_success_result : String → ℤ → CommandResult D
  new_success_result aggregate_id version = record {
    success = true;
    aggregate_id = aggregate_id;
    version = version;
    body = none;
    error = none;
  }

  abbrev pub new_error_result : CommandError → CommandResult D
  new_error_result e = record {
    success = false;
    aggregate_id = "";
    version = pos 0;
    body = none;
    error = some e;
  }

  unfoldable pub is_success : CommandResult D → Bool
  is_success r = r.success && no_error r.error

  unfoldable pub new_idempotency_record :
      Time → String → String → CommandResult D → Duration → IdempotencyRecord
  new_idempotency_record now key command_type result ttl = record {
    key = key;
    command_type = truncate_utf8_bytes command_type 255;
    aggregate_id = truncate_utf8_bytes result.aggregate_id 255;
    version = result.version;
    response = none;
    error = message_of result.error;
    success = is_success result;
    processed_at = now;
    expires_at = now +ℤ ttl;
  }

  unfoldable pub record_to_result : IdempotencyRecord → CommandResult D
  record_to_result r =
      if r.success
      then new_success_result r.aggregate_id r.version
      else if not (r.error == "")
      then new_error_result (replay_error r.key r.error)
      else new_error_result (replay_error r.key "unknown error")

abbrev pub processing_marker : String
processing_marker = "mink:processing"

unfoldable pub new_processing_record : Time → String → String → Duration → IdempotencyRecord
new_processing_record now key command_type ttl = record {
  key = key;
  command_type = truncate_utf8_bytes command_type 255;
  aggregate_id = "";
  version = pos 0;
  response = none;
  error = processing_marker;
  success = false;
  processed_at = now;
  expires_at = now +ℤ ttl;
}

unfoldable pub is_processing_record : IdempotencyRecord → Bool
is_processing_record r = not r.success && r.error == processing_marker

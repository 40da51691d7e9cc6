-- ===== src/Common/Errors.antt =====
-- Errors as values and the results of fallible calls.
use mathlib.Core.Bool.{Bool, true, false}
use broadcast.Common.Text.{Bytes}

pub data Error : Type 0 where
  eof unexpected_eof buffer_full : Error
  line_format read_request bad_bulk_format request_format : Error
  cmd_not_found quit key_not_found : Error
  malformed_byte malformed_error json_syntax float_syntax write_failed dial_failed : Error
  -- strconv's errors name the text that was parsed
  int_syntax int_range : Bytes → Error

-- A Go call returns a value, returns an error, or panics.
pub data Result {ℓ} (A : Type ℓ) : Type ℓ where
  ok : A → Result A
  err : Error → Result A
  panic : Result A

-- An early return when a test of the code does not hold.
abbrev pub guard : Bool → Error → Result (Unit {0})
guard false failure = err failure
guard true failure = ok tt

infixl 5 ◌>>=◌ ◌>>◌
abbrev pub ◌>>=◌ {ℓ κ} : {A : Type ℓ} {B : Type κ} → Result A → (A → Result B) → Result B
panic >>= next = panic
err failure >>= next = err failure
ok value >>= next = next value

abbrev pub ◌>>◌ {ℓ} : {B : Type ℓ} → Result (Unit {0}) → Result B → Result B
done >> then' = done >>= λ _. then'

-- ===== src/Tests/Wire.antt =====
-- The wire protocol at concrete inputs.
use broadcast.Common.{
  ℕ, ◌-◌, ◌≡◌, refl, true, false, some, List, [], ◌∷◌, ◌++◌, arith, codes, read_request,
  buffer_full, ok, err, panic, map, leb, replicate, if◌then◌else◌,
}
use broadcast.Common.Int.{negsuc}
use broadcast.Decimal.{parse_int, format_int}
use broadcast.Wire.{Value, Platform, null, str, bytes, int, arr, items, nil, cons, delims}
use broadcast.Wire.Write.{Writer, put, write_interface, write_array, write_bulk, write_command}
use broadcast.Wire.Read.{
  read_slice, at_end, read_line, read_line_invariant, read_full, make_slice, parse_byte,
  parse_string, parse_int64, parse_float64, parse_bool, parse_error, read_sized, read_body,
  read_header, read_payload, read_payloads, read_bulk_payload, read_many, decode_json, read_bulk,
  read_array, read_structure, dispatch, read_interface_within, read_interface,
}
use broadcast.Wire.Frame
use broadcast.Wire.Frame.{sent, frame, array_frame, bulk_frame, bytes_frame}
use broadcast.Wire.RoundTrip
use broadcast.Wire.RoundTrip.{reply}

-- Opens the reader for a run.
reader : Unit {0}
unfolding read_slice at_end read_line read_line_invariant read_full make_slice parse_byte
    parse_string parse_int64 parse_float64 parse_bool parse_error read_sized read_body read_header
    read_payload read_payloads read_bulk_payload read_many decode_json read_bulk read_array
    read_structure dispatch read_interface_within read_interface parse_int
reader = tt

writer : Unit {0}
unfolding put write_interface write_array write_bulk write_command format_int
writer = tt

abbrev upper_byte : ℕ → ℕ
upper_byte c = if leb b'a' c then (if leb c b'z' then c - 32 else c) else c

-- A platform of one float64 and the JSON text `{}`.
abbrev pub platform : Platform
platform = record {
  format_float = λ x. codes "1.5";
  parse_float = λ b. some 4609434218613702656;
  is_json_map = λ b. true;
  print = λ v. codes "?";
  upper = map upper_byte;
}

abbrev fresh : Writer
fresh = record { out = []; budget = 1000; failed = false }

abbrev short : Writer
short = record { out = []; budget = 6; failed = false }

command_on_the_wire :
    (write_command platform (codes "set") (bytes (codes "a") ∷ int (negsuc 4) ∷ []) fresh).0.out
    ≡ codes "*3"
      ++ (delims
          ++ (codes "$3"
              ++ (delims
                  ++ (codes "SET"
                      ++ (delims
                          ++ (codes "$1"
                              ++ (delims
                                  ++ (codes "a" ++ (delims ++ (codes ":-5" ++ delims))))))))))
unfolding writer
command_on_the_wire = refl

array_read :
    read_interface platform (
      codes "*2" ++ (delims ++ (codes "+ok" ++ (delims ++ (codes "$-1" ++ (delims ++ codes "x"))))))
    ≡ ok (arr (cons (str (codes "ok")) (cons null nil)), codes "x")
unfolding reader
array_read = refl

-- An empty string is sent, and not read.
empty_string_unread : read_interface platform (frame platform (str [])) ≡ err read_request
unfolding reader
empty_string_unread = refl

negative_length_panics : read_payload (codes "$-2" ++ delims) ≡ panic
unfolding reader
negative_length_panics = refl

long_line : read_line (replicate 128 b'a' ++ delims) ≡ err buffer_full
unfolding reader
long_line = refl

bulk_read :
    read_bulk_payload (bulk_frame (codes "GET" ∷ codes "a" ∷ []))
    ≡ ok (codes "GET" ∷ codes "a" ∷ [], [])
unfolding reader format_int
bulk_read = refl

trailing_space : read_line_invariant (codes "PING" ++ 32 ∷ 10 ∷ []) ≡ ok (codes "PING", [])
unfolding reader
trailing_space = refl

abbrev two_values : List Value
two_values = bytes (10 ∷ 13 ∷ []) ∷ int (negsuc 0) ∷ []

read_interface-array_frame_example :
    read_interface platform (array_frame platform two_values ++ codes "+")
    ≡ ok (arr (items (map (reply platform) two_values)), codes "+")
read_interface-array_frame_example =
    RoundTrip.read_interface-array_frame platform two_values (codes "+") (omega arith) (omega arith)

write_array-frame_example :
    write_array platform two_values short ≡ sent (array_frame platform two_values) short
write_array-frame_example = Frame.write_array-frame platform two_values short

-- ===== src/Wire/Read.antt =====
-- server/client.go: the methods of BufferClient that read and parse. The input is all the bytes
-- that the peer sends before it closes. After an error the callers read no more, so an error
-- comes without a rest.
use broadcast.Common.{
  ℕ, zero, suc, ◌+◌, ◌-◌, ◌*◌, ◌^◌, Bool, false, ◌||◌, Option, none, some, List, [], ◌∷◌, Bytes,
  codes, eof, unexpected_eof, buffer_full, line_format, read_request, bad_bulk_format,
  malformed_byte, malformed_error, json_syntax, float_syntax, Result, ok, err, panic, ◌>>=◌, ◌>>◌,
  guard, length, take, drop, get_elem?, ltb, leb, ◌==◌, same, if◌then◌else◌,
}
use broadcast.Common.Int.{ℤ, pos, negsuc}
use broadcast.Decimal.{parse_int}
use broadcast.Wire.{
  Value, Items, Platform, null, str, bytes, error, json, int, float, byte, bool, arr, nil, cons,
}

abbrev pub Read : Type 0 → Type 0
Read A = Bytes → Result (A × Bytes)

-- The size of the buffers that NewNetworkClient and the protocols ask for.
abbrev pub buffer_size : ℕ
buffer_size = 128

-- client.Reader.ReadSlice('\n') for a buffer with so much room: the line ends in the delimiter.
unfoldable pub read_slice : ℕ → Read Bytes
read_slice zero s = err buffer_full
read_slice (suc room) [] = err eof
read_slice (suc room) (c ∷ s) =
    let more = (do (line, rest) ← read_slice room s; ok (c ∷ line, rest)) in
    if c == 10 then ok (c ∷ [], s) else more

-- packet[:i] where packet[i] passes the test, else `other`
unfoldable pub at_end : Bytes → (ℕ → Bool) → Result Bytes → Result Bytes
at_end packet test other =
    let i = length packet - 2 in
    if ltb (length packet) 2 then err line_format else elim (get_elem? packet i) [
      | none ↦ panic
      | some c ↦ if test c then ok (take i packet) else other
    ]

unfoldable pub read_line : Read Bytes
read_line s = do
  (packet, rest) ← read_slice buffer_size s
  line ← at_end packet (λ c. c == 13) (err line_format)
  ok (line, rest)

unfoldable pub read_line_invariant : Read Bytes
read_line_invariant s = do
  (packet, rest) ← read_slice buffer_size s
  line ← at_end packet (λ c. c == 13 || c == b' ') (ok (take (length packet - 1) packet))
  ok (line, rest)

-- io.ReadFull(client.Reader, make([]byte, n))
unfoldable pub read_full : ℕ → Read Bytes
read_full n s =
    if leb n (length s)
    then ok (take n s, drop n s)
    else elim s [ [] ↦ err eof | _ ∷ _ ↦ err unexpected_eof ]

-- The largest allocation of the runtime on 64 bits, in bytes.
abbrev pub max_alloc : ℕ
max_alloc = 2 ^ 48

-- make([]T, n) panics on a negative or too large length; a T has `size` bytes.
unfoldable pub make_slice : ℕ → ℤ → Result ℕ
make_slice size (pos n) = if leb (n * size) max_alloc then ok n else panic
make_slice size (negsuc n) = panic

unfoldable pub parse_byte : Bytes → Result ℕ
parse_byte [] = err malformed_byte
parse_byte (c ∷ b) = ok c

unfoldable pub parse_string : Bytes → Result Bytes
parse_string b = ok b

unfoldable pub parse_int64 : Bytes → Result ℤ
parse_int64 [] = ok (pos 0)
parse_int64 (c ∷ b) = parse_int (c ∷ b)

-- The float64 zero has the bits 0.
unfoldable pub parse_float64 : Platform → Bytes → Result ℕ
parse_float64 p [] = ok 0
parse_float64 p (c ∷ b) = elim (p.parse_float (c ∷ b)) [ none ↦ err float_syntax | some x ↦ ok x ]

unfoldable pub parse_bool : Bytes → Result Bool
parse_bool [] = ok false
parse_bool (c ∷ b) = ok (c == b'1')

unfoldable pub parse_error : Bytes → Result Bytes
parse_error [] = err malformed_error
parse_error (c ∷ b) = ok (c ∷ b)

-- buffer := make([]byte, n), the bytes that fill it, and an empty line.
unfoldable pub read_sized : ℕ → Read (Option Bytes)
read_sized size s = do
  (buffer, rest) ← read_full size s
  (line, rest') ← read_line rest
  guard (length line == 0) bad_bulk_format
  ok (some buffer, rest')

-- The body behind `$n`: n bytes and an empty line, or nil for -1.
unfoldable pub read_body : ℤ → Read (Option Bytes)
read_body (negsuc zero) s = ok (none, s)
read_body n s = do size ← make_slice 1 n; read_sized size s

-- The first byte of a line of two bytes or more, and what is behind it.
unfoldable pub read_header : Read (ℕ × Bytes)
read_header s = do
  (line, rest) ← read_line s
  guard (leb 2 (length line)) read_request
  elim line [ [] ↦ panic | c ∷ b ↦ ok ((c, b), rest) ]

unfoldable pub read_payload : Read (Option Bytes)
read_payload s = do
  ((c, b), rest) ← read_header s
  guard (c == b'$') read_request
  n ← parse_int64 b
  read_body n rest

-- A nil slice serves as an empty one.
abbrev pub or_empty : Option Bytes → Bytes
or_empty none = []
or_empty (some b) = b

-- for i := range r { r[i], err = client.ReadPayload() … }
unfoldable pub read_payloads : ℕ → Read (List Bytes)
read_payloads zero s = ok ([], s)
read_payloads (suc n) s = do
  (b, rest) ← read_payload s
  (bs, rest') ← read_payloads n rest
  ok (or_empty b ∷ bs, rest')

-- A []byte takes 24 bytes.
unfoldable pub read_bulk_payload : Read (List Bytes)
read_bulk_payload s = do
  ((c, b), rest) ← read_header s
  guard (c == b'*') read_request
  n ← parse_int64 b
  size ← make_slice 24 n
  read_payloads size rest

-- for i := range r { r[i], err = client.ReadInterface() … }
unfoldable pub read_many : Read Value → ℕ → Read Items
read_many read zero s = ok (nil, s)
read_many read (suc n) s = do
  (v, rest) ← read s
  (vs, rest') ← read_many read n rest
  ok (cons v vs, rest')

-- r.([]byte) of a value that is no []byte panics; a nil interface is none either.
unfoldable pub decode_json : Platform → Value → Result Value
decode_json p (bytes b) = if p.is_json_map b then ok (json b) else err json_syntax
decode_json p _ = panic

abbrev or_null : Option Bytes → Value
or_null none = null
or_null (some b) = bytes b

-- case '$'
unfoldable pub read_bulk : Bytes → Read Value
read_bulk b s = do n ← parse_int64 b; (body, rest) ← read_body n s; ok (or_null body, rest)

-- case '*', where `read` is the recursive call; an interface{} takes 16 bytes.
unfoldable pub read_array : Read Value → Bytes → Read Value
read_array read b s = do
  n ← parse_int64 b
  size ← make_slice 16 n
  (vs, rest) ← read_many read size s
  ok (arr vs, rest)

-- case '~'
unfoldable pub read_structure : Platform → Read Value → Bytes → Read Value
read_structure p read b s = do
  structure ← parse_string b
  (r, rest) ← read s
  guard (same structure (codes "json")) read_request
  v ← decode_json p r
  ok (v, rest)

-- The switch of ReadInterface on the first byte of the line.
unfoldable pub dispatch : Platform → Read Value → ℕ → Bytes → Read Value
dispatch p read c b s =
    if c == b'$'
    then read_bulk b s
    else if c == b'*'
    then read_array read b s
    else if c == b'&'
    then (do x ← parse_byte b; ok (byte x, s))
    else if c == b'+'
    then (do x ← parse_string b; ok (str x, s))
    else if c == b':'
    then (do x ← parse_int64 b; ok (int x, s))
    else if c == b'.'
    then (do x ← parse_float64 p b; ok (float x, s))
    else if c == b'?'
    then (do x ← parse_bool b; ok (bool x, s))
    else if c == b'-'
    then (do x ← parse_error b; ok (error x, s))
    else if c == b'~'
    then read_structure p read b s
    else err read_request

-- The fuel bounds the depth of the nesting; it is never used up when it is above the length of
-- the input.
unfoldable pub read_interface_within : Platform → ℕ → Read Value
read_interface_within p zero s = err eof
read_interface_within p (suc fuel) s = do
  ((c, b), rest) ← read_header s
  dispatch p (read_interface_within p fuel) c b rest

unfoldable pub read_interface : Platform → Read Value
read_interface p s = read_interface_within p (length s + 1) s

-- ===== src/Wire/Write.antt =====
-- server/client.go: the methods of BufferClient that write. A bufio.Writer keeps its first error:
-- it then takes no more bytes and every later call returns that error. The budget is the number
-- of bytes that the connection takes before it fails.
use broadcast.Common.{
  ℕ, ◌-◌, Bool, true, Option, none, some, List, [], ◌∷◌, ◌++◌, Bytes, codes, Error, write_failed,
  length, take, leb, if◌then◌else◌,
}
use broadcast.Common.Int.{ℤ, pos}
use broadcast.Decimal.{format_int}
use broadcast.Wire.{
  Value, Platform, null, str, bytes, error, json, int, float, byte, other, bool, arr, delims,
  null_bulk,
}

pub record Writer : Type 0 where
  pub out : Bytes
  pub budget : ℕ
  pub failed : Bool

-- client.Writer.Write, WriteByte and WriteString
unfoldable pub put : Bytes → Writer → Writer
put b w =
    if w.failed
    then w
    else if leb (length b) w.budget
    then record w { out = w.out ++ b; budget = w.budget - length b }
    else record { out = w.out ++ take w.budget b; budget = 0; failed = true }

-- The error that the last call on the writer returned.
abbrev pub status : Writer → Option Error
status w = if w.failed then some write_failed else none

abbrev pub Write : Type 0
Write = Writer → Writer × Option Error

-- _, err := client.Writer.Write(Delims); return err
unfoldable pub finish : Write
finish w = let w' = put delims w in (w', status w')

unfoldable pub write_len : ℕ → ℕ → Write
unfolding finish
write_len prefix n w = finish (put (format_int (pos n)) (put (prefix ∷ []) w))

unfoldable pub write_string : Bytes → Write
unfolding finish
write_string s w = finish (put s (put (b'+' ∷ []) w))

unfoldable pub write_byte : ℕ → Write
unfolding finish
write_byte b w = finish (put (b ∷ []) (put (b'&' ∷ []) w))

unfoldable pub write_bytes : Bytes → Write
unfolding finish write_len
write_bytes b w = finish (put b (write_len b'$' (length b) w).0)

unfoldable pub write_int64 : ℤ → Write
unfolding finish
write_int64 n w = finish (put (format_int n) (put (b':' ∷ []) w))

unfoldable pub write_float64 : Platform → ℕ → Write
unfolding finish
write_float64 p x w = finish (put (p.format_float x) (put (b'.' ∷ []) w))

unfoldable pub write_bool : Bool → Write
unfolding finish
write_bool b w = finish (put ((if b then b'1' else b'0') ∷ []) (put (b'?' ∷ []) w))

-- A nil error is `none`, and any other is its message.
unfoldable pub write_error : Option Bytes → Write
unfolding finish
write_error e w =
    let text : Bytes = elim e [ none ↦ codes "ERR " | some m ↦ codes "ERR " ++ m ] in
    finish (put text (put (b'-' ∷ []) w))

unfoldable pub write_null : Write
unfolding finish
write_null w = finish (put null_bulk (put (b'$' ∷ []) w))

-- The loop of WriteBulk, which drops the errors.
unfoldable pub write_all : List Bytes → Writer → Writer
unfolding write_bytes
write_all [] w = w
write_all (v ∷ data') w = write_all data' (write_bytes v w).0

unfoldable pub write_bulk : List Bytes → Write
unfolding write_len write_all
write_bulk data' w = (write_all data' (write_len b'*' (length data') w).0, none)

unfoldable pub write_interface : Platform → Value → Write
unfolding write_string write_int64 write_float64 write_bool write_byte write_bytes write_null
write_interface p (str s) = write_string s
write_interface p (int n) = write_int64 n
write_interface p (float x) = write_float64 p x
write_interface p (bool b) = write_bool b
write_interface p (byte b) = write_byte b
write_interface p (bytes b) = write_bytes b
write_interface p null = write_null
write_interface p (error m) = write_bytes (p.print (error m))
write_interface p (json m) = write_bytes (p.print (json m))
write_interface p (other x) = write_bytes (p.print (other x))
write_interface p (arr vs) = write_bytes (p.print (arr vs))

-- The loop of WriteArray, from the error so far.
unfoldable pub write_items : Platform → List Value → Writer × Option Error → Writer × Option Error
unfolding write_interface
write_items p [] r = r
write_items p (v ∷ args) (w, some e) = (w, some e)
write_items p (v ∷ args) (w, none) = write_items p args (write_interface p v w)

unfoldable pub write_array : Platform → List Value → Write
unfolding write_len write_items
write_array p args w = write_items p args (write_len b'*' (length args) w)

-- The arguments are the two results of json.Marshal.
unfoldable pub write_json : Bytes → Option Error → Write
unfolding write_bytes
write_json b (some e) w = (w, some e)
write_json b none w = write_bytes b (put delims (put (codes "json") (put (b'~' ∷ []) w)))

unfoldable pub write_command : Platform → Bytes → List Value → Write
unfolding write_array
write_command p cmd args = write_array p (bytes (p.upper cmd) ∷ args)

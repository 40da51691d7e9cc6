-- ===== src/Wire/RoundTrip.antt =====
-- What WriteInterface and WriteArray send, ReadInterface reads back.
use mathlib.Core.List.{tail}
use native.Mathlib.Numerals.{add-one}
use broadcast.Common.{
  ℕ, suc, ◌*◌, ◌≤◌, ◌≡◌, ◌≢◌, refl, ◌∙◌, ap, true, false, some, List, [], ◌∷◌, ◌++◌, arith,
  append_assoc, Bytes, codes, All, ok, length, le→leb, map,
}
use broadcast.Common.Int.{ℤ, pos, IsInt64}
use broadcast.Decimal
use broadcast.Decimal.{format_int}
use broadcast.Decimal.RoundTrip.{OneLine, format_int-OneLine, format_int-ne-nil, length-format_int}
use broadcast.Wire.{
  Value, Platform, null, str, bytes, error, json, int, float, byte, other, bool, arr, items, delims,
}
use broadcast.Wire.Frame.{line, len_frame, bytes_frame, frame, frames, array_frame}
use broadcast.Wire.Read.{
  read_body, parse_int64, parse_float64, parse_bool, parse_byte, parse_string, dispatch, read_bulk,
  read_array, read_many, make_slice, max_alloc, read_interface_within, read_interface,
}
use broadcast.Wire.Line.{read_header-line, read_body-append, parse_int64-format}

-- A text that fits on a line of the protocol: ReadLine's buffer holds 128 bytes.
abbrev pub FitsLine : Bytes → Type 0
FitsLine b = OneLine b × (b ≢ []) × (length b ≤ 125)

-- What can be read back: short lines of text, any bytes that can be allocated, int64s, and float64s
-- that strconv prints on a line and reads back.
abbrev pub IsReadable : Platform → Value → Type 0
IsReadable p (str s) = FitsLine s
IsReadable p (int n) = IsInt64 n
IsReadable p (float x) = FitsLine (p.format_float x) × (p.parse_float (p.format_float x) ≡ some x)
IsReadable p (bool b) = Unit
IsReadable p (byte b) = b ≢ 10
IsReadable p (bytes b) = length b ≤ max_alloc
IsReadable p null = Unit
IsReadable p v = length (p.print v) ≤ max_alloc

-- The value that is read: of the kinds that WriteInterface does not know, the print as bytes.
abbrev pub reply : Platform → Value → Value
reply p (str s) = str s
reply p (int n) = int n
reply p (float x) = float x
reply p (bool b) = bool b
reply p (byte b) = byte b
reply p (bytes b) = bytes b
reply p null = null
reply p (error m) = bytes (p.print (error m))
reply p (json m) = bytes (p.print (json m))
reply p (other x) = bytes (p.print (other x))
reply p (arr vs) = bytes (p.print (arr vs))

pub within-line :
    (p : Platform) (f c : ℕ) (b rest : Bytes)
    → c ≢ 10
    → FitsLine b
    → read_interface_within p (suc f) (line c b ++ rest)
      ≡ dispatch p (read_interface_within p f) c b rest
unfolding read_interface_within
within-line p f c b rest n (one, some', short) =
    rw (read_header-line c b rest n one some' short) refl

FitsLine-format_int : (z : ℤ) → FitsLine (format_int z)
FitsLine-format_int z =
    (format_int-OneLine z, format_int-ne-nil z, omega (arith, length-format_int z))

within-bytes :
    (p : Platform) (f : ℕ) (b rest : Bytes)
    → length b ≤ max_alloc
    → read_interface_within p (suc f) (bytes_frame b ++ rest) ≡ ok (bytes b, rest)
unfolding dispatch read_bulk
within-bytes p f b rest h =
    let whole : bytes_frame b ++ rest ≡ len_frame b'$' (length b) ++ (b ++ (delims ++ rest)) =
      append_assoc (len_frame b'$' (length b)) (b ++ delims) rest
      ∙ ap (λ (t : Bytes). len_frame b'$' (length b) ++ t) (append_assoc b delims rest) in
    let header =
      within-line p f b'$' (format_int (pos (length b))) (b ++ (delims ++ rest)) (λ e. omega arith)
        (FitsLine-format_int (pos (length b))) in
    let number = parse_int64-format (pos (length b)) (omega arith, omega arith) in
    let body = read_body-append b rest h in rw (whole, header, number, body) refl

parse_float64-some :
    (p : Platform) (b : Bytes) (x : ℕ)
    → b ≢ []
    → p.parse_float b ≡ some x
    → parse_float64 p b ≡ ok x
unfolding parse_float64
parse_float64-some p [] x h e = absurd (h refl)
parse_float64-some p (c ∷ b) x h e = ground arith

-- One frame, with fuel for at least one call.
within-frame :
    (p : Platform) (f : ℕ) (v : Value) (rest : Bytes)
    → IsReadable p v
    → read_interface_within p (suc f) (frame p v ++ rest) ≡ ok (reply p v, rest)
unfolding dispatch read_bulk
within-frame p f (str s) rest h =
    within-line p f b'+' s rest (λ e. omega arith) h ∙ unfold parse_string in refl
within-frame p f (int n) rest h =
    within-line p f b':' (format_int n) rest (λ e. omega arith) (FitsLine-format_int n)
    ∙ rw (parse_int64-format n h) refl
within-frame p f (float x) rest (h, e) =
    within-line p f b'.' (p.format_float x) rest (λ e. omega arith) h
    ∙ rw (parse_float64-some p (p.format_float x) x h.1 e) refl
within-frame p f (bool true) rest h =
    within-line p f b'?' (b'1' ∷ []) rest (λ e. omega arith)
      (((λ e. omega arith), tt), (cc), omega arith)
    ∙ unfold parse_bool in refl
within-frame p f (bool false) rest h =
    within-line p f b'?' (b'0' ∷ []) rest (λ e. omega arith)
      (((λ e. omega arith), tt), (cc), omega arith)
    ∙ unfold parse_bool in refl
within-frame p f (byte b) rest h =
    within-line p f b'&' (b ∷ []) rest (λ e. omega arith) ((h, tt), (cc), omega arith)
    ∙ unfold parse_byte in refl
within-frame p f (bytes b) rest h = within-bytes p f b rest h
within-frame p f null rest h =
    within-line p f b'$' (codes "-1") rest (λ e. omega arith)
      (((λ e. omega arith), ((λ e. omega arith), tt)), (cc), omega arith)
    ∙ unfold parse_int64 Decimal.parse_int read_body in refl
within-frame p f (error m) rest h = within-bytes p f (p.print (error m)) rest h
within-frame p f (json m) rest h = within-bytes p f (p.print (json m)) rest h
within-frame p f (other x) rest h = within-bytes p f (p.print (other x)) rest h
within-frame p f (arr vs) rest h = within-bytes p f (p.print (arr vs)) rest h

-- A readable value that WriteInterface sent is read back by ReadInterface, which leaves the
-- input behind it.
pub read_interface-frame :
    (p : Platform) (v : Value) (rest : Bytes)
    → IsReadable p v
    → read_interface p (frame p v ++ rest) ≡ ok (reply p v, rest)
unfolding read_interface
read_interface-frame p v rest h =
    rw (add-one (length (frame p v ++ rest))) (within-frame p (length (frame p v ++ rest)) v rest h)

many-frames :
    (p : Platform) (f : ℕ) (vs : List Value) (rest : Bytes)
    → All (IsReadable p) vs
    → read_many (read_interface_within p (suc f)) (length vs) (frames p vs ++ rest)
      ≡ ok (items (map (reply p) vs), rest)
unfolding read_many
many-frames p f [] rest h = refl
many-frames p f (v ∷ vs) rest (h, hs) =
    let one = append_assoc (frame p v) (frames p vs) rest in
    let first = within-frame p f v (frames p vs ++ rest) h in
    let others = many-frames p f vs rest hs in rw (one, first, others) refl

-- An array of readable values that WriteArray sent (lines of text of at most 125 bytes, int64s, floats
-- that strconv reads back, bytes that can be allocated) is read back by ReadInterface, element by
-- element, if an array of that length can be allocated, and the input behind it is left.
pub read_interface-array_frame :
    (p : Platform) (vs : List Value) (rest : Bytes)
    → All (IsReadable p) vs
    → length vs * 16 ≤ max_alloc
    → read_interface p (array_frame p vs ++ rest) ≡ ok (arr (items (map (reply p) vs)), rest)
unfolding read_interface dispatch read_array make_slice
read_interface-array_frame p vs rest h fits =
    let whole = append_assoc (len_frame b'*' (length vs)) (frames p vs) rest in
    let n = length (tail (array_frame p vs ++ rest)) in
    let header =
      within-line p (suc n) b'*' (format_int (pos (length vs))) (frames p vs ++ rest)
        (λ e. omega arith) (FitsLine-format_int (pos (length vs))) in
    let number = parse_int64-format (pos (length vs)) (omega arith, omega arith) in
    rw
      (
        add-one,
        whole,
        header,
        number,
        le→leb (length vs * 16) max_alloc fits,
        many-frames p n vs rest h,
      )
      refl

-- ===== src/Wire/Line.antt =====
-- What ReadLine, ReadPayload and the headers make of a frame.
use broadcast.Common.{
  ℕ, zero, suc, ◌-◌, ◌*◌, ◌≤◌, ◌<◌, ◌≡◌, ◌≢◌, refl, ◌∙◌, ap, Bool, true, some, [], ◌∷◌, ◌++◌, arith,
  append_assoc, Bytes, Result, ok, err, line_format, All-append, length, length-append, take, drop,
  get_elem?, le→leb, ◌==◌, ◌||◌,
}
use broadcast.Common.Int.{ℤ, pos, IsInt64}
use broadcast.Decimal.{format_int, parse_int}
use broadcast.Decimal.RoundTrip.{
  length-format_int, format_int-OneLine, format_int-ne-nil, parse_int-format_int, OneLine,
}
use broadcast.Wire.{delims}
use broadcast.Wire.Frame.{line, len_frame, bytes_frame}
use broadcast.Wire.Read.{
  read_slice, at_end, read_line, read_line_invariant, read_full, read_header, read_body, read_sized,
  read_payload, make_slice, parse_int64, max_alloc, buffer_size,
}

read_slice-line :
    (room : ℕ) (b rest : Bytes)
    → OneLine b
    → length b < room
    → read_slice room (b ++ 10 ∷ rest) ≡ ok (b ++ 10 ∷ [], rest)
unfolding read_slice
read_slice-line zero b rest h k = absurd (omega arith)
read_slice-line (suc room) [] rest h k = refl
read_slice-line (suc room) (c ∷ b) rest (n, h) k = ground (arith, n, read_slice-line room b rest h)

get_elem?-length : (b : Bytes) (c : ℕ) (s : Bytes) → get_elem? (b ++ c ∷ s) (length b) ≡ some c
get_elem?-length [] c s = refl
get_elem?-length (d ∷ b) c s = get_elem?-length b c s

take-length : (b s : Bytes) → take (length b) (b ++ s) ≡ b
take-length [] s = refl
take-length (d ∷ b) s = ap (◌∷◌ d) (take-length b s)

drop-length : (b s : Bytes) → drop (length b) (b ++ s) ≡ s
drop-length [] s = refl
drop-length (d ∷ b) s = drop-length b s

positive-length : (b : Bytes) → b ≢ [] → 0 < length b
positive-length [] h = absurd (h refl)
positive-length (c ∷ b) h = omega arith

at_end-delims :
    (b : Bytes) (test : ℕ → Bool) (other : Result Bytes)
    → test 13 ≡ true
    → at_end (b ++ delims) test other ≡ ok b
unfolding at_end
at_end-delims b test other h =
    let i : length (b ++ delims) - 2 ≡ length b = omega (arith, length-append b delims) in
    let there : get_elem? (b ++ delims) (length (b ++ delims) - 2) ≡ some 13 =
      rw i (get_elem?-length b 13 (10 ∷ [])) in
    let kept : take (length (b ++ delims) - 2) (b ++ delims) ≡ b = rw i (take-length b delims) in
    ground (arith, length-append b delims)

read_slice-delims :
    (b rest : Bytes)
    → OneLine b
    → length b ≤ 126
    → read_slice buffer_size (b ++ (delims ++ rest)) ≡ ok (b ++ delims, rest)
read_slice-delims b rest h k =
    let cr : OneLine (b ++ 13 ∷ []) = All-append _ b (13 ∷ []) h ((λ e. omega arith), tt) in
    let slice =
      read_slice-line buffer_size (b ++ 13 ∷ []) rest cr
        (omega (arith, length-append b (13 ∷ []))) in
    let one : (b ++ 13 ∷ []) ++ 10 ∷ rest ≡ b ++ (delims ++ rest) =
      append_assoc b (13 ∷ []) (10 ∷ rest) in
    let two : (b ++ 13 ∷ []) ++ 10 ∷ [] ≡ b ++ delims = append_assoc b (13 ∷ []) (10 ∷ []) in
    rw (← one, ← two) slice

-- A line of up to 126 bytes without a newline is read back, and the rest is left.
read_line-line :
    (b rest : Bytes) → OneLine b → length b ≤ 126 → read_line (b ++ (delims ++ rest)) ≡ ok (b, rest)
unfolding read_line
read_line-line b rest h k =
    rw (read_slice-delims b rest h k, at_end-delims b (λ c. c == 13) (err line_format) refl) refl

-- ReadLineInvariant reads such a line in the same way.
pub read_line_invariant-line :
    (b rest : Bytes)
    → OneLine b
    → length b ≤ 126
    → read_line_invariant (b ++ (delims ++ rest)) ≡ ok (b, rest)
unfolding read_line_invariant
read_line_invariant-line b rest h k =
    rw
      (
        read_slice-delims b rest h k,
        at_end-delims b (λ c. c == 13 || c == b' ')
            (ok (take (length (b ++ delims) - 1) (b ++ delims))) refl,
      )
      refl

-- A header line is split into its first byte and the rest.
pub read_header-line :
    (c : ℕ) (b rest : Bytes)
    → c ≢ 10
    → OneLine b
    → b ≢ []
    → length b ≤ 125
    → read_header (line c b ++ rest) ≡ ok ((c, b), rest)
unfolding read_header
read_header-line c b rest n h e k =
    let l = read_line-line (c ∷ b) rest (n, h) (omega arith) in
    let one : line c b ++ rest ≡ (c ∷ b) ++ (delims ++ rest) = append_assoc (c ∷ b) delims rest in
    let same : read_line (line c b ++ rest) ≡ ok (c ∷ b, rest) = ap read_line one ∙ l in
    ground (arith, positive-length b e)

-- The header of a length is read back.
pub read_header-len :
    (c n : ℕ) (rest : Bytes)
    → c ≢ 10
    → read_header (len_frame c n ++ rest) ≡ ok ((c, format_int (pos n)), rest)
read_header-len c n rest h =
    read_header-line c (format_int (pos n)) rest h (format_int-OneLine (pos n))
      (format_int-ne-nil (pos n)) (omega (arith, length-format_int (pos n)))

parse_int64-cons : (b : Bytes) → b ≢ [] → parse_int64 b ≡ parse_int b
unfolding parse_int64
parse_int64-cons [] h = absurd (h refl)
parse_int64-cons (c ∷ b) h = refl

pub parse_int64-format : (z : ℤ) → IsInt64 z → parse_int64 (format_int z) ≡ ok z
parse_int64-format z h =
    parse_int64-cons (format_int z) (format_int-ne-nil z) ∙ parse_int-format_int z h

read_full-append : (b rest : Bytes) → read_full (length b) (b ++ rest) ≡ ok (b, rest)
unfolding read_full
read_full-append b rest =
    ground (arith, length-append b rest, take-length b rest, drop-length b rest)

read_line-delims : (rest : Bytes) → read_line (delims ++ rest) ≡ ok ([], rest)
read_line-delims rest = read_line-line [] rest tt (omega arith)

-- The body behind a length is read back, whatever bytes it holds.
pub read_body-append :
    (b rest : Bytes)
    → length b ≤ max_alloc
    → read_body (pos (length b)) (b ++ (delims ++ rest)) ≡ ok (some b, rest)
unfolding read_body read_sized make_slice
read_body-append b rest h =
    rw
      (
        le→leb (length b * 1) max_alloc (omega arith),
        read_full-append b (delims ++ rest),
        read_line-delims rest,
      )
      refl

-- ReadPayload reads back what WriteBytes sends, whatever bytes it holds.
pub read_payload-bytes_frame :
    (b rest : Bytes)
    → length b ≤ max_alloc
    → read_payload (bytes_frame b ++ rest) ≡ ok (some b, rest)
unfolding read_payload
read_payload-bytes_frame b rest h =
    let whole : bytes_frame b ++ rest ≡ len_frame b'$' (length b) ++ (b ++ (delims ++ rest)) =
      append_assoc (len_frame b'$' (length b)) (b ++ delims) rest
      ∙ ap (λ (t : Bytes). len_frame b'$' (length b) ++ t) (append_assoc b delims rest) in
    let header = read_header-len b'$' (length b) (b ++ (delims ++ rest)) (λ e. omega arith) in
    let number = parse_int64-format (pos (length b)) (omega arith, omega arith) in
    let body = read_body-append b rest h in rw whole (ground arith)

-- ===== src/Wire/Bulk.antt =====
-- ReadBulkPayload reads back what WriteBulk sends, and every read consumes a byte of its input.
use broadcast.Common.{
  ◌*◌, ◌≤◌, ◌≡◌, refl, List, [], ◌∷◌, ◌++◌, arith, append_assoc, Bytes, All, ok, length, le→leb,
}
use broadcast.Common.Int.{pos}
use broadcast.Wire.Frame.{len_frame, bytes_frame, all_bytes, bulk_frame}
use broadcast.Wire.Read.{read_payloads, read_bulk_payload, make_slice, max_alloc}
use broadcast.Wire.Line.{read_header-len, parse_int64-format, read_payload-bytes_frame}

-- Each argument can be allocated.
abbrev pub IsRequest : List Bytes → Type 0
IsRequest bs = All (λ (b : Bytes). length b ≤ max_alloc) bs × (length bs * 24 ≤ max_alloc)

read_payloads-all_bytes :
    (bs : List Bytes) (rest : Bytes)
    → All (λ (b : Bytes). length b ≤ max_alloc) bs
    → read_payloads (length bs) (all_bytes bs ++ rest) ≡ ok (bs, rest)
unfolding read_payloads
read_payloads-all_bytes [] rest h = refl
read_payloads-all_bytes (b ∷ bs) rest (h, hs) =
    let one = append_assoc (bytes_frame b) (all_bytes bs) rest in
    let first = read_payload-bytes_frame b (all_bytes bs ++ rest) h in
    rw (one, first, read_payloads-all_bytes bs rest hs) refl

-- ReadBulkPayload reads back the arguments that WriteBulk sends, whatever bytes they hold, up to the
-- largest allocation, and leaves the input behind them.
pub read_bulk_payload-bulk_frame :
    (bs : List Bytes) (rest : Bytes)
    → IsRequest bs
    → read_bulk_payload (bulk_frame bs ++ rest) ≡ ok (bs, rest)
unfolding read_bulk_payload make_slice
read_bulk_payload-bulk_frame bs rest (h, fits) =
    let whole = append_assoc (len_frame b'*' (length bs)) (all_bytes bs) rest in
    let header = read_header-len b'*' (length bs) (all_bytes bs ++ rest) (λ e. omega arith) in
    let number = parse_int64-format (pos (length bs)) (omega arith, omega arith) in
    let room = le→leb (length bs * 24) max_alloc fits in
    rw (whole, header, number, room, read_payloads-all_bytes bs rest h) refl

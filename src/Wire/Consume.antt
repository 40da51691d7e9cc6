-- ===== src/Wire/Consume.antt =====
-- Every read of a request consumes at least a byte of its input.
use broadcast.Common.{ℕ, zero, suc, ◌-◌, ◌≤◌, ◌≡◌, refl, [], arith, Bytes, err, eof, length}
use broadcast.Wire.Read.{
  Read, read_slice, read_line, read_header, read_payload, read_payloads, read_bulk_payload,
  make_slice, parse_int64,
}
use broadcast.Wire.Fuel.{left, left-read_header, left-read_body, left->>=, left-lift}

left-read_payload : (s : Bytes) → left (read_payload s) ≤ length s
unfolding read_payload
left-read_payload s =
    left->>= (read_header s) _ (length s) (omega (arith, left-read_header s)) λ (c, b) rest l.
      left-lift _ _ (length s)
        λ u. left-lift (parse_int64 b) _ (length s) λ n. omega (arith, left-read_body n rest)

left-read_payloads : (n : ℕ) (s : Bytes) → left (read_payloads n s) ≤ length s
unfolding read_payloads
left-read_payloads zero s = omega arith
left-read_payloads (suc n) s =
    left->>= (read_payload s) _ (length s) (left-read_payload s) λ b rest l.
      left->>= (read_payloads n rest) _ (length s) (omega (arith, left-read_payloads n rest))
        (λ bs rest' l'. l')

-- The read fails at the end of the input, and else consumes at least a byte.
pub record Consumes {A : Type 0} (read : Read A) : Type 0 where
  pub ends : read [] ≡ err eof
  pub shrinks : (s : Bytes) → left (read s) ≤ length s - 1

pub read_bulk_payload-Consumes : Consumes read_bulk_payload
unfolding read_bulk_payload read_header read_line read_slice
read_bulk_payload-Consumes = record {
  ends = refl;
  shrinks = λ s. left->>= (read_header s) _ (length s - 1) (left-read_header s) λ (c, b) rest l.
      left-lift _ _ (length s - 1) λ u. left-lift (parse_int64 b) _ (length s - 1) λ n.
        left-lift (make_slice 24 n) _ (length s - 1)
          λ size. omega (arith, left-read_payloads size rest);
}

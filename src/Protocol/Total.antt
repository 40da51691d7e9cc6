-- ===== src/Protocol/Total.antt =====
-- The three protocols consume their input, so RunClient ends.
use broadcast.Common.{
  take, ◌==◌, ◌||◌, guard, leb, request_format, ◌+◌, ◌-◌, ◌≤◌, ◌≢◌, refl, List, Bytes, ok, length,
}
use broadcast.Wire.{Platform}
use broadcast.Wire.Read.{
  at_end, read_slice, read_line, read_line_invariant, read_header, read_interface,
  read_interface_within, buffer_size,
}
use broadcast.Wire.Fuel.{left, left-read_slice, left->>=, left-lift, left-read_interface}
use broadcast.Wire.Consume.{Consumes, read_bulk_payload-Consumes}
use broadcast.Stats.Memory.Keys.{split}
use broadcast.Protocol.{Conn, serving, run_client}
use broadcast.Protocol.Request.{Commands, redis, line, default, read_bulk_line}
use broadcast.Protocol.Serve.{run_client-ends}

left-read_line_invariant : (s : Bytes) → left (read_line_invariant s) ≤ length s - 1
unfolding read_line_invariant
left-read_line_invariant s =
    left->>= (read_slice buffer_size s) _ (length s - 1) (left-read_slice buffer_size s)
      λ packet rest h.
        left-lift {A = Bytes} {B = Bytes}
          (at_end packet (λ c. c == 13 || c == b' ') (ok (take (length packet - 1) packet)))
          (λ l. ok (l, rest)) (length s - 1) (λ l. h)

pub read_bulk_line-Consumes : Consumes read_bulk_line
unfolding read_bulk_line read_line_invariant read_slice
read_bulk_line-Consumes = record {
  ends = refl;
  shrinks = λ s.
      left->>= (read_line_invariant s) _ (length s - 1) (left-read_line_invariant s) λ l rest h.
        left-lift {A = Unit} {B = List Bytes} (guard (leb 2 (length l)) request_format)
          (λ x. ok (split l b' ', rest)) (length s - 1) (λ u. h);
}

pub read_interface-Consumes : (p : Platform) → Consumes (read_interface p)
unfolding read_interface read_interface_within read_header read_line read_slice
read_interface-Consumes p = record {
  ends = refl;
  shrinks = λ s. left-read_interface p (length s + 1) s;
}

-- On every input of finitely many bytes RunClient of each of the three protocols ends: the connection
-- is closed, or the program crashes.
pub protocols_end :
    {S : Type 0} (p : Platform) (commands : Commands S) (input : Bytes) (c : Conn S)
    → ((run_client (redis p commands) input c).status ≢ serving)
      × ((run_client (line p commands) input c).status ≢ serving)
      × ((run_client (default p commands) input c).status ≢ serving)
protocols_end p commands input c = (
  run_client-ends (redis p commands) read_bulk_payload-Consumes input c,
  run_client-ends (line p commands) read_bulk_line-Consumes input c,
  run_client-ends (default p commands) (read_interface-Consumes p) input c,
)

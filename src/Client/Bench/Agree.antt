-- ===== src/Client/Bench/Agree.antt =====
-- Pipelined requests and requests one at a time have the same outcome.
use broadcast.Common.{
  ℕ, zero, suc, ◌≡◌, refl, ◌∙◌, ap, Bool-cases, inl, inr, true, false, List, [], ◌∷◌, ◌++◌,
  append_assoc, arith, All, Bytes, length, ok,
}
use broadcast.Wire.{Value, Platform}
use broadcast.Wire.Write.{Writer, put}
use broadcast.Wire.RoundTrip.{IsReadable}
use broadcast.Wire.Frame.{frame, frames, put-failed}
use broadcast.Client.{ProtocolClient, ClientConnection, Network, then_do}
use broadcast.Client.Sends.{command_frame, over, do_async-taken, read-frame, do'-frame}
use broadcast.Client.Bench.{ignoring, error_of, read_each, send_each, do_each, requests}

-- The writer behind so many times the bytes.
abbrev pub put_times : Bytes → ℕ → Writer → Writer
put_times b zero w = w
put_times b (suc n) w = put_times b n (put b w)

put_times-failed : (b : Bytes) (n : ℕ) (w : Writer) → w.failed ≡ true → put_times b n w ≡ w
put_times-failed b zero w h = refl
put_times-failed b (suc n) w h = rw (put-failed b w h) (put_times-failed b n w h)

-- When the writer takes them all, it takes the first.
first-taken :
    (b : Bytes) (n : ℕ) (w : Writer)
    → (put_times b (suc n) w).failed ≡ false
    → (put b w).failed ≡ false
first-taken b n w h = elim (Bool-cases (put b w).failed) [
  | inl f ↦ let e = ap (λ x. x.failed) (put_times-failed b n (put b w) f) in ground arith
  | inr f ↦ f
]

module _ (p : Platform) (net : Network) (cmd : Bytes) (args : List Value) where
  send_each-taken :
      (loop : ℕ) (c : ClientConnection) (n : ProtocolClient)
      → (put_times (command_frame p n.kind cmd args) loop n.writer).failed ≡ false
      → send_each p net cmd args loop (over c n) ≡ (
        ok tt,
        over c (record n { writer = put_times (command_frame p n.kind cmd args) loop n.writer }),
      )
  unfolding send_each then_do
  send_each-taken zero c n h = refl
  send_each-taken (suc loop) c n h =
      ap (λ x. then_do x (send_each p net cmd args loop))
        (do_async-taken p net cmd args c n (first-taken _ loop n.writer h))
      ∙ send_each-taken loop c
          (record n { writer = put (command_frame p n.kind cmd args) n.writer }) h

  read_each-frames :
      (c : ClientConnection) (n : ProtocolClient) (vs : List Value) (rest : Bytes)
      → All (IsReadable p) vs
      → n.input ≡ frames p vs ++ rest
      → read_each p (length vs) (over c n) ≡ (ok tt, over c (record n { input = rest }))
  unfolding read_each then_do
  read_each-frames c n [] rest r h = ap (λ i. (ok tt, over c (record n { input = i }))) h
  read_each-frames c n (v ∷ vs) rest (r, rs) h =
      ap (λ x. then_do (ignoring x) (read_each p (length vs)))
        (read-frame p net cmd args c n v (frames p vs ++ rest) r
          (h ∙ append_assoc (frame p v) (frames p vs) rest))
      ∙ read_each-frames c (record n { input = frames p vs ++ rest }) vs rest rs refl

  do_each-frames :
      (c : ClientConnection) (n : ProtocolClient) (vs : List Value) (rest : Bytes)
      → (put_times (command_frame p n.kind cmd args) (length vs) n.writer).failed ≡ false
      → All (IsReadable p) vs
      → n.input ≡ frames p vs ++ rest
      → do_each p net cmd args (length vs) (over c n) ≡ (
        ok tt,
        over c (record n {
          writer = put_times (command_frame p n.kind cmd args) (length vs) n.writer;
          input = rest;
        }),
      )
  unfolding do_each then_do
  do_each-frames c n [] rest f r h = ap (λ i. (ok tt, over c (record n { input = i }))) h
  do_each-frames c n (v ∷ vs) rest f (r, rs) h =
      ap (λ x. then_do (error_of x) (do_each p net cmd args (length vs)))
        (do'-frame p net cmd args c n v (frames p vs ++ rest) (first-taken _ (length vs) n.writer f)
          r (h ∙ append_assoc (frame p v) (frames p vs) rest))
      ∙ do_each-frames c
          (record n {
            writer = put (command_frame p n.kind cmd args) n.writer;
            input = frames p vs ++ rest;
          })
          vs rest f rs refl

  -- Over a connection that takes all the commands, and on which the server has written as many values,
  -- the pipelined benchmark and the one that waits for each reply succeed both, and leave the connection
  -- in the same state: all the commands are written, and all the replies are read.
  pub pipelined_agrees :
      (c : ClientConnection) (n : ProtocolClient) (vs : List Value) (rest : Bytes)
      → (put_times (command_frame p n.kind cmd args) (length vs) n.writer).failed ≡ false
      → All (IsReadable p) vs
      → n.input ≡ frames p vs ++ rest
      → let after = over c (record n {
        writer = put_times (command_frame p n.kind cmd args) (length vs) n.writer;
        input = rest;
      }) in
        (requests p net cmd args true (length vs) (over c n) ≡ (ok tt, after))
        × (requests p net cmd args false (length vs) (over c n) ≡ (ok tt, after))
  unfolding requests then_do
  pipelined_agrees c n vs rest f r h = (
    ap (λ x. then_do x (read_each p (length vs))) (send_each-taken (length vs) c n f)
        ∙ read_each-frames c
            (record n { writer = put_times (command_frame p n.kind cmd args) (length vs) n.writer })
            vs rest r h,
    do_each-frames c n vs rest f r h,
  )

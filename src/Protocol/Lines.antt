-- ===== src/Protocol/Lines.antt =====
-- A line client that sends its commands one behind the other.
use broadcast.Common.{
  ◌≤◌, ◌≡◌, refl, ap, ◌∙◌, sym, List, [], ◌∷◌, ◌++◌, map, append_assoc, arith, Bytes, All,
  All-append, none, ok, length, length-append, le→leb,
}
use broadcast.Decimal.RoundTrip.{OneLine}
use broadcast.Wire.{Value, Platform, delims}
use broadcast.Wire.Write.{Writer, put}
use broadcast.Wire.Frame.{put-append}
use broadcast.Wire.Line.{read_line_invariant-line}
use broadcast.Stats.Memory.Keys.Split.{Lacks, joined, split-joined}
use broadcast.Protocol.{Conn, run_client}
use broadcast.Protocol.Request.{Commands, line, read_bulk_line}
use broadcast.Protocol.Total.{read_bulk_line-Consumes}
use broadcast.Protocol.LineClient.{spaced, write_line_command}
use broadcast.Protocol.Client.{request}
use broadcast.Protocol.Stream.{ReadsBack, stream, execute_all, run_client-stream}

-- The words on a line, and what a line client sends for them.
abbrev pub words_line : List Bytes → Bytes
words_line [] = delims
words_line (w ∷ ws) = (w ++ joined b' ' ws) ++ delims

-- Words without spaces and newlines, on a line of 2 to 126 bytes.
pub record IsCommandLine (ws : List Bytes) : Type 0 where
  pub spaceless : All (Lacks b' ') ws
  pub one_line : All OneLine ws
  pub some_bytes : 4 ≤ length (words_line ws)
  pub fits : length (words_line ws) ≤ 128

-- WriteCommand of the line client sends the words of the request.
spaced-joined : (p : Platform) (args : List Value) → spaced p args ≡ joined b' ' (map p.print args)
unfolding spaced
spaced-joined p [] = refl
spaced-joined p (v ∷ args) = ap (λ s. b' ' ∷ p.print v ++ s) (spaced-joined p args)

-- WriteCommand of the line client sends the line of the name in upper case and of the prints of the
-- arguments. Its error is always nil.
write_line_command-words :
    (p : Platform) (cmd : Bytes) (args : List Value) (w : Writer)
    → write_line_command p cmd args w ≡ (put (words_line (request p cmd args)) w, none)
unfolding write_line_command
write_line_command-words p cmd args w =
    ap (λ (t : Bytes). (put delims (put (p.upper cmd ++ t) w), none)) (spaced-joined p args)
    ∙ ap (λ (x : Writer). (x, none))
        (sym (put-append (p.upper cmd ++ joined b' ' (map p.print args)) delims w))

joined-OneLine : (ws : List Bytes) → All OneLine ws → OneLine (joined b' ' ws)
joined-OneLine [] h = tt
joined-OneLine (w ∷ ws) (h, hs) =
    ((λ e. omega arith), All-append _ w (joined b' ' ws) h (joined-OneLine ws hs))

-- A line of words is read back as the words.
read_bulk_line-words :
    (ws : List Bytes) (rest : Bytes)
    → IsCommandLine ws
    → read_bulk_line (words_line ws ++ rest) ≡ ok (ws, rest)
unfolding read_bulk_line
read_bulk_line-words [] rest h = let k = h.some_bytes in absurd (omega arith)
read_bulk_line-words (w ∷ ws) rest h =
    let text = w ++ joined b' ' ws in
    let low = h.some_bytes in
    let high = h.fits in
    let l = length-append text delims in
    let lines = All-append _ w (joined b' ' ws) h.one_line.0 (joined-OneLine ws h.one_line.1) in
    rw
      (
        append_assoc text delims rest,
        read_line_invariant-line text rest lines (omega arith),
        le→leb 2 (length text) (omega arith),
        split-joined b' ' w ws h.spaceless.0 h.spaceless.1,
      )
      refl

module _ {S : Type 0} (p : Platform) (commands : Commands S) where
  All-ReadsBack :
      (rs : List (List Bytes))
      → All IsCommandLine rs
      → All (ReadsBack (line p commands) words_line) rs
  All-ReadsBack [] h = tt
  All-ReadsBack (r ∷ rs) (h, hs) = (
    record {
      reads = λ rest. read_bulk_line-words r rest h;
      some_bytes = let k = h.some_bytes in omega arith;
    },
    All-ReadsBack rs hs,
  )

  -- On the lines that a line client sends, each of words without spaces and newlines and of 2 to 126
  -- bytes, RunClient of the line protocol handles exactly these requests, in order, each in the state
  -- that the one before left, until one quits or panics, and then closes the connection, unless the
  -- program has crashed.
  pub run_client-lines :
      (rs : List (List Bytes)) (c : Conn S)
      → All IsCommandLine rs
      → run_client (line p commands) (stream words_line rs) c ≡ execute_all (line p commands) rs c
  run_client-lines rs c h =
      run_client-stream (line p commands) words_line read_bulk_line-Consumes.ends rs c
        (All-ReadsBack rs h)

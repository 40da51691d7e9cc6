-- ===== src/Tests/Reads.antt =====
-- Two replies that a client reads.
use broadcast.Common.{◌≡◌, ◌++◌, refl, List, [], ◌∷◌, arith, Bytes, codes, length, ok}
use broadcast.Wire.{Value}
use broadcast.Wire.Write.{put}
use broadcast.Wire.RoundTrip.{FitsLine}
use broadcast.Stats.Session.{ClientCall, flush, write_string, write_int64, write_len}
use broadcast.Stats.Session.Answers.{one, many}
use broadcast.Common.Int.{pos}
use broadcast.Protocol.Perform.{perform_all}
use broadcast.App.Replies.{concat}
use broadcast.App.Reads
use broadcast.App.Reads.{read_values}
use broadcast.Tests.Client.{printing, texts}
use broadcast.Client.Exchange.{writer}

abbrev two_replies : List (List ClientCall)
two_replies =
    (write_string (codes "PONG") ∷ flush ∷ [])
    ∷ (write_len b'*' 2 ∷ write_string (codes "a") ∷ write_int64 (pos 7) ∷ flush ∷ [])
    ∷ []

pong_fits : FitsLine (codes "PONG")
pong_fits = (omega arith, (cc), omega arith)

a_fits : FitsLine (codes "a")
a_fits = (omega arith, (cc), omega arith)

replies_read_example :
    (sent : Bytes) × (vs : List Value) × (perform_all printing texts
        (concat two_replies)
        (writer 100)
      ≡ put sent (writer 100))
    × (length vs ≡ length two_replies)
    × (read_values printing texts (length two_replies) (sent ++ codes "+") ≡ ok (vs, codes "+"))
replies_read_example =
    Reads.replies_read printing texts two_replies (writer 100) (codes "+")
      (
        one (write_string (codes "PONG")) refl,
        (many (write_string (codes "a") ∷ write_int64 (pos 7) ∷ []) (refl, (refl, tt)), tt),
      )
      (pong_fits, (((a_fits, (omega arith, (tt, tt))), omega arith), tt))

-- ===== src/Stats/Replies.antt =====
-- backends/stats/metrics.go: the replies and the parsing that the handlers share.
pub mod Answers
use broadcast.Common.{Option, none, some, List, [], ◌∷◌, Bytes, Result, ok, err, panic, length}
use broadcast.Common.Int.{ℤ}
use broadcast.Decimal.{parse_int}
use broadcast.Dict.{keys}
use broadcast.Stats.Memory.{Set}
use broadcast.Stats.Session.{
  write_int64, write_null, flush, write_error, write_string, write_len, write_failure, Run, pure,
  lift, emit, ◌>>◌,
}

module _ {S : Type 0} where
  unfoldable pub flush_int : ℤ → Run S (Unit {0})
  unfolding emit
  flush_int i = do emit (write_int64 i); emit flush

  unfoldable pub flush_nil : Run S (Unit {0})
  unfolding emit
  flush_nil = do emit write_null; emit flush

  -- client.WriteError(errors.New(…)); client.Flush(); return nil
  unfoldable pub complain : Bytes → Run S (Unit {0})
  unfolding emit
  complain message = do emit (write_error message); emit flush

  unfoldable pub read_int64 : Bytes → Run S ℤ
  unfolding lift
  read_int64 d = lift (parse_int d)

  -- for k, _ := range results { client.WriteString(k) }
  unfoldable pub write_strings : List Bytes → Run S (Unit {0})
  unfolding emit pure
  write_strings [] = pure tt
  write_strings (k ∷ ks) = do emit (write_string k); write_strings ks

  unfoldable pub reply_strings : List Bytes → Run S (Unit {0})
  unfolding write_strings
  reply_strings ks = do emit (write_len b'*' (length ks)); write_strings ks; emit flush

  unfoldable pub write_ints : List ℤ → Run S (Unit {0})
  unfolding emit pure
  write_ints [] = pure tt
  write_ints (i ∷ is) = do emit (write_int64 i); write_ints is

  -- One number is sent alone, several as an array.
  unfoldable pub reply_ints : List ℤ → Run S (Unit {0})
  unfolding write_ints
  reply_ints (i ∷ []) = do emit (write_int64 i); emit flush
  reply_ints is = do emit (write_len b'*' (length is)); write_ints is; emit flush

  -- A nil map is answered by null.
  unfoldable pub reply_set : Option Set → Run S (Unit {0})
  unfolding flush_nil reply_strings
  reply_set none = flush_nil
  reply_set (some s) = reply_strings (keys s)

  -- if err != nil { client.WriteError(err); client.Flush(); return nil }
  unfoldable pub or_failure : {A : Type 0} → Result A → (A → Run S (Unit {0})) → Run S (Unit {0})
  unfolding emit lift
  or_failure (ok a) f = f a
  or_failure (err e) f = do emit (write_failure e); emit flush
  or_failure panic f = lift panic

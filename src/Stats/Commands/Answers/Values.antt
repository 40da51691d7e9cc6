-- ===== src/Stats/Commands/Answers/Values.antt =====
-- The handlers of backends/stats/metrics.go for values and counters make the calls of one reply each.
use broadcast.Common.{refl, true, false, List, [], ◌∷◌, Bytes, Result, ok, err, panic}
use broadcast.Common.Int.{ℤ, add64, pos}
use broadcast.Stats.Metrics.{Metrics}
use broadcast.Stats.Session.{write_counters, method, attempt, ◌>>=◌}
use broadcast.Stats.Session.Answers.{
  IsQuiet, Answers, pure-IsQuiet, method-IsQuiet, attempt-IsQuiet, >>=-IsQuiet, >>=-Answers,
  IsQuiet-Answers, raise-Answers, panic-Answers, if-Answers, one_call-Answers,
}
use broadcast.Stats.Replies
use broadcast.Stats.Replies.{flush_int, read_int64, reply_strings, reply_ints, reply_set}
use broadcast.Stats.Replies.Answers.{
  flush_int-Answers, flush_nil-Answers, complain-Answers, read_int64-IsQuiet, reply_strings-Answers,
  or_failure-Answers,
}
use broadcast.Stats.Handlers

module _ {S : Type 0} (m : Metrics S) where
  -- A method whose number is sent
  number-Answers : (f : S → Result ℤ × S) → Answers false (method f >>= flush_int)
  number-Answers f = >>=-Answers false _ _ (method-IsQuiet f) (flush_int-Answers false)

  -- The same, behind the reading of a number
  numbers-Answers :
      (v : Bytes) (f : ℤ → S → Result ℤ × S)
      → Answers false (read_int64 v >>= λ value. method (f value) >>= flush_int)
  numbers-Answers v f =
      >>=-Answers false _ _ (read_int64-IsQuiet v) (λ value. number-Answers (f value))

  pub set-Answers : (d : List Bytes) → Answers false (Handlers.set m d)
  unfolding Handlers.set
  set-Answers [] = complain-Answers false _
  set-Answers (k ∷ []) = complain-Answers false _
  set-Answers (k ∷ v ∷ d) = numbers-Answers v (m.set k)

  pub set_nx-Answers : (d : List Bytes) → Answers false (Handlers.set_nx m d)
  unfolding Handlers.set_nx
  set_nx-Answers [] = complain-Answers false _
  set_nx-Answers (k ∷ []) = complain-Answers false _
  set_nx-Answers (k ∷ v ∷ d) = numbers-Answers v (m.set_nx k)

  answer-Answers : (r : Result ℤ) → Answers false (Handlers.answer m r)
  unfolding Handlers.answer
  answer-Answers (ok i) = flush_int-Answers false i
  answer-Answers (err e) =
      if-Answers false (Handlers.is_not_found e) _ _ (flush_nil-Answers false)
        (raise-Answers false e)
  answer-Answers panic = panic-Answers false

  pub get-Answers : (d : List Bytes) → Answers false (Handlers.get m d)
  unfolding Handlers.get
  get-Answers [] = complain-Answers false _
  get-Answers (k ∷ d) =
      >>=-Answers false _ _ (attempt-IsQuiet _ (method-IsQuiet (m.get k))) answer-Answers

  pub exists-Answers : (d : List Bytes) → Answers false (Handlers.exists m d)
  unfolding Handlers.exists
  exists-Answers [] = complain-Answers false _
  exists-Answers (k ∷ d) = number-Answers (m.exists k)

  del_each-IsQuiet : (d : List Bytes) (i : ℤ) → IsQuiet (Handlers.del_each m d i)
  unfolding Handlers.del_each
  del_each-IsQuiet [] i = pure-IsQuiet i
  del_each-IsQuiet (k ∷ d) i =
      >>=-IsQuiet _ _ (method-IsQuiet (m.del k)) (λ j. del_each-IsQuiet d (add64 i j))

  pub del-Answers : (d : List Bytes) → Answers false (Handlers.del m d)
  unfolding Handlers.del
  del-Answers [] = complain-Answers false _
  del-Answers (k ∷ d) =
      >>=-Answers false _ _ (del_each-IsQuiet (k ∷ d) (pos 0)) (flush_int-Answers false)

  pub incr-Answers : (d : List Bytes) → Answers false (Handlers.incr m d)
  unfolding Handlers.incr
  incr-Answers [] = complain-Answers false _
  incr-Answers (k ∷ []) = number-Answers (m.incr k)
  incr-Answers (k ∷ v ∷ d) = numbers-Answers v (m.incr_by k)

  pub decr-Answers : (d : List Bytes) → Answers false (Handlers.decr m d)
  unfolding Handlers.decr
  decr-Answers [] = complain-Answers false _
  decr-Answers (k ∷ []) = number-Answers (m.decr k)
  decr-Answers (k ∷ v ∷ d) = numbers-Answers v (m.decr_by k)

  pub count-Answers : (d : List Bytes) → Answers true (Handlers.count m d)
  unfolding Handlers.count
  count-Answers [] = complain-Answers true _
  count-Answers (k ∷ []) =
      IsQuiet-Answers _ (>>=-IsQuiet _ _ (method-IsQuiet (m.counter k)) (λ i. pure-IsQuiet tt))
  count-Answers (k ∷ v ∷ d) = >>=-Answers true _ _ (read_int64-IsQuiet v) λ value.
      IsQuiet-Answers _
        (>>=-IsQuiet _ _ (method-IsQuiet (m.counter_by k value)) (λ i. pure-IsQuiet tt))

  pub counters-Answers : (d : List Bytes) → Answers false (Handlers.counters m d)
  unfolding Handlers.counters
  counters-Answers d =
      >>=-Answers false _ _ (attempt-IsQuiet _ (method-IsQuiet m.counters))
        λ r. or_failure-Answers false r _ (λ c. one_call-Answers false (write_counters c) refl)

  keys_by-Answers :
      (pattern' : Bytes)
      → Answers false
          (attempt (method (m.keys pattern')) >>= λ r. Replies.or_failure r reply_strings)
  keys_by-Answers pattern' =
      >>=-Answers false _ _ (attempt-IsQuiet _ (method-IsQuiet (m.keys pattern')))
        λ r. or_failure-Answers false r reply_strings (reply_strings-Answers false)

  pub keys-Answers : (d : List Bytes) → Answers false (Handlers.keys_handler m d)
  unfolding Handlers.keys_handler
  keys-Answers [] = keys_by-Answers []
  keys-Answers (k ∷ d) = keys_by-Answers k

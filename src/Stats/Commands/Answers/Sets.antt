-- ===== src/Stats/Commands/Answers/Sets.antt =====
-- The handlers of backends/stats/metrics.go for sets make the calls of one reply each.
use broadcast.Common.{false, Option, none, some, List, [], ◌∷◌, Bytes, Result, length, ◌==◌}
use broadcast.Common.Int.{ℤ, add64, pos}
use broadcast.Dict
use broadcast.Stats.Memory.{Set}
use broadcast.Stats.Metrics.{Metrics}
use broadcast.Stats.Session.{Run, pure, method, ◌>>=◌}
use broadcast.Stats.Session.Answers.{
  IsQuiet, Answers, pure-IsQuiet, method-IsQuiet, >>=-IsQuiet, >>=-Answers, if-Answers, if-IsQuiet,
}
use broadcast.Stats.Replies.Answers.{
  flush_int-Answers, flush_nil-Answers, complain-Answers, reply_strings-Answers, reply_ints-Answers,
  reply_set-Answers,
}
use broadcast.Stats.SetHandlers
use broadcast.Stats.SetHandlers.{is_minus_one}

module _ {S : Type 0} (m : Metrics S) where
  sadd_each-IsQuiet :
      (k : Bytes) (vs : List Bytes) (i : ℤ) → IsQuiet (SetHandlers.sadd_each m k vs i)
  unfolding SetHandlers.sadd_each
  sadd_each-IsQuiet k [] i = pure-IsQuiet i
  sadd_each-IsQuiet k (v ∷ vs) i =
      >>=-IsQuiet _ _ (method-IsQuiet (m.sadd k v)) (λ j. sadd_each-IsQuiet k vs (add64 i j))

  pub sadd-Answers : (d : List Bytes) → Answers false (SetHandlers.sadd m d)
  unfolding SetHandlers.sadd
  sadd-Answers [] = complain-Answers false _
  sadd-Answers (k ∷ []) = complain-Answers false _
  sadd-Answers (k ∷ v ∷ d) =
      >>=-Answers false _ _ (sadd_each-IsQuiet k (v ∷ d) (pos 0)) (flush_int-Answers false)

  srem_each-Answers :
      (k : Bytes) (vs : List Bytes) (i : ℤ) → Answers false (SetHandlers.srem_each m k vs i)
  unfolding SetHandlers.srem_each
  srem_each-Answers k [] i = flush_int-Answers false i
  srem_each-Answers k (v ∷ vs) i = >>=-Answers false _ _ (method-IsQuiet (m.srem k v)) λ r.
      if-Answers false (is_minus_one m r) _ _ (flush_int-Answers false r)
        (srem_each-Answers k vs (add64 i r))

  pub srem-Answers : (d : List Bytes) → Answers false (SetHandlers.srem m d)
  unfolding SetHandlers.srem
  srem-Answers [] = complain-Answers false _
  srem-Answers (k ∷ []) = complain-Answers false _
  srem-Answers (k ∷ v ∷ d) = srem_each-Answers k (v ∷ d) (pos 0)

  -- A number for each of the names
  each-IsQuiet :
      (f : Bytes → S → Result ℤ × S) (loop : List Bytes → Run S (List ℤ)) (v : Bytes)
      (d : List Bytes)
      → IsQuiet (loop d)
      → IsQuiet (method (f v) >>= λ r. loop d >>= λ rs. pure (r ∷ rs))
  each-IsQuiet f loop v d q =
      >>=-IsQuiet _ _ (method-IsQuiet (f v)) λ r. >>=-IsQuiet _ _ q (λ rs. pure-IsQuiet (r ∷ rs))

  scard_each-IsQuiet : (d : List Bytes) → IsQuiet (SetHandlers.scard_each m d)
  unfolding SetHandlers.scard_each
  scard_each-IsQuiet [] = pure-IsQuiet []
  scard_each-IsQuiet (v ∷ d) =
      each-IsQuiet m.scard (SetHandlers.scard_each m) v d (scard_each-IsQuiet d)

  pub scard-Answers : (d : List Bytes) → Answers false (SetHandlers.scard m d)
  unfolding SetHandlers.scard
  scard-Answers [] = complain-Answers false _
  scard-Answers (k ∷ d) =
      >>=-Answers false _ _ (scard_each-IsQuiet (k ∷ d)) (reply_ints-Answers false)

  sismember_each-IsQuiet : (k : Bytes) (d : List Bytes) → IsQuiet (SetHandlers.sismember_each m k d)
  unfolding SetHandlers.sismember_each
  sismember_each-IsQuiet k [] = pure-IsQuiet []
  sismember_each-IsQuiet k (v ∷ d) =
      each-IsQuiet (m.sismember k) (SetHandlers.sismember_each m k) v d (sismember_each-IsQuiet k d)

  pub sismember-Answers : (d : List Bytes) → Answers false (SetHandlers.sismember m d)
  unfolding SetHandlers.sismember
  sismember-Answers [] = complain-Answers false _
  sismember-Answers (k ∷ []) = complain-Answers false _
  sismember-Answers (k ∷ v ∷ d) =
      >>=-Answers false _ _ (sismember_each-IsQuiet k (v ∷ d)) (reply_ints-Answers false)

  sdiff_each-IsQuiet : (d : List Bytes) (r : Set) → IsQuiet (SetHandlers.sdiff_each m d r)
  unfolding SetHandlers.sdiff_each
  sdiff_each-IsQuiet [] r = pure-IsQuiet r
  sdiff_each-IsQuiet (v ∷ d) r =
      >>=-IsQuiet _ _ (method-IsQuiet (m.sdiff r v))
        λ r'. if-IsQuiet (length r' == 0) _ _ (pure-IsQuiet r') (sdiff_each-IsQuiet d r')

  sdiff_from-Answers :
      (d : List Bytes) (s : Option Set) → Answers false (SetHandlers.sdiff_from m d s)
  unfolding SetHandlers.sdiff_from
  sdiff_from-Answers d none = flush_nil-Answers false
  sdiff_from-Answers d (some s) =
      >>=-Answers false _ _ (sdiff_each-IsQuiet d s)
        (λ r. reply_strings-Answers false (Dict.keys r))

  pub sdiff-Answers : (d : List Bytes) → Answers false (SetHandlers.sdiff m d)
  unfolding SetHandlers.sdiff
  sdiff-Answers [] = complain-Answers false _
  sdiff-Answers (k ∷ []) = complain-Answers false _
  sdiff-Answers (k ∷ v ∷ d) =
      >>=-Answers false _ _ (method-IsQuiet (m.smembers k)) (sdiff_from-Answers (v ∷ d))

  pub smembers-Answers : (d : List Bytes) → Answers false (SetHandlers.smembers m d)
  unfolding SetHandlers.smembers
  smembers-Answers [] = complain-Answers false _
  smembers-Answers (k ∷ d) =
      >>=-Answers false _ _ (method-IsQuiet (m.smembers k)) (reply_set-Answers false)

  pub sinter-Answers : (d : List Bytes) → Answers false (SetHandlers.sinter m d)
  unfolding SetHandlers.sinter
  sinter-Answers [] = complain-Answers false _
  sinter-Answers (k ∷ []) = complain-Answers false _
  sinter-Answers (k ∷ v ∷ d) =
      >>=-Answers false _ _ (method-IsQuiet (m.sinter (k ∷ v ∷ d))) (reply_set-Answers false)

  pub sunion-Answers : (d : List Bytes) → Answers false (SetHandlers.sunion m d)
  unfolding SetHandlers.sunion
  sunion-Answers [] = complain-Answers false _
  sunion-Answers (k ∷ []) = complain-Answers false _
  sunion-Answers (k ∷ v ∷ d) =
      >>=-Answers false _ _ (method-IsQuiet (m.sunion (k ∷ v ∷ d)))
        (λ r. reply_strings-Answers false (Dict.keys r))

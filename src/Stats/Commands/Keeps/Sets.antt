-- ===== src/Stats/Commands/Keeps/Sets.antt =====
-- The commands on sets.
use broadcast.Common.{List, [], ◌∷◌, Bytes, length, ◌==◌, none, some, Option}
use broadcast.Common.Int.{ℤ, pos, add64}
use broadcast.Dict.{keys}
use broadcast.Stats.Memory.{Set}
use broadcast.Stats.Metrics.{Metrics}
use broadcast.Stats.Session.Keeps.{Anything, pure-Keeps, if-Keeps}
use broadcast.Stats.SetHandlers
use broadcast.Stats.SetHandlers.{is_minus_one}
use broadcast.Stats.Commands.Keeps.{
  Laws, KeepsAll, call, then_next, flush_int-Keeps, flush_nil-Keeps, complain-Keeps,
  reply_strings-Keeps, reply_ints-Keeps, reply_set-Keeps,
}

module _ {S : Type 0} (P : S → Type 0) (m : Metrics S) (laws : Laws P m) where
  sadd_each-Keeps :
      (key : Bytes) (members : List Bytes) (r : ℤ)
      → KeepsAll P (SetHandlers.sadd_each m key members r)
  unfolding SetHandlers.sadd_each
  sadd_each-Keeps key [] r = pure-Keeps P Anything r tt
  sadd_each-Keeps key (v ∷ members) r =
      then_next P _ _ (call P (m.sadd key v) (laws.sadd key v))
        (λ n. sadd_each-Keeps key members (add64 r n))

  pub sadd-Keeps : (d : List Bytes) → KeepsAll P (SetHandlers.sadd m d)
  unfolding SetHandlers.sadd
  sadd-Keeps [] = complain-Keeps P _
  sadd-Keeps (key ∷ []) = complain-Keeps P _
  sadd-Keeps (key ∷ v ∷ members) =
      then_next P _ _ (sadd_each-Keeps key (v ∷ members) (pos 0)) (flush_int-Keeps P)

  srem_each-Keeps :
      (key : Bytes) (members : List Bytes) (r : ℤ)
      → KeepsAll P (SetHandlers.srem_each m key members r)
  unfolding SetHandlers.srem_each
  srem_each-Keeps key [] r = flush_int-Keeps P r
  srem_each-Keeps key (v ∷ members) r =
      then_next P _ _ (call P (m.srem key v) (laws.srem key v)) λ n.
        if-Keeps P Anything (is_minus_one m n) _ _ (flush_int-Keeps P n)
          (srem_each-Keeps key members (add64 r n))

  pub srem-Keeps : (d : List Bytes) → KeepsAll P (SetHandlers.srem m d)
  unfolding SetHandlers.srem
  srem-Keeps [] = complain-Keeps P _
  srem-Keeps (key ∷ []) = complain-Keeps P _
  srem-Keeps (key ∷ v ∷ members) = srem_each-Keeps key (v ∷ members) (pos 0)

  scard_each-Keeps : (d : List Bytes) → KeepsAll P (SetHandlers.scard_each m d)
  unfolding SetHandlers.scard_each
  scard_each-Keeps [] = pure-Keeps P Anything [] tt
  scard_each-Keeps (v ∷ d) =
      then_next P _ _ (call P (m.scard v) (laws.scard v))
        λ r. then_next P _ _ (scard_each-Keeps d) (λ rs. pure-Keeps P Anything (r ∷ rs) tt)

  pub scard-Keeps : (d : List Bytes) → KeepsAll P (SetHandlers.scard m d)
  unfolding SetHandlers.scard
  scard-Keeps [] = complain-Keeps P _
  scard-Keeps (k ∷ d) = then_next P _ _ (scard_each-Keeps (k ∷ d)) (reply_ints-Keeps P)

  sdiff_each-Keeps : (d : List Bytes) (r : Set) → KeepsAll P (SetHandlers.sdiff_each m d r)
  unfolding SetHandlers.sdiff_each
  sdiff_each-Keeps [] r = pure-Keeps P Anything r tt
  sdiff_each-Keeps (v ∷ d) r = then_next P _ _ (call P (m.sdiff r v) (laws.sdiff r v)) λ r'.
      if-Keeps P Anything (length r' == 0) _ _ (pure-Keeps P Anything r' tt) (sdiff_each-Keeps d r')

  sdiff_from-Keeps : (d : List Bytes) (o : Option Set) → KeepsAll P (SetHandlers.sdiff_from m d o)
  unfolding SetHandlers.sdiff_from
  sdiff_from-Keeps d none = flush_nil-Keeps P
  sdiff_from-Keeps d (some r) =
      then_next P _ _ (sdiff_each-Keeps d r) (λ r'. reply_strings-Keeps P (keys r'))

  pub sdiff-Keeps : (d : List Bytes) → KeepsAll P (SetHandlers.sdiff m d)
  unfolding SetHandlers.sdiff
  sdiff-Keeps [] = complain-Keeps P _
  sdiff-Keeps (k ∷ []) = complain-Keeps P _
  sdiff-Keeps (k ∷ v ∷ d) =
      then_next P _ _ (call P (m.smembers k) (laws.smembers k)) (sdiff_from-Keeps (v ∷ d))

  pub smembers-Keeps : (d : List Bytes) → KeepsAll P (SetHandlers.smembers m d)
  unfolding SetHandlers.smembers
  smembers-Keeps [] = complain-Keeps P _
  smembers-Keeps (k ∷ d) =
      then_next P _ _ (call P (m.smembers k) (laws.smembers k)) (reply_set-Keeps P)

  sismember_each-Keeps :
      (key : Bytes) (d : List Bytes) → KeepsAll P (SetHandlers.sismember_each m key d)
  unfolding SetHandlers.sismember_each
  sismember_each-Keeps key [] = pure-Keeps P Anything [] tt
  sismember_each-Keeps key (v ∷ d) =
      then_next P _ _ (call P (m.sismember key v) (laws.sismember key v))
        λ r. then_next P _ _ (sismember_each-Keeps key d) (λ rs. pure-Keeps P Anything (r ∷ rs) tt)

  pub sismember-Keeps : (d : List Bytes) → KeepsAll P (SetHandlers.sismember m d)
  unfolding SetHandlers.sismember
  sismember-Keeps [] = complain-Keeps P _
  sismember-Keeps (k ∷ []) = complain-Keeps P _
  sismember-Keeps (k ∷ v ∷ d) =
      then_next P _ _ (sismember_each-Keeps k (v ∷ d)) (reply_ints-Keeps P)

  pub sinter-Keeps : (d : List Bytes) → KeepsAll P (SetHandlers.sinter m d)
  unfolding SetHandlers.sinter
  sinter-Keeps [] = complain-Keeps P _
  sinter-Keeps (k ∷ []) = complain-Keeps P _
  sinter-Keeps (k ∷ v ∷ d) =
      then_next P _ _ (call P (m.sinter (k ∷ v ∷ d)) (laws.sinter (k ∷ v ∷ d))) (reply_set-Keeps P)

  pub sunion-Keeps : (d : List Bytes) → KeepsAll P (SetHandlers.sunion m d)
  unfolding SetHandlers.sunion
  sunion-Keeps [] = complain-Keeps P _
  sunion-Keeps (k ∷ []) = complain-Keeps P _
  sunion-Keeps (k ∷ v ∷ d) =
      then_next P _ _ (call P (m.sunion (k ∷ v ∷ d)) (laws.sunion (k ∷ v ∷ d)))
        (λ r. reply_strings-Keeps P (keys r))

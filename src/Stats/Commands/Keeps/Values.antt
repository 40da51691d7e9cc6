-- ===== src/Stats/Commands/Keeps/Values.antt =====
-- The commands on values and counters.
use broadcast.Common.{List, [], ◌∷◌, Bytes, Result, ok, err, panic}
use broadcast.Common.Int.{ℤ, pos, add64}
use broadcast.Stats.Metrics.{Metrics}
use broadcast.Stats.Session.{write_counters}
use broadcast.Stats.Session.Keeps.{Anything, pure-Keeps, raise-Keeps, lift-Keeps, if-Keeps}
use broadcast.Stats.Replies.{reply_strings}
use broadcast.Stats.Handlers
use broadcast.Stats.Handlers.{is_not_found}
use broadcast.Stats.Commands.Keeps.{
  Laws, KeepsAll, call, then_next, say_and_flush, flush_int-Keeps, flush_nil-Keeps, complain-Keeps,
  with_int64, reply_strings-Keeps, or_failure-Keeps, attempted,
}

module _ {S : Type 0} (P : S → Type 0) (m : Metrics S) (laws : Laws P m) where
  pub set-Keeps : (d : List Bytes) → KeepsAll P (Handlers.set m d)
  unfolding Handlers.set
  set-Keeps [] = complain-Keeps P _
  set-Keeps (key ∷ []) = complain-Keeps P _
  set-Keeps (key ∷ v ∷ d) =
      with_int64 P v _
        λ n b. then_next P _ _ (call P (m.set key n) (laws.set key n b)) (flush_int-Keeps P)

  pub set_nx-Keeps : (d : List Bytes) → KeepsAll P (Handlers.set_nx m d)
  unfolding Handlers.set_nx
  set_nx-Keeps [] = complain-Keeps P _
  set_nx-Keeps (key ∷ []) = complain-Keeps P _
  set_nx-Keeps (key ∷ v ∷ d) =
      with_int64 P v _
        λ n b. then_next P _ _ (call P (m.set_nx key n) (laws.set_nx key n b)) (flush_int-Keeps P)

  answer-Keeps : (r : Result ℤ) → KeepsAll P (Handlers.answer m r)
  unfolding Handlers.answer
  answer-Keeps (ok i) = flush_int-Keeps P i
  answer-Keeps (err e) =
      if-Keeps P Anything (is_not_found e) _ _ (flush_nil-Keeps P) (raise-Keeps P Anything e)
  answer-Keeps panic = lift-Keeps P Anything panic tt

  pub get-Keeps : (d : List Bytes) → KeepsAll P (Handlers.get m d)
  unfolding Handlers.get
  get-Keeps [] = complain-Keeps P _
  get-Keeps (key ∷ d) = attempted P (m.get key) _ (laws.get key) answer-Keeps

  pub exists-Keeps : (d : List Bytes) → KeepsAll P (Handlers.exists m d)
  unfolding Handlers.exists
  exists-Keeps [] = complain-Keeps P _
  exists-Keeps (key ∷ d) =
      then_next P _ _ (call P (m.exists key) (laws.exists key)) (flush_int-Keeps P)

  del_each-Keeps : (d : List Bytes) (i : ℤ) → KeepsAll P (Handlers.del_each m d i)
  unfolding Handlers.del_each
  del_each-Keeps [] i = pure-Keeps P Anything i tt
  del_each-Keeps (k ∷ d) i =
      then_next P _ _ (call P (m.del k) (laws.del k)) (λ i2. del_each-Keeps d (add64 i i2))

  pub del-Keeps : (d : List Bytes) → KeepsAll P (Handlers.del m d)
  unfolding Handlers.del
  del-Keeps [] = complain-Keeps P _
  del-Keeps (k ∷ d) = then_next P _ _ (del_each-Keeps (k ∷ d) (pos 0)) (flush_int-Keeps P)

  pub incr-Keeps : (d : List Bytes) → KeepsAll P (Handlers.incr m d)
  unfolding Handlers.incr
  incr-Keeps [] = complain-Keeps P _
  incr-Keeps (key ∷ []) = then_next P _ _ (call P (m.incr key) (laws.incr key)) (flush_int-Keeps P)
  incr-Keeps (key ∷ v ∷ d) =
      with_int64 P v _
        λ n b. then_next P _ _ (call P (m.incr_by key n) (laws.incr_by key n b)) (flush_int-Keeps P)

  pub decr-Keeps : (d : List Bytes) → KeepsAll P (Handlers.decr m d)
  unfolding Handlers.decr
  decr-Keeps [] = complain-Keeps P _
  decr-Keeps (key ∷ []) = then_next P _ _ (call P (m.decr key) (laws.decr key)) (flush_int-Keeps P)
  decr-Keeps (key ∷ v ∷ d) =
      with_int64 P v _
        λ n b. then_next P _ _ (call P (m.decr_by key n) (laws.decr_by key n b)) (flush_int-Keeps P)

  pub count-Keeps : (d : List Bytes) → KeepsAll P (Handlers.count m d)
  unfolding Handlers.count
  count-Keeps [] = complain-Keeps P _
  count-Keeps (key ∷ []) =
      then_next P _ _ (call P (m.counter key) (laws.counter key)) (λ _. pure-Keeps P Anything tt tt)
  count-Keeps (key ∷ v ∷ d) = with_int64 P v _ λ n b.
      then_next P _ _ (call P (m.counter_by key n) (laws.counter_by key n b))
        (λ _. pure-Keeps P Anything tt tt)

  pub counters-Keeps : (d : List Bytes) → KeepsAll P (Handlers.counters m d)
  unfolding Handlers.counters
  counters-Keeps d =
      attempted P m.counters _ laws.counters
        (λ r. or_failure-Keeps P r _ (λ c. say_and_flush P (write_counters c)))

  pub keys-Keeps : (d : List Bytes) → KeepsAll P (Handlers.keys_handler m d)
  unfolding Handlers.keys_handler
  keys-Keeps [] =
      attempted P (m.keys []) _ (laws.keys [])
        (λ r. or_failure-Keeps P r reply_strings (reply_strings-Keeps P))
  keys-Keeps (pattern' ∷ d) =
      attempted P (m.keys pattern') _ (laws.keys pattern')
        (λ r. or_failure-Keeps P r reply_strings (reply_strings-Keeps P))

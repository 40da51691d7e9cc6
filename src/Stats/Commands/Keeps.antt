-- ===== src/Stats/Commands/Keeps.antt =====
-- Every command of the stats backend keeps a property of the metrics that the methods keep.
mod Values
mod Sets
pub mod Memory
use broadcast.Common.{
  ℕ, suc, ◌+◌, ◌-◌, ◌*◌, ◌^◌, ◌≡◌, Bool, true, false, List, [], ◌∷◌, arith, Bytes, Error, Result,
  ok, err, panic, length, ◌==◌, if◌then◌else◌, none, some, Option,
}
use broadcast.Common.Int.{ℤ, pos, IsInt64, add64}
use broadcast.Dict.{Dict, keys}
use broadcast.Decimal.{parse_int}
use broadcast.Decimal.Range.{Fits, parse_int-Fits}
use broadcast.Stats.Memory.{Set, Counter}
use broadcast.Stats.Metrics.{Metrics}
use broadcast.Stats.Session.{
  Data, args, ClientCall, write_int64, write_null, flush, write_error, write_string, write_len,
  write_failure, write_counters, Session, Run, pure, lift, raise, method, attempt, emit, ◌>>=◌,
  ◌>>◌,
}
use broadcast.Stats.Session.Keeps.{
  OnOk, Anything, Keeps, pure-Keeps, raise-Keeps, lift-Keeps, method-Keeps, attempt-Keeps,
  emit-Keeps, >>=-Keeps, if-Keeps,
}
use broadcast.Stats.Replies.{
  flush_int, flush_nil, complain, read_int64, write_strings, reply_strings, write_ints, reply_ints,
  reply_set, or_failure,
}
use broadcast.Stats.Handlers
use broadcast.Stats.Handlers.{is_not_found}
use broadcast.Stats.SetHandlers
use broadcast.Stats.SetHandlers.{is_minus_one}
use broadcast.Stats.Commands.{
  Command, handle, run_command, count, counters, incr, decr, del, exists, get, set, set_nx, sadd,
  srem, scard, smembers, sdiff, sismember, sinter, sunion,
}

-- Each method of the interface, called with int64s, keeps the property.
pub record Laws {S : Type 0} (P : S → Type 0) (m : Metrics S) : Type 0 where
  pub counter : (k : Bytes) (s : S) → P s → P (m.counter k s).1
  pub counter_by : (k : Bytes) (n : ℤ) → IsInt64 n → (s : S) → P s → P (m.counter_by k n s).1
  pub flush_counters : (now : ℕ) (s : S) → P s → P (m.flush_counters now s).1
  pub counters : (s : S) → P s → P (m.counters s).1
  pub incr : (k : Bytes) (s : S) → P s → P (m.incr k s).1
  pub incr_by : (k : Bytes) (n : ℤ) → IsInt64 n → (s : S) → P s → P (m.incr_by k n s).1
  pub decr : (k : Bytes) (s : S) → P s → P (m.decr k s).1
  pub decr_by : (k : Bytes) (n : ℤ) → IsInt64 n → (s : S) → P s → P (m.decr_by k n s).1
  pub del : (k : Bytes) (s : S) → P s → P (m.del k s).1
  pub exists : (k : Bytes) (s : S) → P s → P (m.exists k s).1
  pub get : (k : Bytes) (s : S) → P s → P (m.get k s).1
  pub set : (k : Bytes) (n : ℤ) → IsInt64 n → (s : S) → P s → P (m.set k n s).1
  pub set_nx : (k : Bytes) (n : ℤ) → IsInt64 n → (s : S) → P s → P (m.set_nx k n s).1
  pub sadd : (k v : Bytes) (s : S) → P s → P (m.sadd k v s).1
  pub srem : (k v : Bytes) (s : S) → P s → P (m.srem k v s).1
  pub scard : (k : Bytes) (s : S) → P s → P (m.scard k s).1
  pub smembers : (k : Bytes) (s : S) → P s → P (m.smembers k s).1
  pub sdiff : (r : Set) (k : Bytes) (s : S) → P s → P (m.sdiff r k s).1
  pub sismember : (k v : Bytes) (s : S) → P s → P (m.sismember k v s).1
  pub sinter : (ks : List Bytes) (s : S) → P s → P (m.sinter ks s).1
  pub sunion : (ks : List Bytes) (s : S) → P s → P (m.sunion ks s).1
  pub keys : (pattern' : Bytes) (s : S) → P s → P (m.keys pattern' s).1

anything : {A : Type 0} (r : Result A) → OnOk Anything r
anything (ok a) = tt
anything (err e) = tt
anything panic = tt

fits : (r : Result ℤ) → Fits r → OnOk IsInt64 r
fits (ok n) h = h
fits (err e) h = tt
fits panic h = tt

module _ {S : Type 0} (P : S → Type 0) where
  abbrev pub KeepsAll : {A : Type 0} → Run S A → Type 0
  KeepsAll m = Keeps P Anything m

  pub call : {A : Type 0} (f : S → Result A × S) → ((s : S) → P s → P (f s).1) → KeepsAll (method f)
  call f keeps = method-Keeps P Anything f (λ s h. (keeps s h, anything (f s).0))

  pub then_next :
      {A B : Type 0} (m : Run S A) (f : A → Run S B)
      → KeepsAll m
      → ((a : A) → KeepsAll (f a))
      → KeepsAll (m >>= f)
  then_next m f k l = >>=-Keeps P Anything Anything m f k (λ a _. l a)

  pub say_and_flush : (c : ClientCall) → KeepsAll (do emit c; emit flush)
  say_and_flush c = then_next _ _ (emit-Keeps P c) (λ _. emit-Keeps P flush)

  pub flush_int-Keeps : (i : ℤ) → KeepsAll (flush_int i)
  unfolding flush_int
  flush_int-Keeps i = say_and_flush (write_int64 i)

  pub flush_nil-Keeps : KeepsAll flush_nil
  unfolding flush_nil
  flush_nil-Keeps = say_and_flush write_null

  pub complain-Keeps : (message : Bytes) → KeepsAll (complain message)
  unfolding complain
  complain-Keeps message = say_and_flush (write_error message)

  -- What is read is an int64.
  pub with_int64 :
      {B : Type 0} (v : Bytes) (f : ℤ → Run S B)
      → ((n : ℤ) → IsInt64 n → KeepsAll (f n))
      → KeepsAll (read_int64 v >>= f)
  unfolding read_int64
  with_int64 v f k =
      >>=-Keeps P IsInt64 Anything (lift (parse_int v)) f
        (lift-Keeps P IsInt64 (parse_int v) (fits (parse_int v) (parse_int-Fits v))) k

  write_strings-Keeps : (ks : List Bytes) → KeepsAll (write_strings ks)
  unfolding write_strings
  write_strings-Keeps [] = pure-Keeps P Anything tt tt
  write_strings-Keeps (k ∷ ks) =
      then_next _ _ (emit-Keeps P (write_string k)) (λ _. write_strings-Keeps ks)

  pub reply_strings-Keeps : (ks : List Bytes) → KeepsAll (reply_strings ks)
  unfolding reply_strings
  reply_strings-Keeps ks =
      then_next _ _ (emit-Keeps P _)
        λ _. then_next _ _ (write_strings-Keeps ks) (λ _. emit-Keeps P flush)

  write_ints-Keeps : (is : List ℤ) → KeepsAll (write_ints is)
  unfolding write_ints
  write_ints-Keeps [] = pure-Keeps P Anything tt tt
  write_ints-Keeps (i ∷ is) =
      then_next _ _ (emit-Keeps P (write_int64 i)) (λ _. write_ints-Keeps is)

  listed_ints :
      (is : List ℤ) → KeepsAll (do emit (write_len b'*' (length is)); write_ints is; emit flush)
  listed_ints is =
      then_next _ _ (emit-Keeps P _)
        λ _. then_next _ _ (write_ints-Keeps is) (λ _. emit-Keeps P flush)

  pub reply_ints-Keeps : (is : List ℤ) → KeepsAll (reply_ints is)
  unfolding reply_ints
  reply_ints-Keeps [] = listed_ints []
  reply_ints-Keeps (i ∷ []) = say_and_flush (write_int64 i)
  reply_ints-Keeps (i ∷ j ∷ is) = listed_ints (i ∷ j ∷ is)

  pub reply_set-Keeps : (o : Option Set) → KeepsAll (reply_set o)
  unfolding reply_set
  reply_set-Keeps none = flush_nil-Keeps
  reply_set-Keeps (some s) = reply_strings-Keeps (keys s)

  pub or_failure-Keeps :
      {A : Type 0} (r : Result A) (f : A → Run S (Unit {0}))
      → ((a : A) → KeepsAll (f a))
      → KeepsAll (or_failure r f)
  unfolding or_failure
  or_failure-Keeps (ok a) f k = k a
  or_failure-Keeps (err e) f k = say_and_flush (write_failure e)
  or_failure-Keeps panic f k = lift-Keeps P Anything panic tt

  -- A method whose result the handler takes with its error.
  pub attempted :
      {A B : Type 0} (g : S → Result A × S) (f : Result A → Run S B)
      → ((s : S) → P s → P (g s).1)
      → ((r : Result A) → KeepsAll (f r))
      → KeepsAll (attempt (method g) >>= f)
  attempted g f keeps k =
      >>=-Keeps P (OnOk Anything) Anything (attempt (method g)) f
        (attempt-Keeps P Anything (method g) (call g keeps)) (λ r _. k r)

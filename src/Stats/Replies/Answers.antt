-- ===== src/Stats/Replies/Answers.antt =====
-- The replies that the handlers of backends/stats/metrics.go share are the calls of one reply each.
use broadcast.Common.{
  ◌≡◌, refl, sym, ◌∙◌, ap, Bool, true, Option, none, some, List, [], ◌∷◌, ◌++◌, map, append_assoc,
  append-nil, Bytes, Result, ok, err, panic, All, inl, length, length-map,
}
use broadcast.Common.Int.{ℤ}
use broadcast.Dict.{keys}
use broadcast.Stats.Memory.{Set}
use broadcast.Stats.Session.{
  ClientCall, write_int64, write_null, write_error, write_string, write_len, write_failure, flush,
  Session, Run, emit, pure, ◌>>◌,
}
use broadcast.Stats.Session.Answers.{
  is_value, many, Answers, IsQuiet, one_call-Answers, panic-Answers, lift-IsQuiet,
}
use broadcast.Stats.Replies.{
  flush_int, flush_nil, complain, read_int64, write_strings, reply_strings, write_ints, reply_ints,
  reply_set, or_failure,
}

All-values :
    {A : Type 0} (f : A → ClientCall) (xs : List A)
    → ((x : A) → is_value (f x) ≡ true)
    → All (λ c. is_value c ≡ true) (map f xs)
All-values f [] v = tt
All-values f (x ∷ xs) v = (v x, All-values f xs v)

module _ {S : Type 0} where
  abbrev sending : Session S → List ClientCall → Session S
  sending s cs = record s { calls = s.calls ++ cs }

  -- A loop that makes one call for each element makes these calls.
  write_strings-calls :
      (ks : List Bytes) (s : Session S)
      → write_strings ks s ≡ (ok tt, sending s (map write_string ks))
  unfolding write_strings emit pure
  write_strings-calls [] s = ap (λ cs. (ok tt, record s { calls = cs })) (sym (append-nil s.calls))
  write_strings-calls (k ∷ ks) s =
      write_strings-calls ks (sending s (write_string k ∷ []))
      ∙ ap (λ cs. (ok tt, record s { calls = cs }))
          (append_assoc s.calls (write_string k ∷ []) (map write_string ks))

  write_ints-calls :
      (is : List ℤ) (s : Session S) → write_ints is s ≡ (ok tt, sending s (map write_int64 is))
  unfolding write_ints emit pure
  write_ints-calls [] s = ap (λ cs. (ok tt, record s { calls = cs })) (sym (append-nil s.calls))
  write_ints-calls (i ∷ is) s =
      write_ints-calls is (sending s (write_int64 i ∷ []))
      ∙ ap (λ cs. (ok tt, record s { calls = cs }))
          (append_assoc s.calls (write_int64 i ∷ []) (map write_int64 is))

  -- A length, a loop that makes as many calls, and a flush.
  array-Answers :
      {A : Type 0} (silent : Bool) (f : A → ClientCall) (loop : Run S (Unit {0})) (xs : List A)
      → ((x : A) → is_value (f x) ≡ true)
      → ((s : Session S) → loop s ≡ (ok tt, sending s (map f xs)))
      → Answers silent (do emit (write_len b'*' (length xs)); loop; emit flush)
  unfolding emit
  array-Answers silent f loop xs v run = record {
    at = λ s.
        let reply = write_len b'*' (length xs) ∷ map f xs ++ flush ∷ [] in
        rw run (
          reply,
          append_assoc (s.calls ++ write_len b'*' (length xs) ∷ []) (map f xs) (flush ∷ [])
              ∙ append_assoc s.calls (write_len b'*' (length xs) ∷ []) (map f xs ++ flush ∷ []),
          inl (rw (← length-map xs f) (many (map f xs) (All-values f xs v))),
        );
  }

  pub flush_int-Answers : (silent : Bool) (i : ℤ) → Answers {S = S} silent (flush_int i)
  unfolding flush_int
  flush_int-Answers silent i = one_call-Answers silent (write_int64 i) refl

  pub flush_nil-Answers : (silent : Bool) → Answers {S = S} silent flush_nil
  unfolding flush_nil
  flush_nil-Answers silent = one_call-Answers silent write_null refl

  pub complain-Answers : (silent : Bool) (m : Bytes) → Answers {S = S} silent (complain m)
  unfolding complain
  complain-Answers silent m = one_call-Answers silent (write_error m) refl

  pub read_int64-IsQuiet : (d : Bytes) → IsQuiet {S = S} (read_int64 d)
  unfolding read_int64
  read_int64-IsQuiet d = lift-IsQuiet _

  pub reply_strings-Answers :
      (silent : Bool) (ks : List Bytes) → Answers {S = S} silent (reply_strings ks)
  unfolding reply_strings
  reply_strings-Answers silent ks =
      array-Answers silent write_string (write_strings ks) ks (λ k. refl) (write_strings-calls ks)

  pub reply_ints-Answers : (silent : Bool) (is : List ℤ) → Answers {S = S} silent (reply_ints is)
  unfolding reply_ints
  reply_ints-Answers silent [] =
      array-Answers silent write_int64 (write_ints []) [] (λ i. refl) (write_ints-calls [])
  reply_ints-Answers silent (i ∷ []) = one_call-Answers silent (write_int64 i) refl
  reply_ints-Answers silent (i ∷ j ∷ is) =
      array-Answers silent write_int64 (write_ints (i ∷ j ∷ is)) (i ∷ j ∷ is) (λ i. refl)
        (write_ints-calls (i ∷ j ∷ is))

  pub reply_set-Answers : (silent : Bool) (s : Option Set) → Answers {S = S} silent (reply_set s)
  unfolding reply_set
  reply_set-Answers silent none = flush_nil-Answers silent
  reply_set-Answers silent (some s) = reply_strings-Answers silent (keys s)

  pub or_failure-Answers :
      {A : Type 0} (silent : Bool) (r : Result A) (f : A → Run S (Unit {0}))
      → ((a : A) → Answers silent (f a))
      → Answers silent (or_failure r f)
  unfolding or_failure
  or_failure-Answers silent (ok a) f k = k a
  or_failure-Answers silent (err e) f k = one_call-Answers silent (write_failure e) refl
  or_failure-Answers silent panic f k = panic-Answers silent

-- ===== src/Stats/Commands/Sets.antt =====
-- What a client of the memory backend sees of SADD, SREM and SDIFF.
use broadcast.Common.{
  ℕ, ◌+◌, ◌^◌, ◌<◌, ◌≤◌, ◌≡◌, refl, ◌∙◌, inl, inr, Bool-cases, not, ◌&&◌, ◌||◌, List, [], ◌∷◌, ◌++◌,
  arith, append_assoc, append-nil, Bytes, ok, some, same, length, map, ◌==◌, if◌then◌else◌,
}
use broadcast.Common.Int.{ℤ, pos, add64-pos}
use broadcast.Dict.{lookup, has, keys}
use broadcast.Dict.Keys.{among, has-empty}
use broadcast.Stats.Memory.{MemoryBackend, Set}
use broadcast.Stats.Memory.Sets
use broadcast.Stats.Memory.Sets.Algebra.{is_in, in_some, sdiff_members}
use broadcast.Stats.Memory.Sets.Count.{card, sadd_adds}
use broadcast.Stats.Metrics.{memory}
use broadcast.Stats.Session.{bulk, write_len, write_string, flush}
use broadcast.Stats.SetHandlers
use broadcast.Stats.Replies.{write_strings, reply_strings}
use broadcast.Stats.Commands.{handle, run_command, sadd, sdiff}
use broadcast.Stats.Commands.Values.{St, replying}

-- What the loop of SADD did between two states: so many values were new.
record Added (key : Bytes) (values : List Bytes) (n : ℕ) (mem mem' : MemoryBackend) : Type 0 where
  grown : card mem'.sets key ≡ card mem.sets key + n
  bounded : n ≤ length values
  members :
      (other j : Bytes)
      → is_in mem'.sets j other ≡ ((same key other && among j values) || is_in mem.sets j other)

-- An array of strings and a flush behind the calls that were made.
abbrev pub listing : St → List Bytes → St
listing s ks = record s {
  calls = ((s.calls ++ write_len b'*' (length ks) ∷ []) ++ map write_string ks) ++ flush ∷ [];
}

module _ (per_second : ℤ → ℕ → ℕ → ℕ) where
  sadd_each-Added :
      (key : Bytes) (values : List Bytes) (start : ℕ) (s : St)
      → start + length values < 2 ^ 63
      → (n : ℕ) × (mem' : MemoryBackend) × (SetHandlers.sadd_each
            (memory per_second)
            key
            values
            (pos start)
            s
          ≡ (ok (pos (start + n)), record s { state = mem' }))
        × Added key values n s.state mem'
  unfolding SetHandlers.sadd_each
  sadd_each-Added key [] start s h = (
    0,
    s.state,
    (let e : start + 0 ≡ start = omega arith in rw e refl),
    record {
      grown = omega arith;
      bounded = omega arith;
      members = λ other j. unfold among in ground arith;
    },
  )
  sadd_each-Added key (v ∷ values) start s h =
      let mem' = (Sets.sadd key v s.state).1 in
      let k : ℕ = if is_in s.state.sets v key then 0 else 1 in
      let one = sadd_adds key v key v s.state in
      let small : k ≤ 1 = ground arith in
      let (n, mem'', run, rest) =
        sadd_each-Added key values (start + k) (record s { state = mem' }) (omega arith) in
      let sum : start + k + n ≡ start + (k + n) = omega arith in
      (
        k + n,
        mem'',
        rw (one.0, add64-pos start k (omega arith), run, sum) refl,
        record {
          grown = omega (arith, rest.grown, one.2);
          bounded = omega (arith, rest.bounded);
          members = λ other j.
              rest.members other j
              ∙ unfold among in ground (arith, (sadd_adds key v other j s.state).1);
        },
      )

  -- SADD of members that are fewer than 2^63 replies with the number by which the set has grown. Afterwards
  -- exactly the named values have joined the set, and all other members of all sets stay.
  pub sadd_counts :
      (key v : Bytes) (values : List Bytes) (s : St)
      → length (v ∷ values) < 2 ^ 63
      → (n : ℕ) × (mem' : MemoryBackend) × (run_command
            (memory per_second)
            sadd
            (bulk (key ∷ v ∷ values))
            s
          ≡ (ok tt, replying s (pos n) mem'))
        × (card mem'.sets key ≡ card s.state.sets key + n)
        × ((other j : Bytes)
            → is_in mem'.sets j other
              ≡ ((same key other && among j (v ∷ values)) || is_in s.state.sets j other))
  unfolding run_command handle SetHandlers.sadd
  sadd_counts key v values s h =
      let (n, mem', run, added) = sadd_each-Added key (v ∷ values) 0 s (omega arith) in
      let zero_left : 0 + n ≡ n = omega arith in
      (n, mem', rw (run, zero_left) refl, added.grown, added.members)

  write_strings-calls :
      (ks : List Bytes) (s : St)
      → write_strings ks s ≡ (ok tt, record s { calls = s.calls ++ map write_string ks })
  unfolding write_strings
  write_strings-calls [] s = rw append-nil refl
  write_strings-calls (k ∷ ks) s =
      write_strings-calls ks (record s { calls = s.calls ++ write_string k ∷ [] })
      ∙ rw append_assoc refl

  reply_strings-calls : (ks : List Bytes) (s : St) → reply_strings ks s ≡ (ok tt, listing s ks)
  unfolding reply_strings
  reply_strings-calls ks s =
      rw (write_strings-calls ks (record s { calls = s.calls ++ write_len b'*' (length ks) ∷ [] }))
        refl

  sdiff_each-members :
      (d : List Bytes) (results : Set) (s : St)
      → (r : Set) × (SetHandlers.sdiff_each (memory per_second) d results s ≡ (ok r, s))
        × ((j : Bytes) → has j r ≡ (has j results && not (in_some s.state.sets j d)))
  unfolding SetHandlers.sdiff_each in_some
  sdiff_each-members [] results s = (results, refl, λ j. ground arith)
  sdiff_each-members (v ∷ d) results s =
      let (one, step, members) = sdiff_members results v s.state in
      elim (Bool-cases (length one == 0)) [
        | inl empty ↦ (
          one,
          rw (step, empty) refl,
          λ j. ground (arith, members j, has-empty one j (ground arith)),
        )
        | inr more ↦
            let (r, run, others) = sdiff_each-members d one s in
            (r, rw (step, more) run, λ j. ground (arith, members j, others j))
      ]

  -- SDIFF of a set that is there and others replies with the members of the first that are in none of
  -- the others, missing ones counting as empty, and changes nothing.
  pub sdiff_replies :
      (k v : Bytes) (d : List Bytes) (first : Set) (s : St)
      → lookup k s.state.sets ≡ some first
      → (r : Set) × (run_command (memory per_second) sdiff (bulk (k ∷ v ∷ d)) s
          ≡ (ok tt, listing s (keys r)))
        × ((j : Bytes) → has j r ≡ (has j first && not (in_some s.state.sets j (v ∷ d))))
  unfolding run_command handle SetHandlers.sdiff Sets.smembers SetHandlers.sdiff_from
  sdiff_replies k v d first s e =
      let (r, run, members) = sdiff_each-members (v ∷ d) first s in
      (r, rw (e, run) (reply_strings-calls (keys r) s), members)

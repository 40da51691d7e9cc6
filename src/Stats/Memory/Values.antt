-- ===== src/Stats/Memory/Values.antt =====
-- What the methods on the integer values do, as seen through the stored values and the replies.
use broadcast.Common.{
  ◌+◌, ◌≡◌, ◌^◌, ◌-◌, ◌≢◌, refl, sym, inl, inr, Option, none, some, Bool, true, false, arith, Bytes,
  Result, ok, err, key_not_found, same, same_iff, same_refl, if◌then◌else◌,
}
use broadcast.Common.Int.{ℤ, pos, negsuc, add64, sub64, IsInt64, add64-zero, neg64_self}
use broadcast.Dict.{Dict, lookup, insert, has, lookup-insert, lookup-remove}
use broadcast.Stats.Memory.{MemoryBackend, incr_by, decr_by, del}

-- The value of a key, 0 where there is none.
abbrev pub value_or_zero : Option ℤ → ℤ
value_or_zero none = pos 0
value_or_zero (some v) = v

abbrev pub found : Option ℤ → Result ℤ
found none = err key_not_found
found (some v) = ok v

abbrev pub present : Option ℤ → Bool
present none = false
present (some v) = true

-- What two states share when only the value of one key may differ.
pub record OnlyValue (name : Bytes) (mem mem' : MemoryBackend) : Type 0 where
  pub others : (j : Bytes) → j ≢ name → lookup j mem'.values ≡ lookup j mem.values
  pub counters : mem'.counters ≡ mem.counters
  pub sets : mem'.sets ≡ mem.sets

OnlyValue-insert :
    (name : Bytes) (v : ℤ) (mem : MemoryBackend)
    → OnlyValue name mem (record mem { values = insert name v mem.values })
OnlyValue-insert name v mem = record {
  others = λ j h. ground (arith, lookup-insert name j v mem.values, same_iff name j);
  counters = refl;
  sets = refl;
}

pub lookup-insert_self :
    (name : Bytes) (v : ℤ) (d : Dict ℤ) → lookup name (insert name v d) ≡ some v
lookup-insert_self name v d = simp (lookup-insert, same_refl)

abbrev pub storing : Bytes → ℤ → MemoryBackend → MemoryBackend
storing name v mem = record mem { values = insert name v mem.values }

pub incr_by-storing :
    (name : Bytes) (count : ℤ) (mem : MemoryBackend)
    → IsInt64 count
    → incr_by name count mem ≡ (
      ok (add64 (value_or_zero (lookup name mem.values)) count),
      storing name (add64 (value_or_zero (lookup name mem.values)) count) mem,
    )
unfolding incr_by
incr_by-storing name count mem h = ground (arith, add64-zero count h)

decr_by-storing :
    (name : Bytes) (count : ℤ) (mem : MemoryBackend)
    → decr_by name count mem ≡ (
      ok (
          if present (lookup name mem.values)
          then sub64 (value_or_zero (lookup name mem.values)) count
          else count),
      storing name (sub64 (value_or_zero (lookup name mem.values)) count) mem,
    )
unfolding decr_by
decr_by-storing name count mem = ground arith

-- DECR stores the old value (0 for a missing key) minus the count, modulo 2^64, and leaves the
-- rest. It replies with what it stored if the key was there, and with the count if it was not.
pub decr_by_stores :
    (name : Bytes) (count : ℤ) (mem : MemoryBackend)
    → ((decr_by name count mem).0
        ≡ ok (
            if present (lookup name mem.values)
            then sub64 (value_or_zero (lookup name mem.values)) count
            else count))
      × (lookup name (decr_by name count mem).1.values
          ≡ some (sub64 (value_or_zero (lookup name mem.values)) count))
      × OnlyValue name mem (decr_by name count mem).1
decr_by_stores name count mem =
    rw (decr_by-storing name count mem)
      (refl, lookup-insert_self name _ mem.values, OnlyValue-insert name _ mem)

-- DECR of a missing key by a count other than 0 and -2^63 does not reply with what it stored.
decr_by_missing :
    (name : Bytes) (count : ℤ) (mem : MemoryBackend)
    → lookup name mem.values ≡ none
    → IsInt64 count
    → count ≢ pos 0
    → count ≢ negsuc (2 ^ 63 - 1)
    → (decr_by name count mem).0 ≢ found (lookup name (decr_by name count mem).1.values)
decr_by_missing name count mem absent h n0 n1 e =
    let (reply, stored, _) = decr_by_stores name count mem in
    let same : count ≡ sub64 (pos 0) count = ground arith in
    elim (neg64_self count h (sym same)) [ inl z ↦ n0 z | inr z ↦ n1 z ]

-- DEL removes the key from the values and from the counters, keeps all else, and replies in how many of
-- the two it was.
del_removes :
    (name j : Bytes) (mem : MemoryBackend)
    → ((del name mem).0
        ≡ ok (
            pos
              ((if has name mem.values then 1 else 0) + (if has name mem.counters then 1 else 0))))
      × (lookup j (del name mem).1.values ≡ (if same name j then none else lookup j mem.values))
      × (lookup j (del name mem).1.counters ≡ (if same name j then none else lookup j mem.counters))
      × ((del name mem).1.sets ≡ mem.sets)
unfolding del has
del_removes name j mem =
    let values = lookup-remove name j mem.values in
    let counters = lookup-remove name j mem.counters in
    (
      ground (arith, same_iff name j),
      ground (arith, same_iff name j),
      ground (arith, same_iff name j),
      ground (arith, same_iff name j),
    )

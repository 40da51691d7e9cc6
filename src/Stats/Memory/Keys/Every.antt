-- ===== src/Stats/Memory/Keys/Every.antt =====
-- What KEYS returns for all keys.
use broadcast.Common.{◌≡◌, refl, List, [], ◌∷◌, Bytes, codes, ok, length, replicate, same}
use broadcast.Dict.{keys}
use broadcast.Dict.Keys.{length-keys}
use broadcast.Stats.Memory.{MemoryBackend}
use broadcast.Stats.Memory.Keys.{fill, keys_of}

-- The last of the keys that the loop visits.
abbrev pub last_of : Bytes → List Bytes → Bytes
last_of k [] = k
last_of k (j ∷ ks) = last_of j ks

fill_first :
    (k : Bytes) (ks : List Bytes) (r : Bytes) (rs : List Bytes)
    → fill (k ∷ ks) 0 (r ∷ rs) ≡ last_of k ks ∷ rs
unfolding fill
fill_first k [] r rs = refl
fill_first k (j ∷ ks) r rs = fill_first j ks k rs

-- The answer to KEYS with no pattern or `*`.
abbrev pub every_key : List Bytes → List Bytes
every_key [] = []
every_key (k ∷ ks) = last_of k ks ∷ replicate (length ks) []

fill-every_key : (ks : List Bytes) → fill ks 0 (replicate (length ks) []) ≡ every_key ks
fill-every_key [] = unfold fill in refl
fill-every_key (k ∷ ks) = fill_first k ks [] (replicate (length ks) [])

-- With no pattern, or the pattern `*`, KEYS returns as many strings as there are values, but only the first
-- is a key, the last one that the loop visited: the others are empty strings.
pub keys_of_all :
    (mem : MemoryBackend)
    → (keys_of [] mem ≡ (ok (every_key (keys mem.values)), mem))
      × (keys_of (codes "*") mem ≡ (ok (every_key (keys mem.values)), mem))
unfolding keys_of same
keys_of_all mem =
    let same_length = length-keys mem.values in
    (rw (← same_length) (rw fill-every_key), rw (← same_length) (rw fill-every_key))

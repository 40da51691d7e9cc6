-- ===== src/Stats/Memory/Keys.antt =====
-- backends/stats/memorybackend.go: `Keys` and its matching of patterns. The result of
-- `strings.TrimLeft` in the loop is always overwritten before it is read, or never read.
pub mod Every
pub mod Patterns
pub mod Split
use broadcast.Common.{
  ℕ, zero, suc, ◌≡◌, Option, none, some, Bool, true, false, ◌||◌, ◌&&◌, List, [], ◌∷◌, ◌++◌, Bytes,
  codes, Result, ok, length, replicate, ◌==◌, same, if◌then◌else◌,
}
use broadcast.Common.Int.{ℤ}
use broadcast.Dict.{Dict, keys}
use broadcast.Stats.Memory.{MemoryBackend, Method}

-- strings.HasPrefix(s, p)
unfoldable pub has_prefix : Bytes → Bytes → Bool
has_prefix s [] = true
has_prefix [] (c ∷ p) = false
has_prefix (d ∷ s) (c ∷ p) = d == c && has_prefix s p

-- k[strings.Index(k, q):], and `none` for a negative index
unfoldable pub find : Bytes → Bytes → Option Bytes
find [] q = if has_prefix [] q then some [] else none
find (c ∷ k) q = let later = find k q in if has_prefix (c ∷ k) q then some (c ∷ k) else later

-- strings.Split(s, sep) for a separator of one byte; `cur` is the part that is being read.
pub split_from : ℕ → Bytes → Bytes → List Bytes
split_from sep cur [] = cur ∷ []
split_from sep cur (c ∷ s) =
    let cut = cur ∷ split_from sep [] s in
    let more = split_from sep (cur ++ c ∷ []) s in if c == sep then cut else more

unfoldable pub split : Bytes → ℕ → List Bytes
unfolding split_from
split s sep = split_from sep [] s

-- The loop over the parts of a pattern, for the key `k` from its rest `s`: parts are taken in
-- pairs, a prefix of `s` and then a text that is sought in the whole of `k`.
unfoldable pub matches : Bytes → Bytes → List Bytes → Bool
unfolding has_prefix find
matches k s [] = true
matches k s (p ∷ []) = has_prefix s p
matches k s (p ∷ q ∷ parts) =
    if has_prefix s p
    then elim (find k q) [ none ↦ false | some s' ↦ matches k s' parts ]
    else false

-- results[iter] = k; out of range this would panic, and `iter` is 0 in a result that is not empty
put_at : List Bytes → ℕ → Bytes → List Bytes
put_at [] i k = []
put_at (r ∷ rs) zero k = k ∷ rs
put_at (r ∷ rs) (suc i) k = r ∷ put_at rs i k

-- The loop of the branch for all keys; `iter` is never increased.
unfoldable pub fill : List Bytes → ℕ → List Bytes → List Bytes
unfolding put_at
fill [] iter results = results
fill (k ∷ ks) iter results = fill ks iter (put_at results iter k)

unfoldable pub pick : (Bytes → Bool) → List Bytes → List Bytes
pick p [] = []
pick p (k ∷ ks) = let rest = pick p ks in if p k then k ∷ rest else rest

-- len(patterns) == 1: there is no star
pub keys_by : Bytes → List Bytes → List Bytes → List Bytes
unfolding pick matches
keys_by pattern (p ∷ []) ks = pick (λ k. same k pattern) ks
keys_by pattern parts ks = pick (λ k. matches k k parts) ks

unfoldable pub keys_of : Bytes → Method (List Bytes)
unfolding fill keys_by split
keys_of pattern mem =
    if same pattern [] || same pattern (codes "*")
    then (ok (fill (keys mem.values) 0 (replicate (length mem.values) [])), mem)
    else (ok (keys_by pattern (split pattern b'*') (keys mem.values)), mem)

-- ===== src/Decimal/Range.antt =====
-- ParseInt returns int64s.
use broadcast.Common.{
  ℕ, ◌==◌, ◌>>=◌, [], ◌∷◌, arith, Bytes, Result, ok, err, panic, Bool-cases, inl, inr,
}
use broadcast.Common.Int.{ℤ, IsInt64}
use broadcast.Decimal.{parse_uint, positive, negative, parse_int}

-- The value of a result is an int64.
abbrev pub Fits : Result ℤ → Type 0
Fits (ok z) = IsInt64 z
Fits (err e) = Unit
Fits panic = Unit

positive-Fits : (w : Bytes) (n : ℕ) → Fits (positive w n)
unfolding positive
positive-Fits w n = ground arith

negative-Fits : (w : Bytes) (n : ℕ) → Fits (negative w n)
unfolding negative
negative-Fits w n = ground arith

>>=-Fits : (r : Result ℕ) (f : ℕ → Result ℤ) → ((n : ℕ) → Fits (f n)) → Fits (r >>= f)
>>=-Fits (ok n) f h = h n
>>=-Fits (err e) f h = tt
>>=-Fits panic f h = tt

-- What ParseInt returns lies in the range of an int64.
pub parse_int-Fits : (b : Bytes) → Fits (parse_int b)
unfolding parse_int
parse_int-Fits [] = tt
parse_int-Fits (c ∷ s) = elim (Bool-cases (c == b'-')) [
  | inl minus ↦ rw minus (>>=-Fits (parse_uint (c ∷ s) s) _ (negative-Fits (c ∷ s)))
  | inr other ↦ elim (Bool-cases (c == b'+')) [
    | inl plus ↦ rw (other, plus) (>>=-Fits (parse_uint (c ∷ s) s) _ (positive-Fits (c ∷ s)))
    | inr digit ↦
        rw (other, digit) (>>=-Fits (parse_uint (c ∷ s) (c ∷ s)) _ (positive-Fits (c ∷ s)))
  ]
]

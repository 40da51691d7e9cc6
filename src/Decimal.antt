-- ===== src/Decimal.antt =====
-- The two functions of Go's strconv that the program calls on integers: `ParseInt(s, 10, 64)` and
-- `AppendInt(nil, n, 10)`.
pub mod RoundTrip
pub mod Range
use broadcast.Common.{
  ℕ, zero, suc, ◌+◌, ◌-◌, ◌*◌, ◌/◌, ◌%◌, ◌^◌, ◌≡◌, refl, Bool, true, false, ◌||◌, [], ◌∷◌, arith,
  Bytes, codes, Result, ok, err, panic, int_syntax, int_range, ◌>>=◌, ltb, leb, ◌==◌, if◌then◌else◌,
}
use broadcast.Common.Int.{ℤ, pos, negsuc}

abbrev pub max_u64 : ℕ
max_u64 = 2 ^ 64 - 1

-- The loop of `ParseUint`: `whole` is the text for the error, `n` what the digits so far spell.
pub scan : Bytes → Bytes → ℕ → Result ℕ
scan whole [] n = ok n
scan whole (c ∷ s) n =
    let rest = scan whole s (n * 10 + (c - b'0')) in
    if ltb c b'0' || ltb b'9' c
    then err (int_syntax whole)
    else if ltb max_u64 (n * 10 + (c - b'0'))
    then err (int_range whole)
    else rest

pub parse_uint : Bytes → Bytes → Result ℕ
unfolding scan
parse_uint whole [] = err (int_syntax whole)
parse_uint whole (c ∷ s) = scan whole (c ∷ s) 0

-- The sign and the range of an int64.
positive : Bytes → ℕ → Result ℤ
positive whole n = if leb (2 ^ 63) n then err (int_range whole) else ok (pos n)

negative : Bytes → ℕ → Result ℤ
negative whole n =
    if ltb (2 ^ 63) n
    then err (int_range whole)
    else if n == 0
    then ok (pos 0)
    else ok (negsuc (n - 1))

unfoldable pub parse_int : Bytes → Result ℤ
unfolding parse_uint positive negative
parse_int [] = err (int_syntax [])
parse_int (c ∷ s) =
    if c == b'-'
    then (do n ← parse_uint (c ∷ s) s; negative (c ∷ s) n)
    else if c == b'+'
    then (do n ← parse_uint (c ∷ s) s; positive (c ∷ s) n)
    else (do n ← parse_uint (c ∷ s) (c ∷ s); positive (c ∷ s) n)

-- Digits from the last to the first; an int64 has at most 20.
pub digits : ℕ → ℕ → Bytes → Bytes
digits zero n out = out
digits (suc f) n out =
    let rest = digits f (n / 10) ((b'0' + n % 10) ∷ out) in if n == 0 then out else rest

pub format_uint : ℕ → Bytes
unfolding digits
format_uint n = if n == 0 then b'0' ∷ [] else digits 20 n []

unfoldable pub format_int : ℤ → Bytes
unfolding format_uint
format_int (pos n) = format_uint n
format_int (negsuc n) = b'-' ∷ format_uint (n + 1)

parse_samples :
    (parse_int (codes "-12") ≡ ok (negsuc 11))
    × (parse_int (codes "+7") ≡ ok (pos 7))
    × (parse_int (codes "9223372036854775808") ≡ err (int_range (codes "9223372036854775808")))
    × (parse_int (codes "-9223372036854775808") ≡ ok (negsuc 9223372036854775807))
    × (parse_int (codes "1x") ≡ err (int_syntax (codes "1x")))
    × (parse_int (codes "-") ≡ err (int_syntax (codes "-")))
unfolding parse_int
parse_samples = (refl, refl, refl, refl, refl, refl)

format_samples :
    (format_int (negsuc 9223372036854775807) ≡ codes "-9223372036854775808")
    × (format_int (pos 0) ≡ codes "0")
    × (format_int (pos 1200) ≡ codes "1200")
unfolding format_int
format_samples = (refl, refl, refl)

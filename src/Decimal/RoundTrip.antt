-- ===== src/Decimal/RoundTrip.antt =====
-- Every int64 is read back from its print, and a print is short and is one line.
use native.Mathlib.Nat.{pow-suc}
use mathlib.Core.List.{cons-ne-nil}
use broadcast.Common.{
  ℕ, zero, suc, ◌+◌, ◌*◌, ◌/◌, ◌%◌, ◌^◌, ◌≤◌, ◌<◌, ◌≡◌, ◌≢◌, refl, [], ◌∷◌, arith, Bytes, All,
  length, ok, err, int_range, ◌>>=◌, leb, if◌then◌else◌,
}
use broadcast.Common.Int.{ℤ, pos, negsuc, IsInt64}
use broadcast.Decimal.{scan, parse_uint, parse_int, digits, format_uint, format_int, max_u64}

abbrev pub IsDigit : ℕ → Type 0
IsDigit c = (b'0' ≤ c) × (c ≤ b'9')

tenth : (f n : ℕ) → n < 10 ^ suc f → n / 10 < 10 ^ f
tenth f n h = let e : 10 ^ suc f ≡ 10 ^ f * 10 = pow-suc 10 f in omega arith

-- reading the last digit of `n` after the digits before it gives `n`
scan_last :
    (w : Bytes) (n : ℕ) (out : Bytes)
    → n ≤ max_u64
    → scan w ((b'0' + n % 10) ∷ out) (n / 10) ≡ scan w out n
unfolding scan
scan_last w n out h = ground arith

scan-digits :
    (w : Bytes) (f n : ℕ) (out : Bytes)
    → n < 10 ^ f
    → n ≤ max_u64
    → scan w (digits f n out) 0 ≡ scan w out n
unfolding digits
scan-digits w zero n out h k = ground arith
scan-digits w (suc f) n out h k =
    ground
      (arith, tenth f n h, scan-digits w f (n / 10) ((b'0' + n % 10) ∷ out), scan_last w n out k)

digits-All : (f n : ℕ) (out : Bytes) → All IsDigit out → All IsDigit (digits f n out)
unfolding digits
digits-All zero n out h = h
digits-All (suc f) n out h =
    ground (arith, digits-All f (n / 10) ((b'0' + n % 10) ∷ out) ((omega arith, omega arith), h))

digits-ne-nil : (f n : ℕ) (out : Bytes) → out ≢ [] → digits f n out ≢ []
unfolding digits
digits-ne-nil zero n out h = h
digits-ne-nil (suc f) n out h =
    ground (arith, h, digits-ne-nil f (n / 10) ((b'0' + n % 10) ∷ out) (cons-ne-nil _ _))

length-digits : (f n : ℕ) (out : Bytes) → length (digits f n out) ≤ f + length out
unfolding digits
length-digits zero n out = omega arith
length-digits (suc f) n out = ground (arith, length-digits f (n / 10) ((b'0' + n % 10) ∷ out))

format_uint-All : (n : ℕ) → All IsDigit (format_uint n)
unfolding format_uint
format_uint-All n = ground (arith, digits-All 20 n [] tt)

format_uint-ne-nil : (n : ℕ) → format_uint n ≢ []
unfolding format_uint digits
format_uint-ne-nil n =
    ground (arith, digits-ne-nil 19 (n / 10) ((b'0' + n % 10) ∷ []) (cons-ne-nil _ _))

length-format_uint : (n : ℕ) → length (format_uint n) ≤ 20
unfolding format_uint
length-format_uint n = ground (arith, length-digits 20 n [])

parse_uint-scan : (w s : Bytes) → s ≢ [] → parse_uint w s ≡ scan w s 0
unfolding parse_uint
parse_uint-scan w [] h = absurd (h refl)
parse_uint-scan w (c ∷ s) h = refl

parse_uint-format : (w : Bytes) (n : ℕ) → n ≤ max_u64 → parse_uint w (format_uint n) ≡ ok n
parse_uint-format w n h =
    rw (parse_uint-scan w _ (format_uint-ne-nil n))
      (unfold format_uint scan in ground (arith, scan-digits w 20 n [] (omega arith) h))

parse_int-digits :
    (s : Bytes)
    → s ≢ []
    → All IsDigit s
    → parse_int s
      ≡ (do n ← parse_uint s s; if leb (2 ^ 63) n then err (int_range s) else ok (pos n))
unfolding parse_int
parse_int-digits [] h a = absurd (h refl)
parse_int-digits (c ∷ s) h a = ground arith

-- Every int64 is read back from its decimal print.
pub parse_int-format_int : (z : ℤ) → IsInt64 z → parse_int (format_int z) ≡ ok z
unfolding format_int
parse_int-format_int (pos n) h =
    rw
      (
        parse_int-digits _ (format_uint-ne-nil n) (format_uint-All n),
        parse_uint-format _ n (omega arith),
      )
      (ground arith)
parse_int-format_int (negsuc n) h =
    unfold parse_int in rw (parse_uint-format _ (n + 1) (omega arith)) (ground arith)

pub length-format_int : (z : ℤ) → length (format_int z) ≤ 21
unfolding format_int
length-format_int (pos n) = omega (arith, length-format_uint n)
length-format_int (negsuc n) = omega (arith, length-format_uint (n + 1))

-- No byte is a newline.
abbrev pub OneLine : Bytes → Type 0
OneLine = All (λ c. c ≢ 10)

digits-OneLine : (s : Bytes) → All IsDigit s → OneLine s
digits-OneLine [] h = tt
digits-OneLine (c ∷ s) (d, h) = ((λ e. omega arith), digits-OneLine s h)

pub format_int-OneLine : (z : ℤ) → OneLine (format_int z)
unfolding format_int
format_int-OneLine (pos n) = digits-OneLine _ (format_uint-All n)
format_int-OneLine (negsuc n) = ((λ e. omega arith), digits-OneLine _ (format_uint-All (n + 1)))

pub format_int-ne-nil : (z : ℤ) → format_int z ≢ []
unfolding format_int
format_int-ne-nil (pos n) = format_uint-ne-nil n
format_int-ne-nil (negsuc n) = cons-ne-nil _ _

All-weaken : {P Q : ℕ → Type 0} → ((c : ℕ) → P c → Q c) → (s : Bytes) → All P s → All Q s
All-weaken f [] h = tt
All-weaken f (c ∷ s) (x, h) = (f c x, All-weaken f s h)

-- The bytes of a print are digits, and a minus.
pub format_int-All :
    {P : ℕ → Type 0} → ((c : ℕ) → IsDigit c → P c) → P b'-' → (z : ℤ) → All P (format_int z)
unfolding format_int
format_int-All f m (pos n) = All-weaken f _ (format_uint-All n)
format_int-All f m (negsuc n) = (m, All-weaken f _ (format_uint-All (n + 1)))

-- ===== src/Wire/Fuel.antt =====
-- The fuel of ReadInterface: any amount above the length of the input gives the same result.
use native.Mathlib.Decide.{dec_lt}
use broadcast.Common.{
  ℕ, zero, suc, ◌+◌, ◌≤◌, ◌<◌, ◌≡◌, refl, [], ◌∷◌, arith, Bytes, Result, ok, err, eof, panic, ◌>>=◌,
  ◌-◌, length, length-drop, drop,
}
use broadcast.Common.Int.{ℤ, pos, negsuc}
use broadcast.Wire.{Value, Platform}
use broadcast.Wire.Read.{
  Read, read_slice, read_line, read_full, read_header, read_body, read_sized, parse_int64,
  parse_string, make_slice, read_many, read_bulk, read_array, read_structure, dispatch,
  read_interface_within, read_interface, buffer_size,
}

-- How much a read leaves of its input, 0 when it fails.
abbrev pub left {ℓ} : {A : Type ℓ} → Result (A × Bytes) → ℕ
left (ok (a, rest)) = length rest
left (err e) = 0
left panic = 0

pub left-read_slice : (room : ℕ) (s : Bytes) → left (read_slice room s) ≤ length s - 1
unfolding read_slice
left-read_slice zero s = omega arith
left-read_slice (suc room) [] = omega arith
left-read_slice (suc room) (c ∷ s) = ground (arith, left-read_slice room s)

left-read_line : (s : Bytes) → left (read_line s) ≤ length s - 1
unfolding read_line
left-read_line s = ground (arith, left-read_slice buffer_size s)

pub left-read_header : (s : Bytes) → left (read_header s) ≤ length s - 1
unfolding read_header
left-read_header s = ground (arith, left-read_line s)

left-read_full : (n : ℕ) (s : Bytes) → left (read_full n s) ≤ length s
unfolding read_full
left-read_full n s = ground (arith, length-drop n s)

left-read_sized : (n : ℕ) (s : Bytes) → left (read_sized n s) ≤ length s
unfolding read_sized read_full
left-read_sized n s = ground (arith, length-drop n s, left-read_line (drop n s))

pub left-read_body : (n : ℤ) (s : Bytes) → left (read_body n s) ≤ length s
unfolding read_body make_slice
left-read_body (pos n) s = ground (arith, left-read_sized n s)
left-read_body (negsuc zero) s = omega arith
left-read_body (negsuc (suc n)) s = omega arith

module _ {A B : Type 0} where
  pub left->>= :
      (m : Result (A × Bytes)) (k : A × Bytes → Result (B × Bytes)) (b : ℕ)
      → left m ≤ b
      → ((a : A) (rest : Bytes) → length rest ≤ b → left (k (a, rest)) ≤ b)
      → left (m >>= k) ≤ b
  left->>= (ok (a, rest)) k b h hk = hk a rest h
  left->>= (err e) k b h hk = omega arith
  left->>= panic k b h hk = omega arith

  >>=-agree :
      (m : Result (A × Bytes)) (k k' : A × Bytes → Result (B × Bytes)) (b : ℕ)
      → left m ≤ b
      → ((a : A) (rest : Bytes) → length rest ≤ b → k (a, rest) ≡ k' (a, rest))
      → (m >>= k) ≡ (m >>= k')
  >>=-agree (ok (a, rest)) k k' b h hk = hk a rest h
  >>=-agree (err e) k k' b h hk = refl
  >>=-agree panic k k' b h hk = refl

  pub left-lift :
      (m : Result A) (k : A → Result (B × Bytes)) (b : ℕ)
      → ((a : A) → left (k a) ≤ b)
      → left (m >>= k) ≤ b
  left-lift (ok a) k b h = h a
  left-lift (err e) k b h = omega arith
  left-lift panic k b h = omega arith

  lift-agree :
      (m : Result A) (k k' : A → Result (B × Bytes))
      → ((a : A) → k a ≡ k' a)
      → (m >>= k) ≡ (m >>= k')
  lift-agree (ok a) k k' h = h a
  lift-agree (err e) k k' h = refl
  lift-agree panic k k' h = refl

-- The reads agree on every input up to a length.
abbrev Agree : Read Value → Read Value → ℕ → Type 0
Agree read read' n = (t : Bytes) → length t ≤ n → read t ≡ read' t

abbrev Shrinks : Read Value → Type 0
Shrinks read = (t : Bytes) → left (read t) ≤ length t

left-read_many :
    (read : Read Value) (n : ℕ) (s : Bytes) → Shrinks read → left (read_many read n s) ≤ length s
unfolding read_many
left-read_many read zero s h = omega arith
left-read_many read (suc n) s h = left->>= (read s) _ (length s) (h s) λ v rest l.
    left->>= (read_many read n rest) _ (length s) (omega (arith, left-read_many read n rest h))
      (λ vs rest' l'. l')

read_many-Agree :
    (read read' : Read Value) (n : ℕ) (s : Bytes)
    → Shrinks read
    → Agree read read' (length s)
    → read_many read n s ≡ read_many read' n s
unfolding read_many
read_many-Agree read read' zero s h a = refl
read_many-Agree read read' (suc n) s h a = rw (← a s (omega arith)) (
    >>=-agree (read s) _ _ (length s) (h s)
      λ v rest l. rw (read_many-Agree read read' n rest h (λ t m. a t (omega arith))) refl)

left-read_bulk : (b s : Bytes) → left (read_bulk b s) ≤ length s
unfolding read_bulk
left-read_bulk b s =
    left-lift (parse_int64 b) _ (length s)
      λ n. left->>= (read_body n s) _ (length s) (left-read_body n s) (λ body rest l. l)

left-read_array :
    (read : Read Value) (b s : Bytes) → Shrinks read → left (read_array read b s) ≤ length s
unfolding read_array
left-read_array read b s h = left-lift (parse_int64 b) _ (length s) λ n.
    left-lift (make_slice 16 n) _ (length s) λ size.
      left->>= (read_many read size s) _ (length s) (left-read_many read size s h) (λ vs rest l. l)

left-read_structure :
    (p : Platform) (read : Read Value) (b s : Bytes)
    → Shrinks read
    → left (read_structure p read b s) ≤ length s
unfolding read_structure parse_string
left-read_structure p read b s h = left->>= (read s) _ (length s) (h s) λ r rest l. ground arith

left-dispatch :
    (p : Platform) (read : Read Value) (c : ℕ) (b s : Bytes)
    → Shrinks read
    → left (dispatch p read c b s) ≤ length s
unfolding dispatch
left-dispatch p read c b s h =
    ground (arith, left-read_bulk b s, left-read_array read b s h, left-read_structure p read b s h)

dispatch-Agree :
    (p : Platform) (read read' : Read Value) (c : ℕ) (b s : Bytes)
    → Shrinks read
    → Agree read read' (length s)
    → dispatch p read c b s ≡ dispatch p read' c b s
unfolding dispatch
dispatch-Agree p read read' c b s h a =
    let array : read_array read b s ≡ read_array read' b s =
      unfold read_array in
      lift-agree (parse_int64 b) _ _ λ n.
        lift-agree (make_slice 16 n) _ _ λ size. rw (read_many-Agree read read' size s h a) refl in
    let structure : read_structure p read b s ≡ read_structure p read' b s =
      unfold read_structure in rw (a s (omega arith)) refl in
    rw (array, structure) refl

pub left-read_interface :
    (p : Platform) (f : ℕ) (t : Bytes) → left (read_interface_within p f t) ≤ length t - 1
unfolding read_interface_within
left-read_interface p zero t = omega arith
left-read_interface p (suc f) t =
    left->>= (read_header t) _ (length t - 1) (left-read_header t) λ (c, b) rest l. omega (
      arith,
      left-dispatch p (read_interface_within p f) c b rest
          (λ u. omega (arith, left-read_interface p f u)),
    )

left-within : (p : Platform) (f : ℕ) → Shrinks (read_interface_within p f)
left-within p f t = omega (arith, left-read_interface p f t)

read_header-nil : (s : Bytes) → length s ≡ 0 → read_header s ≡ err eof
unfolding read_header read_line read_slice
read_header-nil [] h = refl
read_header-nil (c ∷ s) h = absurd (omega arith)

within-Agree :
    (p : Platform) (f g : ℕ) (s : Bytes)
    → length s < f
    → length s < g
    → read_interface_within p f s ≡ read_interface_within p g s
unfolding read_interface_within
within-Agree p zero g s h k = absurd (omega arith)
within-Agree p (suc f) zero s h k = absurd (omega arith)
within-Agree p (suc f) (suc g) s h k = elim (dec_lt 0 (length s)) [
  | yes more ↦ >>=-agree (read_header s) _ _ (length s - 1) (left-read_header s) λ (c, b) rest l.
      dispatch-Agree p (read_interface_within p f) (read_interface_within p g) c b rest
        (left-within p f) (λ t m. within-Agree p f g t (omega arith) (omega arith))
  | no none_left ↦ rw (read_header-nil s (omega arith)) refl
]

-- ReadInterface never runs out of fuel: with any fuel above the length of the input the result
-- is the same.
pub read_interface-fuel :
    (p : Platform) (fuel : ℕ) (s : Bytes)
    → length s < fuel
    → read_interface_within p fuel s ≡ read_interface p s
unfolding read_interface
read_interface-fuel p fuel s h = within-Agree p fuel (length s + 1) s h (omega arith)

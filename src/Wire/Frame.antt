-- ===== src/Wire/Frame.antt =====
-- Each writing method sends one frame, and its error is nil exactly when the whole frame was taken.
use broadcast.Common.{
  ℕ, zero, suc, ◌-◌, ◌≤◌, ◌≡◌, ◌↔◌, refl, sym, ◌∙◌, ap, inl, inr, Bool-cases, true, false, Option,
  none, List, [], ◌∷◌, ◌++◌, arith, append_assoc, append-nil, Bytes, Error, length, length-append,
  take, if◌then◌else◌,
}
use broadcast.Common.Int.{pos}
use broadcast.Decimal.{format_int}
use broadcast.Wire.{
  Value, Platform, null, str, bytes, error, json, int, float, byte, other, bool, arr, delims,
  null_bulk,
}
use broadcast.Wire.Write.{
  Writer, put, status, finish, write_len, write_bytes, write_all, write_bulk, write_interface,
  write_items, write_array, write_command,
}

-- The frames, as the comments of the program describe them.
abbrev pub line : ℕ → Bytes → Bytes
line prefix b = prefix ∷ (b ++ delims)

abbrev pub len_frame : ℕ → ℕ → Bytes
len_frame prefix n = line prefix (format_int (pos n))

abbrev pub bytes_frame : Bytes → Bytes
bytes_frame b = len_frame b'$' (length b) ++ (b ++ delims)

abbrev pub frame : Platform → Value → Bytes
frame p (str s) = line b'+' s
frame p (int n) = line b':' (format_int n)
frame p (float x) = line b'.' (p.format_float x)
frame p (bool b) = line b'?' ((if b then b'1' else b'0') ∷ [])
frame p (byte b) = line b'&' (b ∷ [])
frame p (bytes b) = bytes_frame b
frame p null = line b'$' null_bulk
frame p (error m) = bytes_frame (p.print (error m))
frame p (json m) = bytes_frame (p.print (json m))
frame p (other x) = bytes_frame (p.print (other x))
frame p (arr vs) = bytes_frame (p.print (arr vs))

abbrev pub frames : Platform → List Value → Bytes
frames p [] = []
frames p (v ∷ vs) = frame p v ++ frames p vs

abbrev pub array_frame : Platform → List Value → Bytes
array_frame p vs = len_frame b'*' (length vs) ++ frames p vs

take-append : (n : ℕ) (a b : Bytes) → n ≤ length a → take n (a ++ b) ≡ take n a
take-append zero a b h = refl
take-append (suc n) [] b h = absurd (omega arith)
take-append (suc n) (x ∷ a) b h = ap (◌∷◌ x) (take-append n a b (omega arith))

take-append_past :
    (n : ℕ) (a b : Bytes) → length a ≤ n → take n (a ++ b) ≡ a ++ take (n - length a) b
take-append_past n [] b h = let z : n - 0 ≡ n = omega arith in rw z
take-append_past zero (x ∷ a) b h = absurd (omega arith)
take-append_past (suc n) (x ∷ a) b h =
    let z : suc n - suc (length a) ≡ n - length a = omega arith in
    rw z (ap (◌∷◌ x) (take-append_past n a b (omega arith)))

take-all : (n : ℕ) (b : Bytes) → length b ≤ n → take n b ≡ b
take-all zero [] h = refl
take-all zero (x ∷ b) h = absurd (omega arith)
take-all (suc n) [] h = refl
take-all (suc n) (x ∷ b) h = ap (◌∷◌ x) (take-all n b (omega arith))

pub put-failed : (b : Bytes) (w : Writer) → w.failed ≡ true → put b w ≡ w
unfolding put
put-failed b w h = rw h

-- Two writes are one write of both texts.
pub put-append : (a b : Bytes) (w : Writer) → put (a ++ b) w ≡ put b (put a w)
unfolding put
put-append a b w = elim (Bool-cases w.failed) [
  | inl f ↦ ground arith
  | inr f ↦ ground (
    arith,
    length-append a b,
    append_assoc w.out a b,
    append_assoc w.out a (take (w.budget - length a) b),
    take-append w.budget a b,
    take-append_past w.budget a b,
  )
]

pub put-three : (a b c : Bytes) (w : Writer) → put c (put b (put a w)) ≡ put (a ++ (b ++ c)) w
put-three a b c w = rw (put-append a (b ++ c) w, put-append b c (put a w))

-- The pair that a method returns when it has written the text.
abbrev pub sent : Bytes → Writer → Writer × Option Error
sent b w = (put b w, status (put b w))

sent-three : (a b : Bytes) (w : Writer) → finish (put b (put a w)) ≡ sent (a ++ (b ++ delims)) w
unfolding finish
sent-three a b w = ap (λ (x : Writer). (x, status x)) (put-three a b delims w)

pub write_len-frame :
    (prefix n : ℕ) (w : Writer) → write_len prefix n w ≡ sent (len_frame prefix n) w
unfolding write_len
write_len-frame prefix n w = sent-three (prefix ∷ []) (format_int (pos n)) w

pub write_bytes-frame : (b : Bytes) (w : Writer) → write_bytes b w ≡ sent (bytes_frame b) w
unfolding write_bytes
write_bytes-frame b w =
    ap (λ (x : Writer × Option Error). finish (put b x.0)) (write_len-frame b'$' (length b) w)
    ∙ sent-three (len_frame b'$' (length b)) b w

-- Whatever the value and the state of the writer, WriteInterface sends the frame of the value, and
-- its error is that of the writer after the whole frame.
pub write_interface-frame :
    (p : Platform) (v : Value) (w : Writer) → write_interface p v w ≡ sent (frame p v) w
unfolding write_interface
write_interface-frame p (str s) w = sent-three (b'+' ∷ []) s w
write_interface-frame p (int n) w = sent-three (b':' ∷ []) (format_int n) w
write_interface-frame p (float x) w = sent-three (b'.' ∷ []) (p.format_float x) w
write_interface-frame p (bool b) w = sent-three (b'?' ∷ []) ((if b then b'1' else b'0') ∷ []) w
write_interface-frame p (byte b) w = sent-three (b'&' ∷ []) (b ∷ []) w
write_interface-frame p (bytes b) w = write_bytes-frame b w
write_interface-frame p null w = sent-three (b'$' ∷ []) null_bulk w
write_interface-frame p (error m) w = write_bytes-frame (p.print (error m)) w
write_interface-frame p (json m) w = write_bytes-frame (p.print (json m)) w
write_interface-frame p (other x) w = write_bytes-frame (p.print (other x)) w
write_interface-frame p (arr vs) w = write_bytes-frame (p.print (arr vs)) w

pub put-nil : (w : Writer) → put [] w ≡ w
unfolding put
put-nil w = ground (arith, append-nil w.out)

sent-append : (a b : Bytes) (w : Writer) → sent b (put a w) ≡ sent (a ++ b) w
sent-append a b w = ap (λ (x : Writer). (x, status x)) (sym (put-append a b w))

sent-failed : (b : Bytes) (w : Writer) → w.failed ≡ true → sent b w ≡ (w, status w)
sent-failed b w h = ap (λ (x : Writer). (x, status x)) (put-failed b w h)

write_items-frames :
    (p : Platform) (vs : List Value) (w : Writer)
    → write_items p vs (w, status w) ≡ sent (frames p vs) w
unfolding write_items
write_items-frames p [] w = ap (λ (x : Writer). (x, status x)) (sym (put-nil w))
write_items-frames p (v ∷ vs) w = elim (Bool-cases w.failed) [
  | inl f ↦ rw (sent-failed (frames p (v ∷ vs)) w f) (rw f refl)
  | inr f ↦
      let fine : status w ≡ none = ground arith in
      ap (λ (e : Option Error). write_items p (v ∷ vs) (w, e)) fine
      ∙ ap (write_items p vs) (write_interface-frame p v w)
      ∙ write_items-frames p vs (put (frame p v) w)
      ∙ sent-append (frame p v) (frames p vs) w
]

-- WriteArray sends the length and then the frames of the arguments, and its error is that of the
-- writer after all of them, though it stops at the first error.
pub write_array-frame :
    (p : Platform) (vs : List Value) (w : Writer) → write_array p vs w ≡ sent (array_frame p vs) w
unfolding write_array
write_array-frame p vs w =
    ap (write_items p vs) (write_len-frame b'*' (length vs) w)
    ∙ write_items-frames p vs _
    ∙ sent-append (len_frame b'*' (length vs)) (frames p vs) w

-- WriteCommand sends an array whose first element is the name in upper case.
pub write_command-frame :
    (p : Platform) (cmd : Bytes) (args : List Value) (w : Writer)
    → write_command p cmd args w ≡ sent (array_frame p (bytes (p.upper cmd) ∷ args)) w
unfolding write_command
write_command-frame p cmd args w = write_array-frame p (bytes (p.upper cmd) ∷ args) w

abbrev pub all_bytes : List Bytes → Bytes
all_bytes [] = []
all_bytes (b ∷ bs) = bytes_frame b ++ all_bytes bs

pub write_all-frames : (bs : List Bytes) (w : Writer) → write_all bs w ≡ put (all_bytes bs) w
unfolding write_all
write_all-frames [] w = sym (put-nil w)
write_all-frames (b ∷ bs) w =
    ap (λ (x : Writer × Option Error). write_all bs x.0) (write_bytes-frame b w)
    ∙ write_all-frames bs _
    ∙ sym (put-append (bytes_frame b) (all_bytes bs) w)

abbrev pub bulk_frame : List Bytes → Bytes
bulk_frame bs = len_frame b'*' (length bs) ++ all_bytes bs

-- WriteBulk sends the length and then the frames of the elements, but its error is always nil.
write_bulk-frame : (bs : List Bytes) (w : Writer) → write_bulk bs w ≡ (put (bulk_frame bs) w, none)
unfolding write_bulk
write_bulk-frame bs w =
    ap (λ (x : Writer × Option Error). (write_all bs x.0, none))
      (write_len-frame b'*' (length bs) w)
    ∙ ap (λ (x : Writer). (x, none))
        (write_all-frames bs _ ∙ sym (put-append (len_frame b'*' (length bs)) (all_bytes bs) w))

-- A writer that has not failed takes the whole text, with a nil error, exactly when the connection
-- has room for it; otherwise it takes what there is room for, with an error.
pub sent_result :
    (b : Bytes) (w : Writer)
    → w.failed ≡ false
    → ((put b w).out ≡ w.out ++ take w.budget b) × (((sent b w).1 ≡ none) ↔ (length b ≤ w.budget))
unfolding put
sent_result b w f = (ground (arith, take-all w.budget b), ground arith)

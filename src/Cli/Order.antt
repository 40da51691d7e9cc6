-- ===== src/Cli/Order.antt =====
-- What is printed does not depend on the order in which Go iterates over a map.
use mathlib.Core.List.{Permᴰ}
use broadcast.Common.{
  ◌≡◌, refl, sym, ◌∙◌, ap, false, Option, none, some, List, [], ◌∷◌, ◌++◌, map, arith, Bytes, same,
  same_iff, if◌then◌else◌,
}
use broadcast.Dict.{Dict, lookup, has, keys}
use broadcast.Dict.Distinct.{IsDistinct}
use broadcast.Cli.Sort.{sort, sort-Perm}
use broadcast.Cli.Print.{
  Reply, Fields, no_fields, field, object, nothing_there, Verbs, is_array, newline_if, print_keys,
  print_reply, print_fields,
}

module _ {V : Type 0} where
  lookup-cons :
      (k : Bytes) (a : Bytes × V) (d : Dict V)
      → lookup k (a ∷ d) ≡ (if same a.0 k then some a.1 else lookup k d)
  unfolding lookup
  lookup-cons k (j, v) d = refl

  IsDistinct-head : (a : Bytes × V) (d : Dict V) → IsDistinct (a ∷ d) → has a.0 d ≡ false
  IsDistinct-head (j, v) d h = h.0

  IsDistinct-tail : (a : Bytes × V) (d : Dict V) → IsDistinct (a ∷ d) → IsDistinct d
  IsDistinct-tail (j, v) d h = h.1

  IsDistinct-cons :
      (a : Bytes × V) (d : Dict V) → has a.0 d ≡ false → IsDistinct d → IsDistinct (a ∷ d)
  IsDistinct-cons (j, v) d n h = (n, h)

  has-lookups : (k : Bytes) (d d' : Dict V) → lookup k d ≡ lookup k d' → has k d ≡ has k d'
  unfolding has
  has-lookups k d d' e = rw (e, has) refl

  lookup-swap :
      (a b : Bytes × V) (l : Dict V)
      → IsDistinct (a ∷ b ∷ l)
      → ((k : Bytes) → lookup k (a ∷ b ∷ l) ≡ lookup k (b ∷ a ∷ l)) × IsDistinct (b ∷ a ∷ l)
  unfolding lookup has
  lookup-swap (i, v) (j, w) l h = (
    (λ k. ground (arith, same_iff i k, same_iff j k, same_iff j i)),
    ground (arith, same_iff i j, same_iff j i),
  )

  -- The same map in another order of iteration holds the same.
  Perm-lookup :
      {d d' : Dict V}
      → Permᴰ d d'
      → IsDistinct d
      → ((k : Bytes) → lookup k d ≡ lookup k d') × IsDistinct d'
  Perm-lookup Permᴰ.nil h = ((λ k. refl), tt)
  Perm-lookup (Permᴰ.cons {a} {b} {l₁ = s} {l₂ = t} e r) h =
      let (ih, h') = Perm-lookup r (IsDistinct-tail a s h) in
      rw (← e) (
        (λ k.
            lookup-cons k a s
            ∙ ap (λ x. if same a.0 k then some a.1 else x) (ih k)
            ∙ sym (lookup-cons k a t)),
        IsDistinct-cons a t (sym (has-lookups a.0 s t (ih a.0)) ∙ IsDistinct-head a s h) h',
      )
  Perm-lookup (Permᴰ.swap {a} {b} {a'} {b'} {l} e f) h = rw (← e, ← f) (lookup-swap a b l h)
  Perm-lookup (Permᴰ.trans r s) h =
      let (e, h') = Perm-lookup r h in let (f, h'') = Perm-lookup s h' in ((λ k. e k ∙ f k), h'')

keys-Perm : {V : Type 0} {d d' : Dict V} → Permᴰ d d' → Permᴰ (keys d) (keys d')
unfolding keys
keys-Perm Permᴰ.nil = Permᴰ.nil
keys-Perm (Permᴰ.cons {a = (j, v)} {b = (i, w)} e r) = Permᴰ.cons (ap (λ x. x.0) e) (keys-Perm r)
keys-Perm (Permᴰ.swap e f) = Permᴰ.swap (ap (λ x. x.0) e) (ap (λ x. x.0) f)
keys-Perm (Permᴰ.trans r s) = Permᴰ.trans (keys-Perm r) (keys-Perm s)

print_keys-lookups :
    (indent : Bytes) (d d' : Dict (Option Bytes)) (ks : List Bytes)
    → ((k : Bytes) → lookup k d ≡ lookup k d')
    → print_keys indent d ks ≡ print_keys indent d' ks
unfolding print_keys
print_keys-lookups indent d d' [] e = refl
print_keys-lookups indent d d' (k ∷ ks) e = ground (arith, e k, print_keys-lookups indent d d' ks e)

-- The entries of a reply that is a map.
abbrev pub entries : Fields → Dict Reply
entries no_fields = []
entries (field k x fs) = (k, x) ∷ entries fs

-- What is printed behind the key of an entry: nothing at all for a nil value.
abbrev line_of : Verbs → Bytes × Reply → Bytes × Option Bytes
line_of v (k, nothing_there) = (k, none)
line_of v (k, x) = (k, some (newline_if (is_array x) ++ print_reply v x []))

print_fields-entries : (v : Verbs) (fs : Fields) → print_fields v fs ≡ map (line_of v) (entries fs)
unfolding print_reply
print_fields-entries v no_fields = refl
print_fields-entries v (field k nothing_there fs) =
    ap (λ d. (k, none) ∷ d) (print_fields-entries v fs)
print_fields-entries v (field k x fs) = ap (λ d. line_of v (k, x) ∷ d) (print_fields-entries v fs)

line_of-key : (v : Verbs) (a : Bytes × Reply) → (line_of v a).0 ≡ a.0
line_of-key v (k, nothing_there) = refl
line_of-key v (k, x) = refl

map-Perm : {A B : Type 0} (f : A → B) {xs ys : List A} → Permᴰ xs ys → Permᴰ (map f xs) (map f ys)
map-Perm f Permᴰ.nil = Permᴰ.nil
map-Perm f (Permᴰ.cons e r) = Permᴰ.cons (ap f e) (map-Perm f r)
map-Perm f (Permᴰ.swap e g) = Permᴰ.swap (ap f e) (ap f g)
map-Perm f (Permᴰ.trans r s) = Permᴰ.trans (map-Perm f r) (map-Perm f s)

lines-has : (v : Verbs) (k : Bytes) (d : Dict Reply) → has k (map (line_of v) d) ≡ has k d
unfolding has lookup
lines-has v k [] = refl
lines-has v k ((j, nothing_there) ∷ d) = ground (arith, lines-has v k d)
lines-has v k ((j, x) ∷ d) = ground (arith, lines-has v k d)

lines-IsDistinct : (v : Verbs) (d : Dict Reply) → IsDistinct d → IsDistinct (map (line_of v) d)
lines-IsDistinct v [] h = tt
lines-IsDistinct v ((j, x) ∷ d) h =
    IsDistinct-cons (line_of v (j, x)) (map (line_of v) d)
      (rw (line_of-key v (j, x)) (lines-has v j d ∙ h.0)) (lines-IsDistinct v d h.1)

-- A map with no key twice is printed alike in whatever order its entries are visited.
pub print_reply-Perm :
    (v : Verbs) (fs fs' : Fields) (indent : Bytes)
    → IsDistinct (entries fs)
    → Permᴰ (entries fs) (entries fs')
    → print_reply v (object fs) indent ≡ print_reply v (object fs') indent
unfolding print_reply
print_reply-Perm v fs fs' indent h r =
    let lines = map (line_of v) (entries fs) in
    let lines' = map (line_of v) (entries fs') in
    let same_lines = map-Perm (line_of v) r in
    rw (print_fields-entries v fs, print_fields-entries v fs', sort-Perm (keys-Perm same_lines))
      (print_keys-lookups indent lines lines' (sort (keys lines'))
        (Perm-lookup same_lines (lines-IsDistinct v (entries fs) h)).0)

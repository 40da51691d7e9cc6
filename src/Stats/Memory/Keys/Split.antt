-- ===== src/Stats/Memory/Keys/Split.antt =====
-- What strings.Split and bytes.Split, with a separator of one byte, make of parts without it.
use broadcast.Common.{
  ℕ, ◌≡◌, ◌≢◌, ◌∙◌, ap, List, [], ◌∷◌, ◌++◌, append_assoc, append-nil, arith, Bytes, All,
}
use broadcast.Stats.Memory.Keys.{split_from, split}

abbrev pub Lacks : ℕ → Bytes → Type 0
Lacks sep = All (λ c. c ≢ sep)

pub split_from-end :
    (sep : ℕ) (s cur : Bytes) → Lacks sep s → split_from sep cur s ≡ (cur ++ s) ∷ []
unfolding split_from
split_from-end sep [] cur h = rw append-nil
split_from-end sep (c ∷ s) cur (n, h) =
    ground (arith, n, split_from-end sep s (cur ++ c ∷ []) h, append_assoc cur (c ∷ []) s)

pub split_from-cut :
    (sep : ℕ) (s cur rest : Bytes)
    → Lacks sep s
    → split_from sep cur (s ++ sep ∷ rest) ≡ (cur ++ s) ∷ split_from sep [] rest
unfolding split_from
split_from-cut sep [] cur rest h = ground (arith, append-nil cur)
split_from-cut sep (c ∷ s) cur rest (n, h) =
    ground (arith, n, split_from-cut sep s (cur ++ c ∷ []) rest h, append_assoc cur (c ∷ []) s)

-- The parts, each but the first behind a separator.
abbrev pub joined : ℕ → List Bytes → Bytes
joined sep [] = []
joined sep (s ∷ parts) = sep ∷ s ++ joined sep parts

-- Split takes apart what was joined by a separator that no part holds.
pub split-joined :
    (sep : ℕ) (s : Bytes) (parts : List Bytes)
    → Lacks sep s
    → All (Lacks sep) parts
    → split (s ++ joined sep parts) sep ≡ s ∷ parts
unfolding split
split-joined sep s [] h hs =
    ap (λ t. split_from sep [] t) (append-nil s) ∙ split_from-end sep s [] h
split-joined sep s (t ∷ parts) h (k, ks) =
    split_from-cut sep s [] (t ++ joined sep parts) h ∙ ap (◌∷◌ s) (split-joined sep t parts k ks)

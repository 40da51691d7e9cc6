-- ===== src/Cli/Listing.antt =====
-- What CMDS prints, against what HELP prints for each command.
use broadcast.Common.{
  ℕ, suc, ◌+◌, ◌≡◌, refl, sym, ◌∙◌, ap, true, false, ◌||◌, some, List, [], ◌∷◌, ◌++◌, map,
  append-nil, arith, Bytes, All, same, same_iff, same_refl, inl, inr, Bool-cases, get_elem?, ok,
}
use broadcast.Dict.{Dict, lookup, insert, lookup-insert}
use broadcast.Dict.Keys.{among}
use broadcast.Cli.Sort.{sort, insert_sorted}
use broadcast.Cli.Help.{
  HelpCommand, print_command_help, print_named, places, print_each, print_cmds,
}

abbrev pub names : List HelpCommand → List Bytes
names = map (λ h. h.name)

-- No name stands twice.
abbrev pub AreDistinct : List HelpCommand → Type 0
AreDistinct [] = Unit
AreDistinct (h ∷ help) = (among h.name (names help) ≡ false) × AreDistinct help

-- What HELP prints for each of the names.
abbrev pub each_named : List HelpCommand → List Bytes → Bytes
each_named help [] = []
each_named help (k ∷ ks) = print_named help k ++ each_named help ks

print_named-absent :
    (help : List HelpCommand) (k : Bytes) → among k (names help) ≡ false → print_named help k ≡ []
unfolding print_named among
print_named-absent [] k n = refl
print_named-absent (h ∷ help) k n = ground (arith, print_named-absent help k)

places-absent :
    (i : ℕ) (help : List HelpCommand) (d : Dict ℕ) (k : Bytes)
    → among k (names help) ≡ false
    → lookup k (places i help d) ≡ lookup k d
unfolding places among
places-absent i [] d k n = refl
places-absent i (h ∷ help) d k n =
    ground (arith, places-absent (suc i) help (insert h.name i d) k, lookup-insert h.name k i d)

-- Where the row of a name stands.
pub record Row (i : ℕ) (help : List HelpCommand) (d : Dict ℕ) (k : Bytes) : Type 0 where
  pub index : ℕ
  pub row : HelpCommand
  pub there : get_elem? help index ≡ some row
  pub placed : lookup k (places i help d) ≡ some (i + index)
  pub prints : print_named help k ≡ print_command_help row

find-Row :
    (i : ℕ) (help : List HelpCommand) (d : Dict ℕ) (k : Bytes)
    → AreDistinct help
    → among k (names help) ≡ true
    → Row i help d k
unfolding places print_named among
find-Row i [] d k u h = cc
find-Row i (r ∷ help) d k (new, u) h = elim (Bool-cases (same r.name k)) [
  | inl e ↦
      let gone : among k (names help) ≡ false = rw (← (same_iff r.name k).0 e) new in
      record {
        index = 0;
        row = r;
        there = refl;
        placed =
            places-absent (suc i) help (insert r.name i d) k gone
            ∙ lookup-insert r.name k i d
            ∙ rw e (ap some (omega arith));
        prints = rw (e, print_named-absent help k gone) (append-nil (print_command_help r));
      }
  | inr e ↦
      let rest = find-Row (suc i) help (insert r.name i d) k u (ground arith) in
      record {
        index = suc rest.index;
        row = rest.row;
        there = rest.there;
        placed = rest.placed ∙ ap some (omega arith);
        prints = rw e rest.prints;
      }
]

among-insert_sorted :
    (k a : Bytes) (s : List Bytes) → among k (insert_sorted a s) ≡ (same a k || among k s)
unfolding insert_sorted among
among-insert_sorted k a [] = refl
among-insert_sorted k a (b ∷ s) = ground (arith, among-insert_sorted k a s)

among-sort : (k : Bytes) (s : List Bytes) → among k (sort s) ≡ among k s
unfolding sort among
among-sort k [] = refl
among-sort k (a ∷ s) = among-insert_sorted k a (sort s) ∙ ap (λ b. same a k || b) (among-sort k s)

All-among :
    (js ks : List Bytes)
    → ((k : Bytes) → among k js ≡ true → among k ks ≡ true)
    → All (λ k. among k ks ≡ true) js
unfolding among
All-among [] ks f = tt
All-among (j ∷ js) ks f =
    (f j (rw (same_refl j) refl), All-among js ks (λ k h. f k (ground (arith, h))))

each-print :
    (help : List HelpCommand) (ks : List Bytes)
    → AreDistinct help
    → All (λ k. among k (names help) ≡ true) ks
    → print_each help (places 0 help []) ks ≡ ok (each_named help ks)
unfolding print_each
each-print help [] u h = refl
each-print help (k ∷ ks) u (hk, h) =
    let r = find-Row 0 help [] k u hk in
    let place : lookup k (places 0 help []) ≡ some r.index = r.placed ∙ ap some (omega arith) in
    ground (arith, place, r.there, r.prints, each-print help ks u h)

-- CMDS prints, for each of the commands that the server has announced, in the order of their names, what
-- HELP prints for that name, and does not panic. No name stands twice among them, as they are the keys of
-- a map.
pub print_cmds-each :
    (help : List HelpCommand)
    → AreDistinct help
    → print_cmds help ≡ ok (each_named help (sort (names help)))
unfolding print_cmds
print_cmds-each help u =
    each-print help (sort (names help)) u
      (All-among (sort (names help)) (names help) (λ k h. sym (among-sort k (names help)) ∙ h))

-- ===== src/Cli/Tokens.antt =====
-- cmd/broadcast-cli/main.go: how a line is split into the name of a command and its arguments, and what
-- value an argument becomes.
use broadcast.Common.{
  ℕ, zero, suc, ◌+◌, ◌/◌, ◌%◌, Bool, true, false, ◌||◌, Option, none, some, List, [], ◌∷◌, Bytes,
  codes, same, length, ltb, ◌==◌, if◌then◌else◌, ok, err, panic,
}
use broadcast.Decimal.{parse_int}
use broadcast.Wire.{Value, Platform, str, int, float, bool}

-- \s
abbrev pub is_space : ℕ → Bool
is_space c = c == 32 || (c == 9 || (c == 10 || (c == 12 || c == 13)))

-- The rest of a quoted token: what stands up to the next quote on the same line, with it, and what is
-- behind it.
unfoldable pub quoted : ℕ → Bytes → Option (Bytes × Bytes)
quoted q [] = none
quoted q (c ∷ s) =
    let more = quoted q s in
    if c == q
    then some (c ∷ [], s)
    else if c == 10
    then none
    else elim more [ none ↦ none | some (t, rest) ↦ some (c ∷ t, rest) ]

-- \S+
unfoldable pub word : Bytes → Bytes × Bytes
word [] = ([], [])
word (c ∷ s) = let (w, rest) = word s in if is_space c then ([], c ∷ s) else (c ∷ w, rest)

-- The match of '.*?'|".*?"|\\S+ at a character that is no space.
unfoldable pub token : ℕ → Bytes → Bytes × Bytes
unfolding quoted word
token c s =
    let plain : Bytes × Bytes = (c ∷ (word s).0, (word s).1) in
    if c == 39 || c == 34
    then elim (quoted c s) [ none ↦ plain | some (t, rest) ↦ (c ∷ t, rest) ]
    else plain

-- reg.FindAllString(cmd, -1), with fuel for the matches and the spaces.
unfoldable pub tokens_within : ℕ → Bytes → List Bytes
unfolding token
tokens_within zero s = []
tokens_within (suc fuel) [] = []
tokens_within (suc fuel) (c ∷ s) =
    let skipped = tokens_within fuel s in
    let found = (token c s).0 ∷ tokens_within fuel (token c s).1 in
    if is_space c then skipped else found

unfoldable pub find_all : Bytes → List Bytes
unfolding tokens_within
find_all s = tokens_within (length s + 1) s

abbrev pub is_quote : ℕ → Bool
is_quote c = c == 34 || c == 39

unfoldable pub trim_left : Bytes → Bytes
trim_left [] = []
trim_left (c ∷ s) = let rest = trim_left s in if is_quote c then rest else c ∷ s

unfoldable pub trim_right : Bytes → Bytes
trim_right [] = []
trim_right (c ∷ s) = elim (trim_right s) [
  | [] ↦ if is_quote c then [] else c ∷ []
  | d ∷ t ↦ c ∷ d ∷ t
]

-- strings.Trim(item, "\\"'")
abbrev pub trim_quotes : Bytes → Bytes
trim_quotes s = trim_right (trim_left s)

-- strconv.ParseBool
unfoldable pub parse_truth : Bytes → Option Bool
parse_truth s =
    if same s (codes "1")
      || (same s (codes "t")
          || (same s (codes "T")
              || (same s (codes "true") || (same s (codes "TRUE") || same s (codes "True")))))
    then some true
    else if same s (codes "0")
        || (same s (codes "f")
            || (same s (codes "F")
                || (same s (codes "false") || (same s (codes "FALSE") || same s (codes "False")))))
    then some false
    else none

-- string(b), the UTF-8 of the code point
abbrev pub string_of : ℕ → Bytes
string_of b = if ltb b 128 then b ∷ [] else (192 + b / 64) ∷ (128 + b % 64) ∷ []

-- The branches for an item that is no truth value.
abbrev pub string_argument : Bytes → Value
string_argument [] = str []
string_argument (c ∷ []) = str (string_of c)
string_argument (c ∷ d ∷ s) = str (c ∷ d ∷ s)

-- The branches for an item that is no number.
unfoldable pub text_argument : Bytes → Value
unfolding parse_truth
text_argument item = elim (parse_truth item) [ some b ↦ bool b | none ↦ string_argument item ]

-- The loop over the arguments of a line.
unfoldable pub argument : Platform → Bytes → Value
unfolding text_argument trim_left trim_right
argument p s =
    let item = trim_quotes s in
    let other : Value = elim (p.parse_float item) [
      | some x ↦ float x
      | none ↦ text_argument item
    ] in
    elim (parse_int item) [ ok n ↦ int n | err e ↦ other | panic ↦ other ]

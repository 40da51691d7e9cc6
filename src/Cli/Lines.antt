-- ===== src/Cli/Lines.antt =====
-- A line of arguments, plain or in quotes, and the tokens that the regular expression finds in it.
use native.Mathlib.Numerals.{add-one}
use broadcast.Common.{
  ℕ, zero, suc, ◌<◌, ◌≡◌, refl, ◌∙◌, ap, true, false, some, List, [], ◌∷◌, ◌++◌, map, arith, Bytes,
  All, length, length-append, ◌==◌,
}
use broadcast.Cli.Tokens.{is_space, is_quote, quoted, word, token, tokens_within, find_all}

pub data Argument : Type 0 where
  plain : Bytes → Argument
  in_quotes : ℕ → Bytes → Argument

abbrev pub spelled : Argument → Bytes
spelled (plain w) = w
spelled (in_quotes q s) = q ∷ (s ++ q ∷ [])

abbrev pub NoSpace : ℕ → Type 0
NoSpace c = is_space c ≡ false

abbrev pub Between : ℕ → ℕ → Type 0
Between q c = ((c == q) ≡ false) × ((c == 10) ≡ false)

-- A word without white space that begins with no quote, or a text without newlines between two quotes
-- of a kind that it does not hold.
abbrev pub IsArgument : Argument → Type 0
IsArgument (plain []) = ⊥
IsArgument (plain (c ∷ w)) = (is_quote c ≡ false) × NoSpace c × All NoSpace w
IsArgument (in_quotes q s) = (is_quote q ≡ true) × All (Between q) s

-- The text ends, or goes on with white space.
abbrev Ends : Bytes → Type 0
Ends [] = Unit
Ends (c ∷ s) = is_space c ≡ true

word-append : (w rest : Bytes) → All NoSpace w → Ends rest → word (w ++ rest) ≡ (w, rest)
unfolding word
word-append [] [] h e = refl
word-append [] (c ∷ rest) h e = rw e refl
word-append (x ∷ w) rest (hx, h) e = rw (hx, word-append w rest h e) refl

quoted-append :
    (q : ℕ) (s rest : Bytes)
    → All (Between q) s
    → quoted q ((s ++ q ∷ []) ++ rest) ≡ some (s ++ q ∷ [], rest)
unfolding quoted
quoted-append q [] rest h = ground arith
quoted-append q (x ∷ s) rest (hx, h) = ground (arith, quoted-append q s rest h)

tokens-spelled :
    (fuel : ℕ) (a : Argument) (rest : Bytes)
    → IsArgument a
    → Ends rest
    → tokens_within (suc fuel) (spelled a ++ rest) ≡ spelled a ∷ tokens_within fuel rest
unfolding tokens_within token
tokens-spelled fuel (plain []) rest h e = absurd h
tokens-spelled fuel (plain (c ∷ w)) rest (q, hc, h) e = ground (arith, word-append w rest h e)
tokens-spelled fuel (in_quotes q s) rest (hq, h) e = ground (arith, quoted-append q s rest h)

spelled_pos : (a : Argument) → IsArgument a → 0 < length (spelled a)
spelled_pos (plain []) h = absurd h
spelled_pos (plain (c ∷ w)) h = omega arith
spelled_pos (in_quotes q s) h = omega arith

-- The arguments, with a space in front of each.
abbrev pub spaced_out : List Argument → Bytes
spaced_out [] = []
spaced_out (a ∷ as') = b' ' ∷ (spelled a ++ spaced_out as')

Ends-spaced_out : (as' : List Argument) → Ends (spaced_out as')
Ends-spaced_out [] = tt
Ends-spaced_out (a ∷ as') = refl

tokens-spaced_out :
    (fuel : ℕ) (as' : List Argument)
    → All IsArgument as'
    → length (spaced_out as') < fuel
    → tokens_within fuel (spaced_out as') ≡ map spelled as'
unfolding tokens_within
tokens-spaced_out zero as' h l = absurd (omega arith)
tokens-spaced_out (suc fuel) [] h l = refl
tokens-spaced_out (suc zero) (a ∷ as') h l = absurd (omega arith)
tokens-spaced_out (suc (suc fuel)) (a ∷ as') (ha, h) l =
    tokens-spelled fuel a (spaced_out as') ha (Ends-spaced_out as')
    ∙ ap (λ x. spelled a ∷ x)
        (tokens-spaced_out fuel as' h
          (omega (arith, spelled_pos a ha, length-append (spelled a) (spaced_out as'))))

-- The tokens of a line of arguments with single spaces between them are the arguments as they are
-- spelled, quotes included.
pub find_all-arguments :
    (a : Argument) (as' : List Argument)
    → All IsArgument (a ∷ as')
    → find_all (spelled a ++ spaced_out as') ≡ map spelled (a ∷ as')
unfolding find_all
find_all-arguments a as' (ha, h) =
    let line = spelled a ++ spaced_out as' in
    rw (add-one (length line)) (
      tokens-spelled (length line) a (spaced_out as') ha (Ends-spaced_out as')
      ∙ ap (λ x. spelled a ∷ x)
          (tokens-spaced_out (length line) as' h
            (omega (arith, spelled_pos a ha, length-append (spelled a) (spaced_out as')))))

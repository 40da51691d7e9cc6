-- ===== src/Cli/Numbers.antt =====
-- A line with a command and numbers, from the prompt to the command that is sent.
use broadcast.Common.{
  ℕ, ◌≡◌, ◌≢◌, refl, ◌∙◌, ap, true, false, List, [], ◌∷◌, ◌++◌, map, arith, Bytes, codes, same, All,
}
use broadcast.Common.Int.{ℤ, IsInt64}
use broadcast.Decimal.{format_int}
use broadcast.Decimal.RoundTrip.{parse_int-format_int, format_int-All, format_int-ne-nil}
use broadcast.Wire.{Platform, int}
use broadcast.Cli.Tokens.{is_quote, find_all, trim_left, trim_right, trim_quotes, argument}
use broadcast.Cli.Help.{HelpCommand, is_cmd_async}
use broadcast.Cli.Action.{send_and_read, action}
use broadcast.Cli.Lines.{
  Argument, plain, in_quotes, spelled, spaced_out, IsArgument, NoSpace, find_all-arguments,
}

abbrev NoQuote : ℕ → Type 0
NoQuote c = is_quote c ≡ false

trim_left-none : (s : Bytes) → All NoQuote s → trim_left s ≡ s
unfolding trim_left
trim_left-none [] h = refl
trim_left-none (c ∷ s) (hc, h) = rw hc refl

trim_right-none : (s : Bytes) → All NoQuote s → trim_right s ≡ s
unfolding trim_right
trim_right-none [] h = refl
trim_right-none (c ∷ []) (hc, h) = rw hc refl
trim_right-none (c ∷ d ∷ s) (hc, h) = rw (trim_right-none (d ∷ s) h) refl

trim_right-quote :
    (q : ℕ) (s : Bytes) → is_quote q ≡ true → All NoQuote s → trim_right (s ++ q ∷ []) ≡ s
unfolding trim_right
trim_right-quote q [] hq h = rw hq refl
trim_right-quote q (c ∷ []) hq (hc, h) = ground arith
trim_right-quote q (c ∷ d ∷ s) hq (hc, h) = rw (trim_right-quote q (d ∷ s) hq h) refl

trim_left-quote :
    (q : ℕ) (s : Bytes)
    → is_quote q ≡ true
    → s ≢ []
    → All NoQuote s
    → trim_left (q ∷ (s ++ q ∷ [])) ≡ s ++ q ∷ []
unfolding trim_left
trim_left-quote q [] hq n h = absurd (n refl)
trim_left-quote q (c ∷ s) hq n (hc, h) = rw (hq, hc) refl

number-NoQuote : (z : ℤ) → All NoQuote (format_int z)
number-NoQuote = format_int-All (λ c d. ground arith) refl

argument-trimmed :
    (p : Platform) (s : Bytes) (z : ℤ)
    → trim_quotes s ≡ format_int z
    → IsInt64 z
    → argument p s ≡ int z
unfolding argument
argument-trimmed p s z e h = rw (e, argument) (rw (parse_int-format_int z h) refl)

-- An argument that is an int64 is sent as that number, also when it stands in quotes.
argument-number :
    (p : Platform) (z : ℤ)
    → IsInt64 z
    → (argument p (spelled (plain (format_int z))) ≡ int z)
      × ((q : ℕ) → is_quote q ≡ true → argument p (spelled (in_quotes q (format_int z))) ≡ int z)
argument-number p z h =
    let none_in = number-NoQuote z in
    (
      argument-trimmed p (format_int z) z
          (ap trim_right (trim_left-none (format_int z) none_in)
            ∙ trim_right-none (format_int z) none_in)
          h,
      λ q hq.
          argument-trimmed p _ z
            (ap trim_right (trim_left-quote q (format_int z) hq (format_int-ne-nil z) none_in)
              ∙ trim_right-quote q (format_int z) hq none_in)
            h,
    )

-- The command is none of those that the client treats apart.
pub record IsOrdinary (p : Platform) (lower : Bytes → Bytes) (help : List HelpCommand)
    (name : Bytes) : Type 0 where
  pub no_help : same (lower (p.upper name)) (codes "help") ≡ false
  pub no_mark : same (p.upper name) (codes "?") ≡ false
  pub no_cmds : same (p.upper name) (codes "CMDS") ≡ false
  pub no_subscribe : same (p.upper name) (codes "SUBSCRIBE") ≡ false
  pub waits : is_cmd_async help (p.upper name) ≡ false

-- How an int64 stands on a line: as it is, or in quotes.
pub data Numeral : Type 0 where
  bare : ℤ → Numeral
  inside : ℕ → ℤ → Numeral

abbrev pub value : Numeral → ℤ
value (bare z) = z
value (inside q z) = z

abbrev pub written : Numeral → Argument
written (bare z) = plain (format_int z)
written (inside q z) = in_quotes q (format_int z)

abbrev pub IsNumeral : Numeral → Type 0
IsNumeral (bare z) = IsInt64 z
IsNumeral (inside q z) = IsInt64 z × (is_quote q ≡ true)

plain-IsArgument : (s : Bytes) → s ≢ [] → All NoQuote s → All NoSpace s → IsArgument (plain s)
plain-IsArgument [] n q h = n refl
plain-IsArgument (c ∷ s) n (q, qs) (hc, h) = (q, hc, h)

written-IsArgument : (n : Numeral) → IsNumeral n → IsArgument (written n)
written-IsArgument (bare z) h =
    plain-IsArgument (format_int z) (format_int-ne-nil z) (number-NoQuote z)
      (format_int-All (λ c d. ground arith) refl z)
written-IsArgument (inside q z) (h, hq) =
    (hq, format_int-All (λ c d. (ground arith, ground arith)) (ground arith, refl) z)

argument-written :
    (p : Platform) (n : Numeral) → IsNumeral n → argument p (spelled (written n)) ≡ int (value n)
argument-written p (bare z) h = (argument-number p z h).0
argument-written p (inside q z) (h, hq) = (argument-number p z h).1 q hq

arguments-written :
    (p : Platform) (ns : List Numeral)
    → All IsNumeral ns
    → map (argument p) (map spelled (map written ns)) ≡ map (λ n. int (value n)) ns
arguments-written p [] h = refl
arguments-written p (n ∷ ns) (hn, h) = rw (argument-written p n hn, arguments-written p ns h) refl

All-written : (ns : List Numeral) → All IsNumeral ns → All IsArgument (map written ns)
All-written [] h = tt
All-written (n ∷ ns) (hn, h) = (written-IsArgument n hn, All-written ns h)

-- A line of a name and int64s, in quotes or not, with single spaces between them, makes the client send
-- the command of that name in upper case with these numbers and read a reply, if it is a command that
-- the client does not treat apart.
pub action-numbers :
    (p : Platform) (lower : Bytes → Bytes) (help : List HelpCommand) (name : Bytes)
    (ns : List Numeral)
    → IsArgument (plain name)
    → All IsNumeral ns
    → IsOrdinary p lower help name
    → action p lower help (find_all (name ++ spaced_out (map written ns)))
      ≡ send_and_read (p.upper name) (map (λ n. int (value n)) ns)
unfolding action
action-numbers p lower help name ns a h o =
    ap (action p lower help)
      (find_all-arguments (plain name) (map written ns) (a, All-written ns h))
    ∙ rw (o.no_help, o.no_mark, o.no_cmds, o.no_subscribe, o.waits, arguments-written p ns h) refl

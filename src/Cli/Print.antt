-- ===== src/Cli/Print.antt =====
-- cmd/broadcast-cli/main.go: printReply, for the replies to other commands than CMDS.
use broadcast.Common.{
  ℕ, zero, suc, Bool, true, false, Option, none, some, List, [], ◌∷◌, ◌++◌, Bytes, codes,
  if◌then◌else◌,
}
use broadcast.Common.Int.{ℤ, pos}
use broadcast.Decimal.{format_int}
use broadcast.Dict.{Dict, lookup, keys}
use broadcast.Cli.Sort.{sort}
use broadcast.Cli.Help.{truth}

-- The values of a reply by the types that printReply tells apart.
mutual
  pub data Reply : Type 0 where
    integer : ℤ → Reply
    floating : ℕ → Reply
    text raw failure : Bytes → Reply
    nothing_there other : Reply
    truth_value : Bool → Reply
    object : Fields → Reply
    array : Elements → Reply

  pub data Fields : Type 0 where
    no_fields : Fields
    field : Bytes → Reply → Fields → Fields

  pub data Elements : Type 0 where
    no_elements : Elements
    element : Reply → Elements → Elements

-- The verbs %f and %q.
pub record Verbs : Type 0 where
  pub float_verb : ℕ → Bytes
  pub quote_verb : Bytes → Bytes

abbrev pub is_array : Reply → Bool
is_array (array vs) = true
is_array _ = false

abbrev pub is_object : Reply → Bool
is_object (object fs) = true
is_object _ = false

abbrev pub newline_if : Bool → Bytes
newline_if b = if b then 10 ∷ [] else []

-- The loop over the sorted keys: nothing for a nil value, and else the key and what is printed behind
-- it.
unfoldable pub print_keys : Bytes → Dict (Option Bytes) → List Bytes → Bytes
print_keys indent d [] = []
print_keys indent d (k ∷ ks) =
    let rest = print_keys indent d ks in
    elim (lookup k d) [
      | none ↦ rest
      | some value ↦ elim value [
        | none ↦ rest
        | some line ↦ indent ++ k ++ codes ": " ++ line ++ rest
      ]
    ]

-- printReply, for a reply that is not that of CMDS.
module _ (v : Verbs) where
  unfoldable mutual
    unfolding sort print_keys

    pub print_reply : Reply → Bytes → Bytes
    print_reply (integer n) indent = codes "(integer) " ++ format_int n ++ 10 ∷ []
    print_reply (floating x) indent = codes "(float) " ++ v.float_verb x ++ 10 ∷ []
    print_reply (text s) indent = s ++ 10 ∷ []
    print_reply (raw b) indent = v.quote_verb b ++ 10 ∷ []
    print_reply nothing_there indent = codes "(nil)" ++ 10 ∷ []
    print_reply (truth_value b) indent = truth b ++ 10 ∷ []
    print_reply (failure m) indent = m ++ 10 ∷ []
    print_reply (object fs) indent =
        let lines = print_fields fs in print_keys indent lines (sort (keys lines))
    print_reply (array vs) indent = print_elements 1 10 vs
    print_reply other indent = []

    pub print_fields : Fields → Dict (Option Bytes)
    print_fields no_fields = []
    print_fields (field k nothing_there fs) = (k, none) ∷ print_fields fs
    print_fields (field k x fs) =
        (k, some (newline_if (is_array x) ++ print_reply x [])) ∷ print_fields fs

    -- The elements with their numbers, as many as are left of the first ten.
    pub print_elements : ℕ → ℕ → Elements → Bytes
    print_elements i zero vs = []
    print_elements i (suc room) no_elements = []
    print_elements i (suc room) (element x vs) =
        format_int (pos i)
        ++ codes ") "
        ++ newline_if (is_object x)
        ++ print_reply x (codes " ")
        ++ print_elements (suc i) room vs

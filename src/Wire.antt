-- ===== src/Wire.antt =====
-- server/client.go and server/const.go: the values that clients exchange, and what the program takes
-- from Go's library on trust.
pub mod Write
pub mod Frame
pub mod Read
pub mod Outcome
pub mod Line
pub mod Bulk
pub mod Consume
pub mod RoundTrip
pub mod Fuel
use broadcast.Common.{ℕ, Bool, true, false, List, [], ◌∷◌, Option, none, some, Bytes, codes}
use broadcast.Common.Int.{ℤ}

-- The Go values behind interface{}. An `int` is an int or an int64, a float64 is its 64 bits, a
-- `json` is the map that its text decodes to, and `other` is any other value.
mutual
  pub data Value : Type 0 where
    null : Value
    str bytes error json : Bytes → Value
    int : ℤ → Value
    float byte other : ℕ → Value
    bool : Bool → Value
    arr : Items → Value

  pub data Items : Type 0 where
    nil : Items
    cons : Value → Items → Items

abbrev pub items : List Value → Items
items [] = nil
items (v ∷ vs) = cons v (items vs)

-- Functions of Go's library: strconv on float64, whether json.Unmarshal accepts a text as a map,
-- fmt.Fprint, and strings.ToUpper.
pub record Platform : Type 0 where
  pub format_float : ℕ → Bytes
  pub parse_float : Bytes → Option ℕ
  pub is_json_map : Bytes → Bool
  pub print : Value → Bytes
  pub upper : Bytes → Bytes

abbrev pub delims : Bytes
delims = 13 ∷ 10 ∷ []

abbrev pub null_bulk : Bytes
null_bulk = codes "-1"

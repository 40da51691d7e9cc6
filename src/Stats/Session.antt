-- ===== src/Stats/Session.antt =====
-- A handler's run: the state of the metrics and the calls that it makes on the client. The
-- handlers drop the errors of those calls.
pub mod Keeps
pub mod Answers
use broadcast.Common.{ℕ, List, [], ◌∷◌, ◌++◌, Bytes, Error, Result, ok, err, panic}
use broadcast.Common.Int.{ℤ}
use broadcast.Dict.{Dict}
use broadcast.Stats.Memory.{Counter}
use broadcast.Server.{BroadcastServerStatus, CommandInfo}
use broadcast.Wire.{Value}

-- The calls on server.ProtocolClient: `write_counters`, `write_status` and `write_help` are WriteJson
-- of these values, and `write_error` and `write_failure` are WriteError of a new message and of an
-- error at hand.
pub data ClientCall : Type 0 where
  write_int64 : ℤ → ClientCall
  write_null flush : ClientCall
  write_error write_string : Bytes → ClientCall
  write_len : ℕ → ℕ → ClientCall
  write_failure : Error → ClientCall
  write_counters : Dict Counter → ClientCall
  write_status : BroadcastServerStatus → ClientCall
  write_help : Dict CommandInfo → ClientCall
  write_interface : Value → ClientCall
  write_array : List Value → ClientCall

-- The data that a protocol hands to a handler: the line and redis protocols a [][]byte, the
-- default protocol an []interface{}.
pub data Data : Type 0 where
  bulk : List Bytes → Data
  values : List Value → Data

-- d, _ := data.([][]byte)
abbrev pub args : Data → List Bytes
args (bulk d) = d
args (values vs) = []

pub record Session (S : Type 0) : Type 0 where
  pub state : S
  pub calls : List ClientCall

abbrev pub Run : Type 0 → Type 0 → Type 0
Run S A = Session S → Result A × Session S

module _ {S A : Type 0} where
  unfoldable pub pure : A → Run S A
  pure a s = (ok a, s)

  unfoldable pub raise : Error → Run S A
  raise e s = (err e, s)

  unfoldable pub lift : Result A → Run S A
  lift r s = (r, s)

  -- A call of a method of the metrics.
  unfoldable pub method : (S → Result A × S) → Run S A
  method m s = let (r, state') = m s.state in (r, record s { state = state' })

  -- What the code reads of the state.
  unfoldable pub ask : (S → A) → Run S A
  ask f s = (ok (f s.state), s)

  -- A change of the state.
  unfoldable pub modify : (S → A × S) → Run S A
  modify f s = let (a, state') = f s.state in (ok a, record s { state = state' })

  -- The result with its error, for code that looks at the error.
  unfoldable pub attempt : Run S A → Run S (Result A)
  attempt m s = let (r, s') = m s in (ok r, s')

unfoldable pub emit : {S : Type 0} → ClientCall → Run S (Unit {0})
emit c s = (ok tt, record s { calls = s.calls ++ c ∷ [] })

module _ {S A B : Type 0} where
  abbrev pub continue : Result A → (A → Run S B) → Run S B
  continue (ok a) f s = f a s
  continue (err e) f s = (err e, s)
  continue panic f s = (panic, s)

  infixl 5 ◌>>=◌ ◌>>◌
  abbrev pub ◌>>=◌ : Run S A → (A → Run S B) → Run S B
  ◌>>=◌ m f s = let (r, s') = m s in continue r f s'

  abbrev pub ◌>>◌ : Run S A → Run S B → Run S B
  m >> n = m >>= λ _. n

-- A run on a part of the state.
unfoldable pub zoom : {S T A : Type 0} → (S → T) → (T → S → S) → Run T A → Run S A
zoom get put m s =
    let (r, t) = m (record { state = get s.state; calls = s.calls }) in
    (r, record { state = put t.state s.state; calls = t.calls })

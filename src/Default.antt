-- ===== src/Default.antt =====
-- backends/bdefault/backend.go: the handlers of the default backend. What ECHO prints on the server's
-- own output is left out.
use broadcast.Common.{List, [], ◌∷◌, ◌++◌, Bytes, codes}
use broadcast.Dict.{Dict}
use broadcast.Server.{BroadcastServerStatus, CommandInfo}
use broadcast.Stats.Session.{
  Data, bulk, values, Run, flush, write_string, write_status, write_help, write_interface,
  write_array, ask, emit, ◌>>=◌, ◌>>◌,
}

-- strings.Join(s, " ")
unfoldable pub join : List Bytes → Bytes
join [] = []
join (s ∷ []) = s
join (s ∷ t ∷ ss) = s ++ (b' ' ∷ join (t ∷ ss))

module _ {S : Type 0} where
  unfoldable pub ping : Data → Run S (Unit {0})
  unfolding emit
  ping d = do emit (write_string (codes "PONG")); emit flush

  unfoldable pub info : (S → BroadcastServerStatus) → Data → Run S (Unit {0})
  unfolding emit ask
  info status d = do s ← ask status; emit (write_status s); emit flush

  unfoldable pub help : (S → Dict CommandInfo) → Data → Run S (Unit {0})
  unfolding emit ask
  help commands d = do h ← ask commands; emit (write_help h); emit flush

  -- The empty string for no arguments; one argument as it is; several as an array of interfaces, or as
  -- one string with spaces.
  unfoldable pub echo : Data → Run S (Unit {0})
  unfolding emit join
  echo (values []) = do emit (write_string []); emit flush
  echo (values (v ∷ [])) = do emit (write_interface v); emit flush
  echo (values vs) = do emit (write_array vs); emit flush
  echo (bulk []) = do emit (write_string []); emit flush
  echo (bulk (b ∷ [])) = do emit (write_string b); emit flush
  echo (bulk bs) = do emit (write_string (join bs)); emit flush
